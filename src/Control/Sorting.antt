-- ===== src/Control/Sorting.antt =====
-- The order in which AllQuestions lists the questions.
use mathlib.Core.List.Perm
use distributed_oj.Base.{
  ◌≡◌, refl, true, false, List, [], ◌∷◌, arith, Perm, inl, inr, Bool-cases, All,
}
use distributed_oj.Comm.Int.{ℤ, pos, negsuc, int_lt, atoi}
use distributed_oj.Model.{Question}
use distributed_oj.Control.Questions.{comes_before, insert_sorted, sort}

-- No question stands behind one that comes after it.
abbrev pub NotBefore : Question → Question → Type 0
NotBefore q r = comes_before r q ≡ false

abbrev pub IsSorted : List Question → Type 0
IsSorted [] = Unit
IsSorted (q ∷ rest) = All (NotBefore q) rest × IsSorted rest

int_lt_trans : (a b c : ℤ) → int_lt b a ≡ false → int_lt c b ≡ false → int_lt c a ≡ false
int_lt_trans (pos a) (pos b) (pos c) h k = ground arith
int_lt_trans (pos a) (pos b) (negsuc c) h k = cc
int_lt_trans (pos a) (negsuc b) (pos c) h k = cc
int_lt_trans (pos a) (negsuc b) (negsuc c) h k = cc
int_lt_trans (negsuc a) (pos b) (pos c) h k = refl
int_lt_trans (negsuc a) (pos b) (negsuc c) h k = cc
int_lt_trans (negsuc a) (negsuc b) (pos c) h k = refl
int_lt_trans (negsuc a) (negsuc b) (negsuc c) h k = ground arith

int_lt_asym : (a b : ℤ) → int_lt a b ≡ true → int_lt b a ≡ false
int_lt_asym (pos a) (pos b) h = ground arith
int_lt_asym (pos a) (negsuc b) h = cc
int_lt_asym (negsuc a) (pos b) h = refl
int_lt_asym (negsuc a) (negsuc b) h = ground arith

NotBefore-All :
    (q r : Question) (rest : List Question)
    → NotBefore q r
    → All (NotBefore r) rest
    → All (NotBefore q) rest
NotBefore-All q r [] h k = tt
NotBefore-All q r (s ∷ rest) h (k, ks) =
    (int_lt_trans (atoi q.number) (atoi r.number) (atoi s.number) h k, NotBefore-All q r rest h ks)

insert_sorted-All :
    (q r : Question) (rest : List Question)
    → NotBefore r q
    → All (NotBefore r) rest
    → All (NotBefore r) (insert_sorted q rest)
unfolding insert_sorted
insert_sorted-All q r [] h k = (h, tt)
insert_sorted-All q r (s ∷ rest) h (k, ks) = elim (Bool-cases (comes_before s q)) [
  | inl before ↦ rw before (k, insert_sorted-All q r rest h ks)
  | inr behind ↦ rw behind (h, (k, ks))
]

insert_sorted-IsSorted :
    (q : Question) (rest : List Question) → IsSorted rest → IsSorted (insert_sorted q rest)
unfolding insert_sorted
insert_sorted-IsSorted q [] h = (tt, tt)
insert_sorted-IsSorted q (r ∷ rest) (h, hs) = elim (Bool-cases (comes_before r q)) [
  | inl before ↦ rw before (
    insert_sorted-All q r rest (int_lt_asym (atoi r.number) (atoi q.number) before) h,
    insert_sorted-IsSorted q rest hs,
  )
  | inr behind ↦ rw behind ((behind, NotBefore-All q r rest behind h), (h, hs))
]

insert_sorted-Perm : (q : Question) (rest : List Question) → Perm (insert_sorted q rest) (q ∷ rest)
unfolding insert_sorted
insert_sorted-Perm q [] = Perm.refl (q ∷ [])
insert_sorted-Perm q (r ∷ rest) = elim (Bool-cases (comes_before r q)) [
  | inl before ↦
      rw before (Perm.trans (Perm.cons r (insert_sorted-Perm q rest)) (Perm.swap q r rest))
  | inr behind ↦ rw behind (Perm.refl (q ∷ r ∷ rest))
]

-- The list that is shown holds the very questions of the table, in the order of their numbers.
pub sort-IsSorted : (qs : List Question) → Perm (sort qs) qs × IsSorted (sort qs)
unfolding sort
sort-IsSorted [] = (Perm.refl [], tt)
sort-IsSorted (q ∷ rest) =
    let (p, s) = sort-IsSorted rest in
    (
      Perm.trans (insert_sorted-Perm q (sort rest)) (Perm.cons q p),
      insert_sorted-IsSorted q (sort rest) s,
    )
