-- ===== src/Server/Threads/Entries.antt =====
-- oj_server/oj_server.cc: the nodes of `sessions` under find, assignment and erase.
use distributed_oj.Base.{
  ℕ, zero, suc, ◌≡◌, ◌≢◌, refl, sym, ◌∙◌, ap, inl, inr, [], ◌∷◌, Option, none, some, Text, text_eq,
  text_eq_iff, arith, Bool-cases,
}
use distributed_oj.Server.Threads.{
  Entries, next_place, find_entry, entry_at, erase_entry, assign_entry,
}

next_place_injective : (o : Option ℕ) {n : ℕ} → next_place o ≡ some (suc n) → o ≡ some n
next_place_injective none e = cc
next_place_injective (some m) e = cc

next_place-ne-zero : (o : Option ℕ) → next_place o ≢ some 0
next_place-ne-zero none e = cc
next_place-ne-zero (some m) e = cc

-- `find` gives a node of that session id.
pub entry_at-find_entry :
    (k : Text) (n : ℕ) (m : Entries)
    → find_entry k m ≡ some n
    → (u : Text) × (entry_at m n ≡ some (k, u))
unfolding find_entry
entry_at-find_entry k n [] e = cc
entry_at-find_entry k zero (none ∷ m) e = absurd (next_place-ne-zero (find_entry k m) e)
entry_at-find_entry k (suc n) (none ∷ m) e =
    entry_at-find_entry k n m (next_place_injective (find_entry k m) e)
entry_at-find_entry k zero (some (j, v) ∷ m) e = elim (Bool-cases (text_eq j k)) [
  | inl same ↦ (v, ap (λ x. some (x, v)) ((text_eq_iff j k).0 same))
  | inr other ↦ absurd (next_place-ne-zero (find_entry k m) (sym (rw other refl) ∙ e))
]
entry_at-find_entry k (suc n) (some (j, v) ∷ m) e =
    entry_at-find_entry k n m (ground (arith, next_place_injective (find_entry k m)))

-- To erase another node changes neither what `find` gives nor the node that it has given.
pub find_entry-erase_entry :
    (k : Text) (i n : ℕ) (m : Entries)
    → i ≢ n
    → find_entry k m ≡ some n
    → find_entry k (erase_entry i m) ≡ some n
unfolding find_entry
find_entry-erase_entry k i n [] ne e = cc
find_entry-erase_entry k zero zero (o ∷ m) ne e = absurd (ne refl)
find_entry-erase_entry k zero (suc n) (none ∷ m) ne e = e
find_entry-erase_entry k zero (suc n) (some (j, v) ∷ m) ne e = ground arith
find_entry-erase_entry k (suc i) zero (none ∷ m) ne e =
    absurd (next_place-ne-zero (find_entry k m) e)
find_entry-erase_entry k (suc i) zero (some (j, v) ∷ m) ne e =
    ground (arith, next_place-ne-zero (find_entry k m))
find_entry-erase_entry k (suc i) (suc n) (none ∷ m) ne e =
    ap next_place (
      find_entry-erase_entry k i n m (λ p. ne (ap suc p)) (next_place_injective (find_entry k m) e))
find_entry-erase_entry k (suc i) (suc n) (some (j, v) ∷ m) ne e = ground (
  arith,
  next_place_injective (find_entry k m) {n = n},
  find_entry-erase_entry k i n m (λ p. ne (ap suc p)),
)

-- To assign to another session id neither.
pub find_entry-assign_entry :
    (k j u : Text) (n : ℕ) (m : Entries)
    → j ≢ k
    → find_entry k m ≡ some n
    → (find_entry k (assign_entry j u m) ≡ some n)
      × (entry_at (assign_entry j u m) n ≡ entry_at m n)
unfolding find_entry assign_entry
find_entry-assign_entry k j u n [] ne e = cc
find_entry-assign_entry k j u zero (none ∷ m) ne e = absurd (next_place-ne-zero (find_entry k m) e)
find_entry-assign_entry k j u (suc n) (none ∷ m) ne e =
    let rest = find_entry-assign_entry k j u n m ne (next_place_injective (find_entry k m) e) in
    (ap next_place rest.0, rest.1)
find_entry-assign_entry k j u zero (some (i, v) ∷ m) ne e =
    ground (arith, next_place-ne-zero (find_entry k m), text_eq_iff i j, text_eq_iff i k)
find_entry-assign_entry k j u (suc n) (some (i, v) ∷ m) ne e = ground (
  arith,
  next_place_injective (find_entry k m) {n = n},
  text_eq_iff i j,
  text_eq_iff i k,
  find_entry-assign_entry k j u n m ne,
)
