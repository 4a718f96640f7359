-- ===== src/CompileServer/Job/Parallel/Names.antt =====
-- comm/util.hpp, PathUtil: the temporary files of two calls.
use distributed_oj.Base.{
  ℕ, ◌≡◌, ◌≢◌, refl, sym, Bool, true, false, ◌||◌, inl, inr, Bool-cases, [], ◌∷◌, ◌++◌, Text, text,
  text_eq, text_eq_iff, arith, All, All-append, All-mono,
}
use distributed_oj.Comm.Paths.{add_suffix, temp_path}
use distributed_oj.Comm.Int.{is_digit, to_string_nat}
use distributed_oj.Comm.Files.{file_name_of}
use distributed_oj.Comm.Files.Names.{to_string_nat-digits}
use distributed_oj.CompileServer.Job.Cleanup.{is_temp}

-- The suffix of a temporary file begins with the first full stop behind its name.
first_dot :
    (f g a b : Text)
    → All (λ c. c ≢ b'.') f
    → All (λ c. c ≢ b'.') g
    → f ++ (b'.' ∷ a) ≡ g ++ (b'.' ∷ b)
    → f ≡ g
first_dot [] [] a b hf hg e = refl
first_dot [] (c ∷ g) a b hf hg e = let k : c ≡ b'.' = cc in absurd (hg.0 k)
first_dot (c ∷ f) [] a b hf hg e = let k : c ≡ b'.' = cc in absurd (hf.0 k)
first_dot (c ∷ f) (d ∷ g) a b hf hg e =
    let k : f ++ (b'.' ∷ a) ≡ g ++ (b'.' ∷ b) = cc in let r = first_dot f g a b hf.1 hg.1 k in cc

-- A temporary file of a name, as a text
abbrev HasName : Text → Text → Type 0
HasName f p = (a : Text) × (p ≡ temp_path ++ (f ++ (b'.' ∷ a)))

suffix-HasName : (f p a : Text) → text_eq (add_suffix f (b'.' ∷ a)) p ≡ true → HasName f p
unfolding add_suffix
suffix-HasName f p a h = (a, sym ((text_eq_iff _ p).0 h))

suffix_or :
    (f p a : Text) (b : Bool)
    → (b ≡ true → HasName f p)
    → (text_eq (add_suffix f (b'.' ∷ a)) p || b) ≡ true
    → HasName f p
suffix_or f p a b rest h = elim (Bool-cases (text_eq (add_suffix f (b'.' ∷ a)) p)) [
  | inl here ↦ suffix-HasName f p a here
  | inr missing ↦ rest (ground arith)
]

is_temp-HasName : (f p : Text) → is_temp f p ≡ true → HasName f p
is_temp-HasName f p = suffix_or f p (text "cpp") _ (
    suffix_or f p (text "compile_err") _ (
      suffix_or f p (text "exe") _ (
        suffix_or f p (text "stdin") _
          (suffix_or f p (text "stdout") _ (suffix-HasName f p (text "stderr"))))))

-- No path is a temporary file of two names.
pub is_temp_apart :
    (f g p : Text)
    → All (λ c. c ≢ b'.') f
    → All (λ c. c ≢ b'.') g
    → f ≢ g
    → is_temp f p ≡ true
    → is_temp g p ≡ false
is_temp_apart f g p hf hg ne h = elim (Bool-cases (is_temp g p)) [
  | inl both ↦
      let (a, x) = is_temp-HasName f p h in
      let (b, y) = is_temp-HasName g p both in
      let k : f ++ (b'.' ∷ a) ≡ g ++ (b'.' ∷ b) = cc in absurd (ne (first_dot f g a b hf hg k))
  | inr apart ↦ apart
]

digit-ne-dot : (c : ℕ) → is_digit c ≡ true → c ≢ b'.'
digit-ne-dot c h e = ground arith

-- A name that UniqFileName makes has no full stop.
pub file_name_of-no_dots : (ms id : ℕ) → All (λ c. c ≢ b'.') (file_name_of ms id)
file_name_of-no_dots ms id =
    All-append (λ c. c ≢ b'.') (to_string_nat ms) _ (plain ms) ((λ e. cc), plain id)
  where
    plain : (n : ℕ) → All (λ c. c ≢ b'.') (to_string_nat n)
    plain n =
        All-mono (λ c. is_digit c ≡ true) (λ c. c ≢ b'.') digit-ne-dot (to_string_nat n)
          (to_string_nat-digits n)
