-- ===== src/Comm/Files/Names.antt =====
-- comm/util.hpp, FileUtil::UniqFileName: the names of calls one after another.
use distributed_oj.Base.{
  ℕ, zero, suc, ◌+◌, ◌/◌, ◌%◌, ◌<◌, ◌≤◌, ◌^◌, ◌≡◌, refl, sym, ap, ◌∙◌, ◌≢◌, true, false, inl, inr,
  List, [], ◌∷◌, ◌++◌, Text, arith, Bool-cases, ltb, All, length,
}
use distributed_oj.Comm.Int.{
  pos, is_digit, print_digits, to_string_nat, to_string, atoi, pos_injective,
}
use distributed_oj.Comm.Numbers.RoundTrip.{atoi-to_string}
use distributed_oj.Comm.Files.{next_id, file_name_of, uniq_file_name, uniq_names}

print_digits-digits :
    (fuel n : ℕ) (acc : Text)
    → n < fuel
    → All (λ c. is_digit c ≡ true) acc
    → All (λ c. is_digit c ≡ true) (print_digits fuel n acc)
unfolding print_digits
print_digits-digits zero n acc h k = elim h [ ]
print_digits-digits (suc fuel) n acc h k = elim (Bool-cases (ltb n 10)) [
  | inl small ↦ rw small (ground arith, k)
  | inr big ↦
      rw big
        (print_digits-digits fuel (n / 10) ((b'0' + n % 10) ∷ acc) (ground arith) (ground arith, k))
]

pub to_string_nat-digits : (n : ℕ) → All (λ c. is_digit c ≡ true) (to_string_nat n)
unfolding to_string_nat
to_string_nat-digits n = print_digits-digits (n + 1) n [] (omega arith) tt

-- What stands behind the first code that is no digit.
abbrev behind : Text → Text
behind [] = []
behind (c ∷ s) = elim (is_digit c) [ true ↦ behind s | false ↦ s ]

behind-append :
    (xs : Text) (c : ℕ) (s : Text)
    → All (λ d. is_digit d ≡ true) xs
    → is_digit c ≡ false
    → behind (xs ++ (c ∷ s)) ≡ s
behind-append [] c s h e = rw (e, behind)
behind-append (x ∷ xs) c s (d, h) e = rw (d, behind) (behind-append xs c s h e)

to_string_nat_injective : (m n : ℕ) → to_string_nat m ≡ to_string_nat n → m ≡ n
unfolding to_string
to_string_nat_injective m n e =
    pos_injective m n (sym (atoi-to_string (pos m)) ∙ ap atoi e ∙ atoi-to_string (pos n))

-- Whatever the two times are, equal names come from equal counters.
pub file_name_of_injective :
    (ms ms' id id' : ℕ) → file_name_of ms id ≡ file_name_of ms' id' → id ≡ id'
file_name_of_injective ms ms' id id' e = to_string_nat_injective id id' (
    sym (behind-append (to_string_nat ms) b'_' (to_string_nat id) (to_string_nat-digits ms) refl)
    ∙ ap behind e
    ∙ behind-append (to_string_nat ms') b'_' (to_string_nat id') (to_string_nat-digits ms') refl)

later_names :
    (ms a d : ℕ) (times : List ℕ) (id : ℕ)
    → a < 2 ^ 32
    → id ≡ (a + d) % 2 ^ 32
    → d + length times < 2 ^ 32
    → All (λ other. file_name_of ms a ≢ other) (uniq_names times id)
unfolding uniq_names uniq_file_name
later_names ms a d [] id small e h = tt
later_names ms a d (t ∷ times) id small e h = (
  λ same.
      let clash : a ≡ next_id id = file_name_of_injective ms t a (next_id id) same in omega arith,
  later_names ms a (d + 1) times (next_id id) small (omega arith) (omega arith),
)

abbrev pub Distinct : List Text → Type 0
Distinct [] = Unit
Distinct (name ∷ names) = All (λ other. name ≢ other) names × Distinct names

-- Up to 2^32 calls of `UniqFileName`, each made after the one before has returned, give names that
-- are all different, whatever the clock shows at each of them.
pub uniq_names-Distinct :
    (times : List ℕ) (id : ℕ) → length times ≤ 2 ^ 32 → Distinct (uniq_names times id)
unfolding uniq_names uniq_file_name
uniq_names-Distinct [] id h = tt
uniq_names-Distinct (t ∷ times) id h = (
  later_names t (next_id id) 0 times (next_id id) (omega arith) (omega arith) (omega arith),
  uniq_names-Distinct times (next_id id) (omega arith),
)
