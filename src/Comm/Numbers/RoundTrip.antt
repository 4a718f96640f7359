-- ===== src/Comm/Numbers/RoundTrip.antt =====
-- What the conversions between `int` and text promise one another.
use distributed_oj.Base.{
  ℕ, zero, suc, ◌+◌, ◌/◌, ◌%◌, ◌<◌, ◌≡◌, ap, ◌∙◌, true, inl, inr, [], ◌∷◌, Text, text, arith,
  Bool-cases, ltb, if◌then◌else◌, ◌^◌,
}
use distributed_oj.Base.Result.{ok, throws}
use distributed_oj.Comm.Int.{
  ℤ, pos, negsuc, is_digit, print_digits, to_string_nat, to_string, skip_spaces, read_digits,
  read_signed, atoi, stoi,
}
use distributed_oj.Comm.Numbers.{is_valid_number}

pub read_digits-print_digits :
    (fuel n : ℕ) (acc : Text)
    → n < fuel
    → read_digits 0 (print_digits fuel n acc) ≡ read_digits n acc
unfolding read_digits print_digits
read_digits-print_digits zero n acc h = elim h [ ]
read_digits-print_digits (suc fuel) n acc h = elim (Bool-cases (ltb n 10)) [
  | inl small ↦ rw small (ground arith)
  | inr big ↦ rw big (
      read_digits-print_digits fuel (n / 10) ((b'0' + n % 10) ∷ acc) (ground arith)
      ∙ (ground arith))
]

-- The text of a number begins with a digit.
pub print_digits-cons :
    (fuel n : ℕ) (acc : Text)
    → n < fuel
    → (c : ℕ) × (s : Text) × (print_digits fuel n acc ≡ c ∷ s) × (is_digit c ≡ true)
unfolding print_digits
print_digits-cons zero n acc h = elim h [ ]
print_digits-cons (suc fuel) n acc h = elim (Bool-cases (ltb n 10)) [
  | inl small ↦ (b'0' + n, acc, rw small, ground arith)
  | inr big ↦ rw big (print_digits-cons fuel (n / 10) ((b'0' + n % 10) ∷ acc) (ground arith))
]

atoi-digits : (c : ℕ) (s : Text) → is_digit c ≡ true → atoi (c ∷ s) ≡ pos (read_digits 0 (c ∷ s))
unfolding atoi skip_spaces read_signed
atoi-digits c s h = ground arith

atoi-to_string_nat : (n : ℕ) → atoi (to_string_nat n) ≡ pos n
unfolding to_string_nat read_digits
atoi-to_string_nat n =
    let (c, s, e, d) = print_digits-cons (n + 1) n [] (omega arith) in
    let read : read_digits 0 (c ∷ s) ≡ read_digits n [] =
      rw e at (read_digits-print_digits (n + 1) n [] (omega arith)) in
    rw e (atoi-digits c s d ∙ ap pos read)

atoi-minus : (n : ℕ) → atoi (b'-' ∷ to_string_nat (suc n)) ≡ negsuc n
unfolding to_string_nat atoi skip_spaces read_signed read_digits
atoi-minus n =
    let read : read_digits 0 (to_string_nat (suc n)) ≡ suc n =
      read_digits-print_digits (suc n + 1) (suc n) [] (omega arith) in
    rw read

-- Reading back the decimal text of an `int` gives the same `int`, whatever its sign.
pub atoi-to_string : (x : ℤ) → atoi (to_string x) ≡ x
unfolding to_string
atoi-to_string (pos n) = atoi-to_string_nat n
atoi-to_string (negsuc n) = atoi-minus n

-- A text that `isValidNumber` accepts never makes `stoi` complain of its form: it is read as the
-- number that its digits spell, and it is refused only where that number is 2^31 or more.
pub stoi-is_valid_number :
    (s : Text)
    → is_valid_number s ≡ true
    → stoi s ≡ (
        if ltb (read_digits 0 s) (2 ^ 31) then ok (pos (read_digits 0 s)) else throws (text "stoi"))
unfolding is_valid_number stoi skip_spaces read_signed
stoi-is_valid_number [] h = cc
stoi-is_valid_number (c ∷ s) h = ground arith
