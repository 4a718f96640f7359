-- ===== src/Comm/Int.antt =====
-- `int`, and the conversions of the C and C++ libraries that the program calls on it.
pub mod Sums
use distributed_oj.Base.{
  ℕ, zero, suc, ◌+◌, ◌-◌, ◌*◌, ◌/◌, ◌%◌, ◌^◌, Bool, true, false, ◌&&◌, ◌||◌, [], ◌∷◌, Text, text,
  ltb, leb, ◌==◌, if◌then◌else◌, ◌≡◌, ap,
}
use distributed_oj.Base.Result.{Result, ok, throws}

-- `negsuc n` is -(n + 1).
pub data ℤ : Type 0 where
  pos : ℕ → ℤ
  negsuc : ℕ → ℤ

pub pos_injective : (m n : ℕ) → pos m ≡ pos n → m ≡ n
pos_injective m n e = ap magnitude e
  where
    magnitude : ℤ → ℕ
    magnitude (pos k) = k
    magnitude (negsuc k) = k

-- The negative of a natural number.
abbrev pub neg : ℕ → ℤ
neg zero = pos 0
neg (suc n) = negsuc n

-- `x++`, below the largest `int`
abbrev pub increment : ℤ → ℤ
increment (pos n) = pos (n + 1)
increment (negsuc zero) = pos 0
increment (negsuc (suc n)) = negsuc n

abbrev pub is_zero : ℤ → Bool
is_zero (pos n) = n == 0
is_zero (negsuc n) = false

-- `a < b`
abbrev pub int_lt : ℤ → ℤ → Bool
int_lt (pos a) (pos b) = ltb a b
int_lt (pos a) (negsuc b) = false
int_lt (negsuc a) (pos b) = true
int_lt (negsuc a) (negsuc b) = ltb b a

-- `std::isdigit` and `std::isspace` in the C locale
abbrev pub is_digit : ℕ → Bool
is_digit c = leb b'0' c && leb c b'9'

abbrev pub is_space : ℕ → Bool
is_space c = c == b' ' || (leb 9 c && leb c 13)

-- The decimal digits of `n`, before `acc`. Each round takes one digit, so `n + 1` rounds do.
unfoldable pub print_digits : ℕ → ℕ → Text → Text
print_digits zero n acc = acc
print_digits (suc fuel) n acc =
    let rest = print_digits fuel (n / 10) ((b'0' + n % 10) ∷ acc) in
    if ltb n 10 then (b'0' + n) ∷ acc else rest

-- `std::to_string`
unfoldable pub to_string_nat : ℕ → Text
unfolding print_digits
to_string_nat n = print_digits (n + 1) n []

unfoldable pub to_string : ℤ → Text
unfolding to_string_nat
to_string (pos n) = to_string_nat n
to_string (negsuc n) = b'-' ∷ to_string_nat (suc n)

unfoldable pub skip_spaces : Text → Text
skip_spaces [] = []
skip_spaces (c ∷ s) = if is_space c then skip_spaces s else c ∷ s

-- The number that the digits at the front spell, after a value already read.
unfoldable pub read_digits : ℕ → Text → ℕ
read_digits acc [] = acc
read_digits acc (c ∷ s) = if is_digit c then read_digits (acc * 10 + (c - b'0')) s else acc

unfoldable pub read_signed : Text → ℤ
unfolding read_digits
read_signed [] = pos 0
read_signed (c ∷ s) =
    if c == b'-'
    then neg (read_digits 0 s)
    else if c == b'+'
    then pos (read_digits 0 s)
    else pos (read_digits 0 (c ∷ s))

-- `atoi`, for values in the range of `int`
unfoldable pub atoi : Text → ℤ
unfolding skip_spaces read_signed
atoi s = read_signed (skip_spaces s)

unfoldable pub starts_with_digit : Text → Bool
starts_with_digit [] = false
starts_with_digit (c ∷ s) = is_digit c

unfoldable pub has_digits : Text → Bool
unfolding starts_with_digit
has_digits [] = false
has_digits (c ∷ s) =
    if c == b'-' || c == b'+' then starts_with_digit s else starts_with_digit (c ∷ s)

abbrev pub fits_int : ℤ → Bool
fits_int (pos n) = ltb n (2 ^ 31)
fits_int (negsuc n) = ltb n (2 ^ 31)

-- `std::stoi`: both of its exceptions are described by the name of the function.
unfoldable pub stoi : Text → Result ℤ
unfolding has_digits
stoi s =
    let v = read_signed (skip_spaces s) in
    if has_digits (skip_spaces s) && fits_int v then ok v else throws (text "stoi")
