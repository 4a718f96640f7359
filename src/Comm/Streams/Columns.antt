-- ===== src/Comm/Streams/Columns.antt =====
-- Readings of a line of numbers with a blank before each.
use distributed_oj.Base.{
  ℕ, zero, suc, length, ◌+◌, ◌-◌, ◌/◌, ◌%◌, ◌<◌, ◌≡◌, refl, sym, ap, ◌∙◌, true, inl, inr, List, [],
  ◌∷◌, ◌++◌, Option, some, Text, arith, Bool-cases, ltb,
}
use distributed_oj.Comm.Int.{
  ℤ, pos, is_digit, print_digits, to_string_nat, skip_spaces, read_digits, read_signed, has_digits,
  starts_with_digit,
}
use distributed_oj.Comm.Numbers.RoundTrip.{read_digits-print_digits, print_digits-cons}
use distributed_oj.Comm.Streams.{
  drop_word, skip_word, drop_digits, drop_number, read_long_at, read_long,
}

-- So many blanks before a text
abbrev pub spaces : ℕ → Text → Text
spaces zero s = s
spaces (suc k) s = b' ' ∷ spaces k s

-- A number as `%*llu` of a width prints it: behind as many blanks as its digits leave
abbrev pub right : ℕ → ℕ → Text → Text
right width n rest = spaces (width - length (to_string_nat n)) (to_string_nat n ++ rest)

-- Numbers as `" %*llu"` prints each of them: a blank, and the number in its width
abbrev pub padded : List (ℕ × ℕ) → Text
padded [] = []
padded ((width, n) ∷ cs) = b' ' ∷ right width n (padded cs)

abbrev pub columns : List ℕ → Text
columns [] = []
columns (n ∷ ns) = b' ' ∷ (to_string_nat n ++ columns ns)

print_digits-append :
    (fuel n : ℕ) (acc rest : Text)
    → print_digits fuel n acc ++ rest ≡ print_digits fuel n (acc ++ rest)
unfolding print_digits
print_digits-append zero n acc rest = refl
print_digits-append (suc fuel) n acc rest = elim (Bool-cases (ltb n 10)) [
  | inl small ↦ rw small refl
  | inr big ↦ rw big (print_digits-append fuel (n / 10) ((b'0' + n % 10) ∷ acc) rest)
]

-- The digits that are printed are passed over.
drop_digits-print_digits :
    (fuel n : ℕ) (acc : Text) → n < fuel → drop_digits (print_digits fuel n acc) ≡ drop_digits acc
unfolding drop_digits print_digits
drop_digits-print_digits zero n acc h = elim h [ ]
drop_digits-print_digits (suc fuel) n acc h = elim (Bool-cases (ltb n 10)) [
  | inl small ↦ rw small (ground arith)
  | inr big ↦ rw big (
      drop_digits-print_digits fuel (n / 10) ((b'0' + n % 10) ∷ acc) (ground arith)
      ∙ (ground arith))
]

drop_word-print_digits :
    (fuel n : ℕ) (acc : Text) → n < fuel → drop_word (print_digits fuel n acc) ≡ drop_word acc
unfolding drop_word print_digits
drop_word-print_digits zero n acc h = elim h [ ]
drop_word-print_digits (suc fuel) n acc h = elim (Bool-cases (ltb n 10)) [
  | inl small ↦ rw small (ground arith)
  | inr big ↦
      rw big (
        drop_word-print_digits fuel (n / 10) ((b'0' + n % 10) ∷ acc) (ground arith)
        ∙ (ground arith))
]

-- The number at the front of a text that starts with a digit
read_long_at-digits :
    (c : ℕ) (s : Text) (v : Option ℤ)
    → is_digit c ≡ true
    → read_long_at (c ∷ s) v ≡ (some (drop_digits (c ∷ s)), some (pos (read_digits 0 (c ∷ s))))
unfolding read_long_at has_digits starts_with_digit drop_number read_signed
read_long_at-digits c s v h = ground arith

skip_spaces-digits : (c : ℕ) (s : Text) → is_digit c ≡ true → skip_spaces (c ∷ s) ≡ c ∷ s
unfolding skip_spaces
skip_spaces-digits c s h = ground arith

-- A text that a number or a word before it does not run into
abbrev pub IsCut : Text → Type 0
IsCut [] = Unit
IsCut (c ∷ s) = c ≡ b' '

drop_digits-IsCut : (rest : Text) → IsCut rest → drop_digits rest ≡ rest
unfolding drop_digits
drop_digits-IsCut [] h = refl
drop_digits-IsCut (c ∷ s) h = rw h refl

pub drop_word-IsCut : (rest : Text) → IsCut rest → drop_word rest ≡ rest
unfolding drop_word
drop_word-IsCut [] h = refl
drop_word-IsCut (c ∷ s) h = rw h refl

read_digits-IsCut : (n : ℕ) (rest : Text) → IsCut rest → read_digits n rest ≡ n
unfolding read_digits
read_digits-IsCut n [] h = refl
read_digits-IsCut n (c ∷ s) h = rw h refl

pub columns-IsCut : (ns : List ℕ) → IsCut (columns ns)
columns-IsCut [] = tt
columns-IsCut (n ∷ ns) = refl

-- A number and what stands behind it, as one print
to_string_nat-append : (n : ℕ) (rest : Text) → to_string_nat n ++ rest ≡ print_digits (n + 1) n rest
unfolding to_string_nat
to_string_nat-append n rest = print_digits-append (n + 1) n [] rest

-- The text at the next number: its first digit, and all of it as a print
skip_spaces-number :
    (n : ℕ) (rest : Text)
    → (c : ℕ) × (s : Text) × (skip_spaces (b' ' ∷ (to_string_nat n ++ rest)) ≡ c ∷ s)
      × (is_digit c ≡ true)
      × (c ∷ s ≡ print_digits (n + 1) n rest)
unfolding skip_spaces
skip_spaces-number n rest =
    let (c, s, e, d) = print_digits-cons (n + 1) n rest (omega arith) in
    (c, s, rw (to_string_nat-append n rest, e) (skip_spaces-digits c s d), d, sym e)

read_long-number :
    (n : ℕ) (rest : Text) (v : Option ℤ)
    → IsCut rest
    → read_long (some (b' ' ∷ (to_string_nat n ++ rest))) v ≡ (some rest, some (pos n))
unfolding read_long
read_long-number n rest v cut =
    let (c, s, e, d, p) = skip_spaces-number n rest in
    let value : read_digits 0 (c ∷ s) ≡ n =
      ap (read_digits 0) p
      ∙ read_digits-print_digits (n + 1) n rest (omega arith)
      ∙ read_digits-IsCut n rest cut in
    let left : drop_digits (c ∷ s) ≡ rest =
      ap drop_digits p
      ∙ drop_digits-print_digits (n + 1) n rest (omega arith)
      ∙ drop_digits-IsCut rest cut in
    rw e (read_long_at-digits c s v d ∙ rw (value, left) refl)

pub skip_word-number :
    (n : ℕ) (rest : Text)
    → IsCut rest
    → skip_word (some (b' ' ∷ (to_string_nat n ++ rest))) ≡ some rest
unfolding skip_word
skip_word-number n rest cut =
    let (c, s, e, d, p) = skip_spaces-number n rest in
    rw e (
      ap some (
        ap drop_word p
        ∙ drop_word-print_digits (n + 1) n rest (omega arith)
        ∙ drop_word-IsCut rest cut))

-- `>>` into a `long` takes one column.
pub read_long-columns :
    (n : ℕ) (ns : List ℕ) (v : Option ℤ)
    → read_long (some (columns (n ∷ ns))) v ≡ (some (columns ns), some (pos n))
read_long-columns n ns v = read_long-number n (columns ns) v (columns-IsCut ns)

pub skip_word-columns :
    (n : ℕ) (ns : List ℕ) → skip_word (some (columns (n ∷ ns))) ≡ some (columns ns)
skip_word-columns n ns = skip_word-number n (columns ns) (columns-IsCut ns)

-- Blanks do not matter before a word or a number.
pub skip_word-spaces : (k : ℕ) (s : Text) → skip_word (some (spaces k s)) ≡ skip_word (some s)
unfolding skip_word skip_spaces
skip_word-spaces zero s = refl
skip_word-spaces (suc k) s = skip_word-spaces k s

read_long-spaces :
    (k : ℕ) (s : Text) (v : Option ℤ) → read_long (some (spaces k s)) v ≡ read_long (some s) v
unfolding read_long skip_spaces
read_long-spaces zero s v = refl
read_long-spaces (suc k) s v = read_long-spaces k s v

pub skip_word-blank : (s : Text) → skip_word (some (b' ' ∷ s)) ≡ skip_word (some s)
skip_word-blank s = skip_word-spaces 1 s

read_long-blank : (s : Text) (v : Option ℤ) → read_long (some (b' ' ∷ s)) v ≡ read_long (some s) v
read_long-blank s v = read_long-spaces 1 s v

pub padded-IsCut : (cs : List (ℕ × ℕ)) → IsCut (padded cs)
padded-IsCut [] = tt
padded-IsCut ((width, n) ∷ cs) = refl

pub skip_word-right :
    (width n : ℕ) (rest : Text) → IsCut rest → skip_word (some (right width n rest)) ≡ some rest
skip_word-right width n rest cut =
    skip_word-spaces (width - length (to_string_nat n)) _
    ∙ sym (skip_word-blank (to_string_nat n ++ rest))
    ∙ skip_word-number n rest cut

pub skip_word-padded :
    (width n : ℕ) (cs : List (ℕ × ℕ))
    → skip_word (some (padded ((width, n) ∷ cs))) ≡ some (padded cs)
skip_word-padded width n cs =
    skip_word-blank (right width n (padded cs)) ∙ skip_word-right width n _ (padded-IsCut cs)

-- `>>` into a `long` takes one number of any width.
pub read_long-padded :
    (width n : ℕ) (cs : List (ℕ × ℕ)) (v : Option ℤ)
    → read_long (some (padded ((width, n) ∷ cs))) v ≡ (some (padded cs), some (pos n))
read_long-padded width n cs v =
    read_long-blank (right width n (padded cs)) v
    ∙ read_long-spaces (width - length (to_string_nat n)) _ v
    ∙ sym (read_long-blank (to_string_nat n ++ padded cs) v)
    ∙ read_long-number n (padded cs) v (padded-IsCut cs)
