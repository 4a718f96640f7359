-- ===== src/Comm/Streams.antt =====
-- `std::istringstream`, read by `>>`, and `std::string::find`, as HostStatusUtil of comm/util.hpp
-- uses them.
pub mod Columns
use distributed_oj.Base.{
  ℕ, Bool, true, false, ◌||◌, ◌&&◌, List, [], ◌∷◌, Option, none, some, Text, ◌==◌, if◌then◌else◌,
}
use distributed_oj.Comm.Int.{ℤ, pos, is_space, is_digit, skip_spaces, read_signed, has_digits}

-- What is still to be read; `none` where a reading has failed, after which every other fails.
abbrev pub Stream : Type 0
Stream = Option Text

unfoldable pub drop_word : Text → Text
drop_word [] = []
drop_word (c ∷ s) = if is_space c then c ∷ s else drop_word s

abbrev pub after_word : Text → Stream
after_word [] = none
after_word (c ∷ s) = some (drop_word (c ∷ s))

-- `ss >> word`, for a word that is not looked at
unfoldable pub skip_word : Stream → Stream
unfolding drop_word
skip_word none = none
skip_word (some s) = after_word (skip_spaces s)

unfoldable pub drop_digits : Text → Text
drop_digits [] = []
drop_digits (c ∷ s) = if is_digit c then drop_digits s else c ∷ s

-- Past the sign and the digits of a number
unfoldable pub drop_number : Text → Text
unfolding drop_digits
drop_number [] = []
drop_number (c ∷ s) = if c == b'-' || c == b'+' then drop_digits s else drop_digits (c ∷ s)

unfoldable pub read_long_at : Text → Option ℤ → Stream × Option ℤ
unfolding has_digits read_signed drop_number
read_long_at [] v = (none, v)
read_long_at (c ∷ s) v =
    if has_digits (c ∷ s)
    then (some (drop_number (c ∷ s)), some (read_signed (c ∷ s)))
    else (none, some (pos 0))

-- `ss >> v`, for a `long` and a number in its range. A variable that nothing has been written to is
-- `none`; at the end of the text and after a failure it stays as it is, and a text that is no
-- number makes it 0.
unfoldable pub read_long : Stream → Option ℤ → Stream × Option ℤ
unfolding read_long_at skip_spaces
read_long none v = (none, v)
read_long (some s) v = read_long_at (skip_spaces s) v

unfoldable pub starts_with : Text → Text → Bool
starts_with [] s = true
starts_with (p ∷ pattern) [] = false
starts_with (p ∷ pattern) (c ∷ s) = p == c && starts_with pattern s

-- `s.find(pattern) != npos`
unfoldable pub has_text : Text → Text → Bool
unfolding starts_with
has_text pattern [] = starts_with pattern []
has_text pattern (c ∷ s) = starts_with pattern (c ∷ s) || has_text pattern s
