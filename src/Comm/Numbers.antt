-- ===== src/Comm/Numbers.antt =====
-- comm/util.hpp, StringUtil::isValidNumber, and how the conversions fit together.
pub mod RoundTrip
mod Tests
use distributed_oj.Base.{Bool, true, false, ◌&&◌, [], ◌∷◌, Text}
use distributed_oj.Comm.Int.{is_digit}

unfoldable pub all_digits : Text → Bool
all_digits [] = true
all_digits (c ∷ s) = is_digit c && all_digits s

-- `isValidNumber`
unfoldable pub is_valid_number : Text → Bool
unfolding all_digits
is_valid_number [] = false
is_valid_number (c ∷ s) = all_digits (c ∷ s)
