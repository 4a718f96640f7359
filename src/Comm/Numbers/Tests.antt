-- ===== src/Comm/Numbers/Tests.antt =====
-- Concrete runs of the conversions, and the theorems at concrete texts.
use distributed_oj.Base.{◌≡◌, refl, text}
use distributed_oj.Base.Result.{ok}
use distributed_oj.Comm.Int.{pos, negsuc, to_string, atoi, stoi, read_digits}
use distributed_oj.Comm.Numbers.{is_valid_number}
use distributed_oj.Comm.Numbers.RoundTrip.{atoi-to_string, stoi-is_valid_number}

to_string_test : to_string (pos 30000) ≡ text "30000"
unfolding to_string
to_string_test = refl

atoi_test : atoi (text " -17x") ≡ negsuc 16
unfolding atoi
atoi_test = refl

atoi-to_string_test : atoi (to_string (negsuc 41)) ≡ negsuc 41
atoi-to_string_test = atoi-to_string (negsuc 41)

stoi-is_valid_number_test : stoi (text "30000") ≡ ok (pos 30000)
unfolding is_valid_number read_digits
stoi-is_valid_number_test = stoi-is_valid_number (text "30000") refl
