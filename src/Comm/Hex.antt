-- ===== src/Comm/Hex.antt =====
-- comm/util.hpp: UUIDUtil::generate_hex, SessionUtil::generate_alpha_numeric_session_id and
-- MD5Util. The random numbers are arguments, in the order in which they are drawn.
pub mod Shape
mod Tests
use distributed_oj.Base.{
  ℕ, ◌+◌, ◌-◌, ◌/◌, ◌%◌, List, [], ◌∷◌, ◌++◌, Text, text, ltb, length, get_or, if◌then◌else◌,
}

abbrev pub hex_digit : ℕ → ℕ
hex_digit d = if ltb d 10 then b'0' + d else b'a' + d - 10

-- `std::hex << rc`, for a random number below 256
unfoldable pub hex_text : ℕ → Text
hex_text rc =
    if ltb rc 16 then hex_digit rc ∷ [] else hex_digit (rc / 16) ∷ hex_digit (rc % 16) ∷ []

-- `hex.length() < 2 ? '0' + hex : hex`
unfoldable pub pad_hex : ℕ → Text
unfolding hex_text
pad_hex rc = if ltb (length (hex_text rc)) 2 then b'0' ∷ hex_text rc else hex_text rc

-- `generate_hex` on the numbers that `random_char` returns, one for each round
unfoldable pub generate_hex : List ℕ → Text
unfolding pad_hex
generate_hex [] = []
generate_hex (rc ∷ rest) = pad_hex rc ++ generate_hex rest

abbrev pub session_chars : Text
session_chars = text "0123456789ABCDEFGHIJKLMNOPQRSTUVWXYZabcdefghijklmnopqrstuvwxyz"

-- `generate_alpha_numeric_session_id` on the numbers that the distribution draws, one for each
-- character of the id; each lies within `session_chars`.
unfoldable pub generate_session_id : List ℕ → Text
generate_session_id [] = []
generate_session_id (i ∷ rest) = get_or session_chars i b'0' ∷ generate_session_id rest

-- `generateMD5` prints the sixteen bytes of OpenSSL's digest by "%02x".
unfoldable pub generate_md5 : (Text → List ℕ) → Text → Text
unfolding generate_hex
generate_md5 md5 input = generate_hex (md5 input)

-- `generateSaltedMD5`
unfoldable pub generate_salted_md5 : (Text → List ℕ) → Text → Text → Text
generate_salted_md5 md5 password salt = generate_md5 md5 (password ++ salt)
