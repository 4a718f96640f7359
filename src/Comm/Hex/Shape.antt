-- ===== src/Comm/Hex/Shape.antt =====
-- The shape of what generate_hex and generate_alpha_numeric_session_id return.
use distributed_oj.Base.{
  ℕ, zero, suc, ◌+◌, ◌*◌, ◌-◌, ◌<◌, ◌≡◌, ◌≢◌, refl, ◌∙◌, ap, List, [], ◌∷◌, ◌++◌, Text, arith, ltb,
  length, length-append, get_or, All, if◌then◌else◌,
}
use distributed_oj.Comm.Hex.{pad_hex, generate_hex, session_chars, generate_session_id}

-- The number that two hexadecimal digits spell, and the bytes that a text of such pairs spells.
abbrev pub hex_value : ℕ → ℕ
hex_value c = if ltb c b'a' then c - b'0' else c + 10 - b'a'

abbrev pub read_hex : Text → List ℕ
read_hex [] = []
read_hex (c ∷ []) = []
read_hex (c ∷ d ∷ s) = (hex_value c * 16 + hex_value d) ∷ read_hex s

read_hex-pad_hex : (rc : ℕ) (s : Text) → rc < 256 → read_hex (pad_hex rc ++ s) ≡ rc ∷ read_hex s
unfolding pad_hex
read_hex-pad_hex rc s h = ground arith

-- The bytes can be read back from the text that `generate_hex` makes of them, as long as each is
-- below 256.
pub read_hex-generate_hex :
    (bytes : List ℕ) → All (λ b. b < 256) bytes → read_hex (generate_hex bytes) ≡ bytes
unfolding generate_hex
read_hex-generate_hex [] h = refl
read_hex-generate_hex (rc ∷ rest) (small, h) =
    read_hex-pad_hex rc (generate_hex rest) small ∙ ap (◌∷◌ rc) (read_hex-generate_hex rest h)

length-pad_hex : (rc : ℕ) → length (pad_hex rc) ≡ 2
unfolding pad_hex
length-pad_hex rc = ground arith

-- Two characters for each random byte.
pub length-generate_hex : (bytes : List ℕ) → length (generate_hex bytes) ≡ 2 * length bytes
unfolding generate_hex
length-generate_hex [] = refl
length-generate_hex (rc ∷ rest) =
    length-append (pad_hex rc) (generate_hex rest)
    ∙ omega (arith, length-pad_hex rc, length-generate_hex rest)

All-get_or : (P : ℕ → Type 0) (cs : Text) (i d : ℕ) → All P cs → P d → P (get_or cs i d)
All-get_or P [] i d h k = k
All-get_or P (c ∷ cs) zero d (p, h) k = p
All-get_or P (c ∷ cs) (suc i) d (p, h) k = All-get_or P cs i d h k

-- A session id holds no ';', so that it fits into a cookie.
pub generate_session_id-ne-semicolon :
    (draws : List ℕ) → All (λ c. c ≢ b';') (generate_session_id draws)
unfolding generate_session_id
generate_session_id-ne-semicolon [] = tt
generate_session_id-ne-semicolon (i ∷ rest) = (
  All-get_or (λ c. c ≢ b';') session_chars i b'0' (omega arith) (omega arith),
  generate_session_id-ne-semicolon rest,
)
