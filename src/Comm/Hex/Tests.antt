-- ===== src/Comm/Hex/Tests.antt =====
-- Concrete salts.
use distributed_oj.Base.{◌≡◌, refl, [], ◌∷◌, text, arith}
use distributed_oj.Comm.Hex.{generate_hex}
use distributed_oj.Comm.Hex.Shape.{read_hex, read_hex-generate_hex}

hex_test : generate_hex (0 ∷ 10 ∷ 255 ∷ []) ≡ text "000aff"
unfolding generate_hex
hex_test = refl

read_hex-generate_hex_test : read_hex (generate_hex (0 ∷ 10 ∷ 255 ∷ [])) ≡ 0 ∷ 10 ∷ 255 ∷ []
read_hex-generate_hex_test =
    read_hex-generate_hex (0 ∷ 10 ∷ 255 ∷ []) (omega arith, (omega arith, (omega arith, tt)))
