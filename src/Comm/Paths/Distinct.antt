-- ===== src/Comm/Paths/Distinct.antt =====
-- comm/util.hpp, PathUtil: when two temporary files have the same path.
use distributed_oj.Base.{◌≡◌, refl, [], ◌∷◌, ◌++◌, Text, text_eq, arith}
use distributed_oj.Comm.Paths.{temp_path, add_suffix}

text_eq-append : (xs a b : Text) → text_eq (xs ++ a) (xs ++ b) ≡ text_eq a b
text_eq-append [] a b = refl
text_eq-append (x ∷ xs) a b = ground (arith, text_eq-append xs a b)

-- Two of the paths of one submission are equal where their suffixes are.
pub text_eq-add_suffix :
    (file_name a b : Text) → text_eq (add_suffix file_name a) (add_suffix file_name b) ≡ text_eq a b
unfolding add_suffix
text_eq-add_suffix file_name a b = text_eq-append (temp_path ++ file_name) a b
