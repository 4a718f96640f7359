-- ===== src/Comm/Cookie.antt =====
-- comm/util.hpp, SessionUtil::get_cookie_value: one cookie out of the `Cookie` header.
pub mod RoundTrip
mod Tests
use distributed_oj.Base.{
  ℕ, Bool, true, false, List, [], ◌∷◌, ◌++◌, Option, none, some, Text, text, text_eq, ◌==◌,
  if◌then◌else◌,
}

abbrev pub push_front : ℕ → List Text → List Text
push_front c [] = (c ∷ []) ∷ []
push_front c (p ∷ ps) = (c ∷ p) ∷ ps

-- The pieces that repeated calls of `std::getline(stream, piece, ';')` give. A separator at the
-- very end opens no further piece.
unfoldable pub pieces : ℕ → Text → List Text
pieces sep [] = []
pieces sep (c ∷ s) = if c == sep then [] ∷ pieces sep s else push_front c (pieces sep s)

-- `erase(0, find_first_not_of(" "))`; a piece of spaces only is left as it is.
unfoldable pub drop_blanks : Text → Text → Text
drop_blanks whole [] = whole
drop_blanks whole (c ∷ s) = if c == b' ' then drop_blanks whole s else c ∷ s

-- `substr(0, pos)` and `substr(pos + 1)` at the first '=', where there is one.
unfoldable pub split_at : ℕ → Text → Option (Text × Text)
split_at sep [] = none
split_at sep (c ∷ s) = elim (c == sep) [
  | true ↦ some ([], s)
  | false ↦ elim (split_at sep s) [ none ↦ none | some (key, value) ↦ some (c ∷ key, value) ]
]

-- One round of the loop: `none` goes on to the next piece.
unfoldable pub cookie_of : Text → Text → Option Text
unfolding drop_blanks split_at
cookie_of cookie_name cookie = elim (split_at b'=' (drop_blanks cookie cookie)) [
  | none ↦ none
  | some (key, value) ↦ if text_eq key cookie_name then some value else none
]

unfoldable pub find_cookie : Text → List Text → Text
find_cookie cookie_name [] = []
find_cookie cookie_name (cookie ∷ rest) = elim (cookie_of cookie_name cookie) [
  | none ↦ find_cookie cookie_name rest
  | some value ↦ value
]

-- `get_cookie_value`, on the value of the request's `Cookie` header, empty if it has none. Its
-- early return on an empty header is the loop over no piece.
unfoldable pub get_cookie_value : Text → Text → Text
unfolding find_cookie pieces cookie_of
get_cookie_value [] cookie_name = []
get_cookie_value (c ∷ header) cookie_name = find_cookie cookie_name (pieces b';' (c ∷ header))
