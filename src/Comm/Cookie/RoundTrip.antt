-- ===== src/Comm/Cookie/RoundTrip.antt =====
-- comm/util.hpp, SessionUtil::get_cookie_value: a header as a browser writes it, `a=1; b=2`, and
-- what is read out of it.
use distributed_oj.Base.{
  ℕ, ◌≡◌, refl, ◌≢◌, ◌∙◌, ap, Bool, true, false, List, [], ◌∷◌, ◌++◌, none, some, Text, text_eq,
  if◌then◌else◌, All, arith,
}
use distributed_oj.Comm.Cookie.{
  push_front, pieces, split_at, cookie_of, find_cookie, get_cookie_value,
}

-- A code that is none of a text's.
abbrev pub Lacks : ℕ → Text → Type 0
Lacks c s = All (λ d. d ≢ c) s

abbrev pub NoLeadingBlank : Text → Type 0
NoLeadingBlank [] = ⊥
NoLeadingBlank (c ∷ s) = c ≢ b' '

-- A cookie that the header can carry: its name is not empty, starts with no blank and holds
-- neither '=' nor ';', and its value holds no ';'.
abbrev pub IsCookie : Text × Text → Type 0
IsCookie (name, value) = NoLeadingBlank name × Lacks b'=' name × Lacks b';' name × Lacks b';' value

abbrev pub print_cookie : Text × Text → Text
print_cookie (name, value) = name ++ (b'=' ∷ value)

-- The header that a client sends for a list of cookies.
abbrev pub print_cookies : List (Text × Text) → Text
print_cookies [] = []
print_cookies (c ∷ []) = print_cookie c
print_cookies (c ∷ d ∷ cs) = print_cookie c ++ (b';' ∷ b' ' ∷ print_cookies (d ∷ cs))

-- The value of the first cookie of that name, empty if there is none.
abbrev pub first_value : Text → List (Text × Text) → Text
first_value name [] = []
first_value name ((key, value) ∷ cs) = if text_eq key name then value else first_value name cs

pieces-cut :
    (s rest : Text) → Lacks b';' s → pieces b';' (s ++ (b';' ∷ rest)) ≡ s ∷ pieces b';' rest
unfolding pieces
pieces-cut [] rest h = refl
pieces-cut (c ∷ s) rest (p, h) = ground (arith, pieces-cut s rest h)

pieces_last : (c : ℕ) (s : Text) → Lacks b';' (c ∷ s) → pieces b';' (c ∷ s) ≡ (c ∷ s) ∷ []
unfolding pieces
pieces_last c [] h = ground arith
pieces_last c (d ∷ s) (p, h) = ground (arith, pieces_last d s h)

Lacks-print_cookie :
    (name value : Text)
    → Lacks b';' name
    → Lacks b';' value
    → Lacks b';' (print_cookie (name, value))
Lacks-print_cookie [] value h k = (ground arith, k)
Lacks-print_cookie (c ∷ name) value (p, h) k = (p, Lacks-print_cookie name value h k)

split_at-print_cookie :
    (name value : Text)
    → Lacks b'=' name
    → split_at b'=' (print_cookie (name, value)) ≡ some (name, value)
unfolding split_at
split_at-print_cookie [] value h = refl
split_at-print_cookie (c ∷ name) value (p, h) = ground (arith, split_at-print_cookie name value h)

cookie_of-print_cookie :
    (wanted name value : Text)
    → IsCookie (name, value)
    → cookie_of wanted (print_cookie (name, value))
      ≡ (if text_eq name wanted then some value else none)
unfolding cookie_of
cookie_of-print_cookie wanted [] value h = absurd h.0
cookie_of-print_cookie wanted (c ∷ name) value h =
    ground (arith, split_at-print_cookie (c ∷ name) value h.1)

-- The blank after a separator is dropped.
cookie_of-blank :
    (wanted s : Text) → NoLeadingBlank s → cookie_of wanted (b' ' ∷ s) ≡ cookie_of wanted s
unfolding cookie_of
cookie_of-blank wanted [] h = absurd h
cookie_of-blank wanted (c ∷ s) h = ground arith

-- Each cookie but the first stands behind a blank.
abbrev later_pieces : List (Text × Text) → List Text
later_pieces [] = []
later_pieces (c ∷ cs) = (b' ' ∷ print_cookie c) ∷ later_pieces cs

pieces_one : (c : Text × Text) → IsCookie c → pieces b';' (print_cookie c) ≡ print_cookie c ∷ []
pieces_one ([], value) h = absurd h.0
pieces_one (x ∷ name, value) h =
    pieces_last x (name ++ (b'=' ∷ value)) (Lacks-print_cookie (x ∷ name) value h.2 h.3)

pieces-blank : (s : Text) → pieces b';' (b' ' ∷ s) ≡ push_front b' ' (pieces b';' s)
unfolding pieces
pieces-blank s = refl

pieces-print_cookies :
    (c : Text × Text) (cs : List (Text × Text))
    → All IsCookie (c ∷ cs)
    → pieces b';' (print_cookies (c ∷ cs)) ≡ print_cookie c ∷ later_pieces cs
pieces-print_cookies c [] (h, _) = pieces_one c h
pieces-print_cookies (name, value) (d ∷ cs) (h, hs) =
    pieces-cut (print_cookie (name, value)) (b' ' ∷ print_cookies (d ∷ cs))
      (Lacks-print_cookie name value h.2 h.3)
    ∙ ap (◌∷◌ (print_cookie (name, value))) (
        pieces-blank (print_cookies (d ∷ cs)) ∙ ap (push_front b' ') (pieces-print_cookies d cs hs))

NoLeadingBlank-print_cookie : (c : Text × Text) → IsCookie c → NoLeadingBlank (print_cookie c)
NoLeadingBlank-print_cookie ([], value) h = absurd h.0
NoLeadingBlank-print_cookie (x ∷ name, value) h = h.0

find_cookie-cons :
    (wanted piece : Text) (rest : List Text) (found : Bool) (value : Text)
    → cookie_of wanted piece ≡ (if found then some value else none)
    → find_cookie wanted (piece ∷ rest) ≡ (if found then value else find_cookie wanted rest)
unfolding find_cookie
find_cookie-cons wanted piece rest true value e = ground arith
find_cookie-cons wanted piece rest false value e = ground arith

find_cookie-later :
    (wanted : Text) (cs : List (Text × Text))
    → All IsCookie cs
    → find_cookie wanted (later_pieces cs) ≡ first_value wanted cs
unfolding find_cookie
find_cookie-later wanted [] h = refl
find_cookie-later wanted ((name, value) ∷ cs) (h, hs) =
    find_cookie-cons wanted _ (later_pieces cs) (text_eq name wanted) value (
      cookie_of-blank wanted _ (NoLeadingBlank-print_cookie (name, value) h)
      ∙ cookie_of-print_cookie wanted name value h)
    ∙ rw (find_cookie-later wanted cs hs)

get_cookie_value-pieces :
    (header wanted : Text)
    → get_cookie_value header wanted ≡ find_cookie wanted (pieces b';' header)
unfolding get_cookie_value
get_cookie_value-pieces [] wanted = refl
get_cookie_value-pieces (c ∷ header) wanted = refl

-- Out of the header that a client writes for a list of well-formed cookies, `get_cookie_value`
-- takes the value of the first cookie of the wanted name, and the empty text if there is none.
pub get_cookie_value-print_cookies :
    (wanted : Text) (cs : List (Text × Text))
    → All IsCookie cs
    → get_cookie_value (print_cookies cs) wanted ≡ first_value wanted cs
unfolding find_cookie pieces
get_cookie_value-print_cookies wanted [] h = get_cookie_value-pieces [] wanted
get_cookie_value-print_cookies wanted ((name, value) ∷ cs) (h, hs) =
    get_cookie_value-pieces (print_cookies ((name, value) ∷ cs)) wanted
    ∙ ap (find_cookie wanted) (pieces-print_cookies (name, value) cs (h, hs))
    ∙ find_cookie-cons wanted _ (later_pieces cs) (text_eq name wanted) value
        (cookie_of-print_cookie wanted name value h)
    ∙ rw (find_cookie-later wanted cs hs)
