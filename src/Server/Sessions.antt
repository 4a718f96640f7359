-- ===== src/Server/Sessions.antt =====
-- oj_server/oj_server.cc: logging in, being recognised, and logging out.
use distributed_oj.Base.{
  ◌≢◌, ℕ, ◌≡◌, refl, ◌∙◌, Bool, true, false, List, [], ◌∷◌, none, some, Text, text, text_eq,
  text_eq_iff, arith, if◌then◌else◌, inl, inr, Bool-cases, Option-cases,
}
use distributed_oj.Base.Result.{ok}
use distributed_oj.Comm.Cookie.RoundTrip.{print_cookies, get_cookie_value-print_cookies}
use distributed_oj.Comm.Hex.{generate_session_id}
use distributed_oj.Comm.Hex.Shape.{generate_session_id-ne-semicolon}
use distributed_oj.Json.{string, bool}
use distributed_oj.Control.Users.{login_user}
use distributed_oj.Server.{
  Request, Response, json, Site, World, Sessions, find, assign, erase, session_of, user_of_session,
  success, param_or,
}
use distributed_oj.Server.Accounts.{post_login, get_check_login, post_logout}

pub find-assign :
    (s k u : Text) (m : Sessions)
    → find s (assign k u m) ≡ (if text_eq k s then some u else find s m)
unfolding find assign
find-assign s k u [] = refl
find-assign s k u ((j, v) ∷ m) =
    ground (arith, text_eq_iff k s, text_eq_iff j k, text_eq_iff j s, find-assign s k u m)

-- Every id has one entry, as in a std::map.
abbrev pub IsMap : Sessions → Type 0
IsMap [] = Unit
IsMap ((k, u) ∷ m) = (find k m ≡ none) × IsMap m

pub find-erase :
    (s k : Text) (m : Sessions)
    → IsMap m
    → find s (erase k m) ≡ (if text_eq k s then none else find s m)
unfolding find erase
find-erase s k [] h = ground arith
find-erase s k ((j, v) ∷ m) (new, h) =
    ground (arith, text_eq_iff k s, text_eq_iff j k, text_eq_iff j s, find-erase s k m h)

assign-IsMap : (k u : Text) (m : Sessions) → IsMap m → IsMap (assign k u m)
unfolding assign
assign-IsMap k u [] h = (unfold find in refl, tt)
assign-IsMap k u ((j, v) ∷ m) (new, h) =
    ground (arith, text_eq_iff j k, text_eq_iff k j, find-assign j k u m, assign-IsMap k u m h)

erase-IsMap : (k : Text) (m : Sessions) → IsMap m → IsMap (erase k m)
unfolding erase
erase-IsMap k [] h = tt
erase-IsMap k ((j, v) ∷ m) (new, h) =
    ground (arith, text_eq_iff k j, find-erase j k m h, erase-IsMap k m h)

-- The form's text of that name
abbrev pub given : Request → Text → Text
given req key = param_or req key (req.file key)

-- The name and password of the form are right.
abbrev pub logs_in : World → Request → Site → Bool
logs_in w req site =
    (login_user w.env w.md5 (given req (text "username")) (given req (text "password")) site.db).1

pub post_login-IsMap :
    (w : World) (draws : List ℕ) (req : Request) (site : Site)
    → IsMap site.sessions
    → IsMap (post_login w draws req site).0.sessions
unfolding post_login
post_login-IsMap w draws req site h = elim (Bool-cases (logs_in w req site)) [
  | inl right ↦
      rw right
        (assign-IsMap (generate_session_id draws) (given req (text "username")) site.sessions h)
  | inr wrong ↦ rw wrong h
]

pub post_logout-IsMap :
    (req : Request) (site : Site) → IsMap site.sessions → IsMap (post_logout req site).0.sessions
unfolding post_logout
post_logout-IsMap req site h = elim (Option-cases (user_of_session req site)) [
  | inl missing ↦ rw (missing, post_logout) h
  | inr (u, found) ↦ rw (found, post_logout) (erase-IsMap (session_of req) site.sessions h)
]

-- Where every session id has one entry, it is still so after a login and after a logout.
pub sessions-IsMap :
    (w : World) (draws : List ℕ) (req : Request) (site : Site)
    → IsMap site.sessions
    → IsMap (post_login w draws req site).0.sessions × IsMap (post_logout req site).0.sessions
sessions-IsMap w draws req site h =
    (post_login-IsMap w draws req site h, post_logout-IsMap req site h)

-- The request that a browser makes with the cookie of `id` alone.
abbrev pub with_session : Text → Request → Request
with_session id req = record req { cookie = print_cookies ((text "session_id", id) ∷ []) }

session_of-with_session :
    (draws : List ℕ) (req : Request)
    → session_of (with_session (generate_session_id draws) req) ≡ generate_session_id draws
session_of-with_session draws req =
    get_cookie_value-print_cookies (text "session_id")
      ((text "session_id", generate_session_id draws) ∷ [])
      ((omega arith, omega arith, omega arith, generate_session_id-ne-semicolon draws), tt)

-- What /check_login answers to a request of that user
abbrev pub greeting : Text → Response
greeting username = json ((text "success", bool true) ∷ (text "username", string username) ∷ [])

get_check_login-known :
    (req : Request) (site : Site) (u : Text)
    → user_of_session req site ≡ some u
    → get_check_login req site ≡ (site, ok (greeting u))
unfolding get_check_login
get_check_login-known req site u found = rw (found, get_check_login) refl

get_check_login-unknown :
    (req : Request) (site : Site)
    → user_of_session req site ≡ none
    → get_check_login req site ≡ (site, ok (json (success false)))
unfolding get_check_login
get_check_login-unknown req site missing = rw (missing, get_check_login) refl

pub post_login-sessions :
    (w : World) (draws : List ℕ) (req : Request) (site : Site)
    → logs_in w req site ≡ true
    → (post_login w draws req site).0.sessions
      ≡ assign (generate_session_id draws) (given req (text "username")) site.sessions
unfolding post_login
post_login-sessions w draws req site right = rw right refl

find-assign_self : (k u : Text) (m : Sessions) → find k (assign k u m) ≡ some u
find-assign_self k u m = find-assign k k u m ∙ rw ((text_eq_iff k k).1 refl) refl

find-erase_self : (k : Text) (m : Sessions) → IsMap m → find k (erase k m) ≡ none
find-erase_self k m h = find-erase k k m h ∙ rw ((text_eq_iff k k).1 refl) refl

-- After a successful login, every request that carries the new session's id is recognised as one
-- of the user who has logged in.
pub get_check_login-post_login :
    (w : World) (draws : List ℕ) (req later : Request) (site : Site)
    → logs_in w req site ≡ true
    → let site' = (post_login w draws req site).0 in
      get_check_login (with_session (generate_session_id draws) later) site'
      ≡ (site', ok (greeting (given req (text "username"))))
get_check_login-post_login w draws req later site right =
    let id = generate_session_id draws in
    let u = given req (text "username") in
    get_check_login-known (with_session id later) (post_login w draws req site).0 u (
      rw (session_of-with_session draws later, post_login-sessions w draws req site right)
        (find-assign_self id u site.sessions))

post_logout-forgets :
    (req : Request) (site : Site)
    → IsMap site.sessions
    → user_of_session req (post_logout req site).0 ≡ none
unfolding post_logout
post_logout-forgets req site h = elim (Option-cases (user_of_session req site)) [
  | inl missing ↦ rw (missing, post_logout) missing
  | inr (u, found) ↦ rw (found, post_logout) (find-erase_self (session_of req) site.sessions h)
]

-- Where every session id has one entry, a request of the same cookie is recognised no more after a
-- logout.
pub get_check_login-post_logout :
    (req : Request) (site : Site)
    → IsMap site.sessions
    → let site' = (post_logout req site).0 in
      get_check_login req site' ≡ (site', ok (json (success false)))
get_check_login-post_logout req site h =
    get_check_login-unknown req (post_logout req site).0 (post_logout-forgets req site h)

text_eq_ne : (s t : Text) → s ≢ t → text_eq s t ≡ false
text_eq_ne s t h = ground (arith, text_eq_iff s t)

post_login_others :
    (w : World) (draws : List ℕ) (req other : Request) (site : Site)
    → generate_session_id draws ≢ session_of other
    → user_of_session other (post_login w draws req site).0 ≡ user_of_session other site
unfolding post_login
post_login_others w draws req other site h = elim (Bool-cases (logs_in w req site)) [
  | inl right ↦
      let id = generate_session_id draws in
      rw right (
        find-assign (session_of other) id (given req (text "username")) site.sessions
        ∙ rw (text_eq_ne id (session_of other) h) refl)
  | inr wrong ↦ rw wrong refl
]

post_logout_others :
    (req other : Request) (site : Site)
    → IsMap site.sessions
    → session_of req ≢ session_of other
    → user_of_session other (post_logout req site).0 ≡ user_of_session other site
unfolding post_logout
post_logout_others req other site m h = elim (Option-cases (user_of_session req site)) [
  | inl missing ↦ rw (missing, post_logout) refl
  | inr (u, found) ↦
      rw (found, post_logout)
        (find-erase (session_of other) (session_of req) site.sessions m
          ∙ rw (text_eq_ne (session_of req) (session_of other) h) refl)
]

-- Where every session id has one entry, a request is taken to come from the same user, or from
-- none, before and after a login that makes another session id, and before and after a logout by
-- a request of another session id.
pub sessions_others :
    (w : World) (draws : List ℕ) (req other : Request) (site : Site)
    → IsMap site.sessions
    → generate_session_id draws ≢ session_of other
    → session_of req ≢ session_of other
    → (user_of_session other (post_login w draws req site).0 ≡ user_of_session other site)
      × (user_of_session other (post_logout req site).0 ≡ user_of_session other site)
sessions_others w draws req other site m new_id other_id =
    (post_login_others w draws req other site new_id, post_logout_others req other site m other_id)
