-- ===== src/Server/Requests/History.antt =====
-- oj_server/oj_server.cc: which user a session id stands for after any requests.
use distributed_oj.Base.{
  subst, ℕ, ◌≡◌, refl, sym, ◌∙◌, ap, List, [], ◌∷◌, Option, none, some, Text, text, text_eq,
  text_eq_iff, if◌then◌else◌, inl, inr, Bool-cases, Option-cases,
}
use distributed_oj.Comm.Hex.{generate_session_id}
use distributed_oj.Base.Result.{ok, throws, undefined}
use distributed_oj.Server.{Request, Site, World, Outcome, find, session_of, user_of_session}
use distributed_oj.Server.Accounts.{post_login, post_logout, get_all_users, get_user}
use distributed_oj.Server.Questions
use distributed_oj.Server.Sessions.{
  IsMap, given, logs_in, find-assign, find-erase, post_login-IsMap, post_logout-IsMap,
}
use distributed_oj.Server.Requests.{
  Call, edit_user, delete_user, add_user, user_info, register, login, check_login, logout,
  update_question, add_question, delete_question, set_completed, user_progress, all_users,
  all_questions, user, question, judge, site_of, handle, left_by, serve, serve_all,
}
use distributed_oj.Server.Requests.Keeping.{
  post_edit_user-KeepsSessions, post_add_user-KeepsSessions, delete_delete_user-KeepsSessions,
  get_get_user_info-KeepsSessions, post_register-KeepsSessions, get_check_login-KeepsSessions,
}
use distributed_oj.Server.Requests.KeepingTasks.{
  post_update_question-KeepsSessions, post_add_question-KeepsSessions,
  delete_delete_question-KeepsSessions, post_set_completed-KeepsSessions,
  get_get_user_progress-KeepsSessions, post_judge-sessions,
}

-- What the session ids stand for, each of them a user or none
abbrev pub View : Type 0
View = Text → Option Text

-- A login that succeeds makes its new id stand for the user; a logout makes the id of its request
-- stand for none. No other request has a meaning here.
abbrev pub meaning : World → Call → Request → Site → View → View
meaning w (login draws) req site view =
    if logs_in w req site
    then (λ id.
        if text_eq (generate_session_id draws) id
        then some (given req (text "username"))
        else view id)
    else view
meaning w logout req site view = λ id. if text_eq (session_of req) id then none else view id
meaning w _ req site view = view

abbrev pub meaning_all : World → List (Call × Request) → Site → View → View
meaning_all w [] site view = view
meaning_all w ((call, req) ∷ calls) site view = elim (serve w call req site) [
  | none ↦ meaning w call req site view
  | some site' ↦ meaning_all w calls site' (meaning w call req site view)
]

-- The map of the source, seen as such
abbrev pub Shows : Site → View → Type 0
Shows site view = (id : Text) → find id site.sessions ≡ view id

post_login-Shows :
    (w : World) (draws : List ℕ) (req : Request) (site : Site) (view : View)
    → Shows site view
    → Shows (post_login w draws req site).0 (meaning w (login draws) req site view)
unfolding post_login
post_login-Shows w draws req site view h id = elim (Bool-cases (logs_in w req site)) [
  | inl right ↦ rw right (
      find-assign id (generate_session_id draws) (given req (text "username")) site.sessions
      ∙ rw (h id) refl)
  | inr wrong ↦ rw wrong (h id)
]

post_logout-Shows :
    (w : World) (req : Request) (site : Site) (view : View)
    → IsMap site.sessions
    → Shows site view
    → Shows (post_logout req site).0 (meaning w logout req site view)
unfolding post_logout
post_logout-Shows w req site view m h id = elim (Option-cases (user_of_session req site)) [
  | inl missing ↦ rw (missing, post_logout) (h id ∙ unchanged missing)
  | inr (u, found) ↦
      rw (found, post_logout) (find-erase id (session_of req) site.sessions m ∙ rw (h id) refl)
]
  where
    unchanged :
        user_of_session req site ≡ none
        → view id ≡ (if text_eq (session_of req) id then none else view id)
    unchanged missing = elim (Bool-cases (text_eq (session_of req) id)) [
      | inl same ↦ rw same (sym (h id) ∙ rw (← (text_eq_iff (session_of req) id).0 same) missing)
      | inr other ↦ rw other refl
    ]

same-Shows :
    (site site' : Site) (view : View)
    → site'.sessions ≡ site.sessions
    → Shows site view
    → Shows site' view
same-Shows site site' view e h id = ap (find id) e ∙ h id

-- The site that a handler has left, or not yet
abbrev after : World → Call → Request → Site → Site
after w call req site = site_of site (handle w call req site)

-- A request keeps a map a map, and does to it what it means.
record IsMeant (w : World) (call : Call) (req : Request) (site : Site) (view : View) : Type 0 where
  map : IsMap (after w call req site).sessions
  shows : Shows (after w call req site) (meaning w call req site view)

kept-IsMeant :
    (w : World) (call : Call) (req : Request) (site : Site) (view : View)
    → meaning w call req site view ≡ view
    → (after w call req site).sessions ≡ site.sessions
    → IsMap site.sessions
    → Shows site view
    → IsMeant w call req site view
kept-IsMeant w call req site view same e m h = record {
  map = subst IsMap (sym e) m;
  shows =
      subst (Shows (after w call req site)) (sym same)
        (same-Shows site (after w call req site) view e h);
}

handle-IsMeant :
    (w : World) (call : Call) (req : Request) (site : Site) (view : View)
    → IsMap site.sessions
    → Shows site view
    → IsMeant w call req site view
unfolding handle get_all_users get_user Questions.get_all_questions Questions.get_question
handle-IsMeant w (edit_user random) req site view =
    kept-IsMeant w _ req site view refl (post_edit_user-KeepsSessions w random req site)
handle-IsMeant w delete_user req site view =
    kept-IsMeant w _ req site view refl (delete_delete_user-KeepsSessions w req site)
handle-IsMeant w (add_user random) req site view =
    kept-IsMeant w _ req site view refl (post_add_user-KeepsSessions w random req site)
handle-IsMeant w user_info req site view =
    kept-IsMeant w _ req site view refl (get_get_user_info-KeepsSessions w req site)
handle-IsMeant w (register random) req site view =
    kept-IsMeant w _ req site view refl (post_register-KeepsSessions w random req site)
handle-IsMeant w (login draws) req site view = λ m h. record {
  map = post_login-IsMap w draws req site m;
  shows = post_login-Shows w draws req site view h;
}
handle-IsMeant w check_login req site view =
    kept-IsMeant w _ req site view refl (get_check_login-KeepsSessions req site)
handle-IsMeant w logout req site view = λ m h. record {
  map = post_logout-IsMap req site m;
  shows = post_logout-Shows w req site view m h;
}
handle-IsMeant w update_question req site view =
    kept-IsMeant w _ req site view refl (post_update_question-KeepsSessions w req site)
handle-IsMeant w add_question req site view =
    kept-IsMeant w _ req site view refl (post_add_question-KeepsSessions w req site)
handle-IsMeant w delete_question req site view =
    kept-IsMeant w _ req site view refl (delete_delete_question-KeepsSessions w req site)
handle-IsMeant w (set_completed now) req site view =
    kept-IsMeant w _ req site view refl (post_set_completed-KeepsSessions w now req site)
handle-IsMeant w user_progress req site view =
    kept-IsMeant w _ req site view refl (get_get_user_progress-KeepsSessions w req site)
handle-IsMeant w all_users req site view = kept-IsMeant w _ req site view refl refl
handle-IsMeant w all_questions req site view = kept-IsMeant w _ req site view refl refl
handle-IsMeant w user req site view = kept-IsMeant w _ req site view refl refl
handle-IsMeant w question req site view = kept-IsMeant w _ req site view refl refl
handle-IsMeant w (judge net fuel) req site view =
    kept-IsMeant w _ req site view refl (post_judge-sessions w net fuel req site)

left_by-site_of :
    (o : Option Outcome) (site site' : Site) → left_by o ≡ some site' → site_of site o ≡ site'
left_by-site_of none site site' e = cc
left_by-site_of (some (site1, ok response)) site site' e = cc
left_by-site_of (some (site1, throws what)) site site' e = cc
left_by-site_of (some (site1, undefined)) site site' e = cc

serve-IsMeant :
    (w : World) (call : Call) (req : Request) (site site' : Site) (view : View)
    → serve w call req site ≡ some site'
    → IsMap site.sessions
    → Shows site view
    → IsMap site'.sessions × Shows site' (meaning w call req site view)
unfolding serve
serve-IsMeant w call req site site' view e m h =
    let k = handle-IsMeant w call req site view m h in
    subst (λ (s : Site). IsMap s.sessions × Shows s (meaning w call req site view))
      (left_by-site_of (handle w call req site) site site' e) (k.map, k.shows)

serve_all-Shows :
    (w : World) (calls : List (Call × Request)) (site site' : Site) (view : View)
    → serve_all w calls site ≡ some site'
    → IsMap site.sessions
    → Shows site view
    → Shows site' (meaning_all w calls site view)
unfolding serve_all
serve_all-Shows w [] site site' view e m h =
    let same : site ≡ site' = cc in subst (λ s. Shows s view) same h
serve_all-Shows w ((call, req) ∷ calls) site site' view e m h =
    elim (Option-cases (serve w call req site)) [
      | inl stuck ↦ let no : none ≡ some site' = rw (stuck, serve_all) at e in cc
      | inr (site1, served) ↦
          let (map1, shows1) = serve-IsMeant w call req site site1 view served m h in
          rw (served, meaning_all)
            (serve_all-Shows w calls site1 site' (meaning w call req site view)
              (rw (served, serve_all) at e) map1 shows1)
    ]

-- Where every session id has one entry: after any sequence of requests to the handlers, each of
-- which has come to an end that is not undefined behaviour, a session id stands for the user of the
-- last successful login that made this id, unless a logout by this id has followed it; without
-- either it stands for what it stood for before.
pub find-serve_all :
    (w : World) (calls : List (Call × Request)) (site site' : Site) (id : Text)
    → IsMap site.sessions
    → serve_all w calls site ≡ some site'
    → find id site'.sessions ≡ meaning_all w calls site (λ k. find k site.sessions) id
find-serve_all w calls site site' id m e =
    serve_all-Shows w calls site site' (λ k. find k site.sessions) e m (λ k. refl) id
