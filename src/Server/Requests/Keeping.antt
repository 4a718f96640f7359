-- ===== src/Server/Requests/Keeping.antt =====
-- oj_server/oj_server.cc: the handlers that neither log in nor out, and the sessions.
use distributed_oj.Base.{ℕ, ◌≡◌, refl, inl, inr, List, Bool-cases, Option-cases}
use distributed_oj.Base.Result.{Result, ok, throws, undefined}
use distributed_oj.Model.{Db}
use distributed_oj.Control.Users.{is_admin}
use distributed_oj.Server.{Request, Site, World, Outcome, user_of_session}
use distributed_oj.Server.Accounts.{
  then_or_leave, as_admin, read_form, read_new_form, post_edit_user, delete_delete_user,
  post_add_user, get_get_user_info, post_register, get_check_login,
}

-- The outcome has the sessions of `site`.
abbrev pub KeepsSessions : Site → Outcome → Type 0
KeepsSessions site o = o.0.sessions ≡ site.sessions

then_or_leave-KeepsSessions {ℓ} :
    {A : Type ℓ} (site : Site) (r : Result A) (f : A → Outcome)
    → ((a : A) → KeepsSessions site (f a))
    → KeepsSessions site (then_or_leave site r f)
unfolding then_or_leave
then_or_leave-KeepsSessions site (ok a) f h = h a
then_or_leave-KeepsSessions site (throws what) f h = refl
then_or_leave-KeepsSessions site undefined f h = refl

as_admin-KeepsSessions :
    (w : World) (req : Request) (site : Site) (action : Site → Outcome)
    → ((db : Db) → KeepsSessions site (action (record site { db = db })))
    → KeepsSessions site (as_admin w req site action)
unfolding as_admin
as_admin-KeepsSessions w req site action h = elim (Option-cases (user_of_session req site)) [
  | inl missing ↦ rw (missing, as_admin) refl
  | inr (u, found) ↦ elim (Bool-cases (is_admin w.env u site.db).1) [
    | inl admin ↦ rw (found, as_admin) (rw admin (h (is_admin w.env u site.db).0))
    | inr no_admin ↦ rw (found, as_admin) (rw no_admin refl)
  ]
]

pub post_edit_user-KeepsSessions :
    (w : World) (random : List ℕ) (req : Request) (site : Site)
    → KeepsSessions site (post_edit_user w random req site)
unfolding post_edit_user
post_edit_user-KeepsSessions w random req site = elim (Bool-cases (w.json_cpp.parse req.body).0) [
  | inl good ↦ rw good (
      then_or_leave-KeepsSessions site (read_form w.json_cpp (w.json_cpp.parse req.body).1) _
        (λ form. as_admin-KeepsSessions w req site _ (λ db. refl)))
  | inr bad ↦ rw bad refl
]

pub post_add_user-KeepsSessions :
    (w : World) (random : List ℕ) (req : Request) (site : Site)
    → KeepsSessions site (post_add_user w random req site)
unfolding post_add_user
post_add_user-KeepsSessions w random req site = elim (Bool-cases (w.json_cpp.parse req.body).0) [
  | inl good ↦ rw good (
      then_or_leave-KeepsSessions site (read_new_form w.json_cpp (w.json_cpp.parse req.body).1) _
        (λ form. as_admin-KeepsSessions w req site _ (λ db. refl)))
  | inr bad ↦ rw bad refl
]

pub delete_delete_user-KeepsSessions :
    (w : World) (req : Request) (site : Site) → KeepsSessions site (delete_delete_user w req site)
unfolding delete_delete_user
delete_delete_user-KeepsSessions w req site = as_admin-KeepsSessions w req site _ (λ db. refl)

pub get_get_user_info-KeepsSessions :
    (w : World) (req : Request) (site : Site) → KeepsSessions site (get_get_user_info w req site)
unfolding get_get_user_info
get_get_user_info-KeepsSessions w req site = elim (Option-cases (user_of_session req site)) [
  | inl missing ↦ rw (missing, get_get_user_info) refl
  | inr (u, found) ↦ rw (found, get_get_user_info) refl
]

pub post_register-KeepsSessions :
    (w : World) (random : List ℕ) (req : Request) (site : Site)
    → KeepsSessions site (post_register w random req site)
unfolding post_register
post_register-KeepsSessions w random req site = refl

pub get_check_login-KeepsSessions :
    (req : Request) (site : Site) → KeepsSessions site (get_check_login req site)
unfolding get_check_login
get_check_login-KeepsSessions req site = elim (Option-cases (user_of_session req site)) [
  | inl missing ↦ rw (missing, get_check_login) refl
  | inr (u, found) ↦ rw (found, get_check_login) refl
]
