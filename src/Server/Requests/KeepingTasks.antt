-- ===== src/Server/Requests/KeepingTasks.antt =====
-- oj_server/oj_server.cc: the handlers on questions, progress and judging, and the sessions.
use distributed_oj.Base.{
  ℕ, ◌≡◌, refl, inl, inr, [], Option, none, some, Text, text, Bool-cases, Option-cases, not, ◌&&◌,
}
use distributed_oj.Base.Result.{Result, ok, throws, undefined, ◌>>=◌}
use distributed_oj.Comm.Int.{ℤ, is_zero}
use distributed_oj.Comm.Numbers.{is_valid_number}
use distributed_oj.Model.{Db, UserProgress, no_user}
use distributed_oj.Balance.{LoadBalance}
use distributed_oj.Balance.Judge.{Round}
use distributed_oj.Control.Users.{get_user_info}
use distributed_oj.Server.{Request, Response, Site, World, user_of_session, param_or}
use distributed_oj.Server.Questions
use distributed_oj.Server.Submissions.{
  new_progress, or_empty, finish_judge, then_judge, post_set_completed, get_get_user_progress,
  post_judge,
}
use distributed_oj.Server.Requests.{site_of}
use distributed_oj.Server.Requests.Keeping.{KeepsSessions}
use distributed_oj.Json.{Object}

or_error-KeepsSessions {ℓ} :
    {A : Type ℓ} (site : Site) (r : Result A) (f : A → Db) (g : A → Object)
    → KeepsSessions site (Questions.or_error site (r >>= λ a. ok (record site { db = f a }, g a)))
or_error-KeepsSessions site (ok a) f g = refl
or_error-KeepsSessions site (throws what) f g = refl
or_error-KeepsSessions site undefined f g = refl

pub post_update_question-KeepsSessions :
    (w : World) (req : Request) (site : Site)
    → KeepsSessions site (Questions.post_update_question w req site)
unfolding Questions.post_update_question
post_update_question-KeepsSessions w req site =
    or_error-KeepsSessions site
      (Questions.read_limits (param_or req (text "cpu_limit") [])
        (param_or req (text "mem_limit") []))
      _ _

add_from_form-KeepsSessions :
    (w : World) (form : Questions.Form) (site : Site)
    → KeepsSessions site (Questions.add_from_form w form site)
unfolding Questions.add_from_form
add_from_form-KeepsSessions w form site =
    elim (Bool-cases (is_valid_number form.time_limit && is_valid_number form.mem_limit)) [
      | inl valid ↦
          rw valid
            (or_error-KeepsSessions site (Questions.read_limits form.time_limit form.mem_limit) _ _)
      | inr not_valid ↦ rw not_valid refl
    ]

add_read_form-KeepsSessions :
    (w : World) (site : Site) (r : Result Questions.Form)
    → KeepsSessions site (elim r [
      | ok form ↦ Questions.add_from_form w form site
      | throws what ↦ (site, throws what)
      | undefined ↦ (site, undefined)
    ])
add_read_form-KeepsSessions w site (ok form) = add_from_form-KeepsSessions w form site
add_read_form-KeepsSessions w site (throws what) = refl
add_read_form-KeepsSessions w site undefined = refl

pub post_add_question-KeepsSessions :
    (w : World) (req : Request) (site : Site)
    → KeepsSessions site (Questions.post_add_question w req site)
unfolding Questions.post_add_question
post_add_question-KeepsSessions w req site = elim (Option-cases (user_of_session req site)) [
  | inl missing ↦ rw (missing, Questions.post_add_question) refl
  | inr (u, found) ↦ elim (Bool-cases (w.json_cpp.parse req.body).0) [
    | inl good ↦
        rw (found, Questions.post_add_question)
          (rw good (
            add_read_form-KeepsSessions w site
              (Questions.read_form w.json_cpp (w.json_cpp.parse req.body).1)))
    | inr bad ↦ rw (found, Questions.post_add_question) (rw bad refl)
  ]
]

pub delete_delete_question-KeepsSessions :
    (w : World) (req : Request) (site : Site)
    → KeepsSessions site (Questions.delete_delete_question w req site)
unfolding Questions.delete_delete_question
delete_delete_question-KeepsSessions w req site = elim (Option-cases (user_of_session req site)) [
  | inl missing ↦ rw (missing, Questions.delete_delete_question) refl
  | inr (u, found) ↦
      let r = get_user_info w.env u no_user site.db in
      elim (Bool-cases (r.2 && not (is_zero r.1.is_admin))) [
        | inl admin ↦ rw (found, Questions.delete_delete_question) (rw admin refl)
        | inr no_admin ↦ rw (found, Questions.delete_delete_question) (rw no_admin refl)
      ]
]

pub post_set_completed-KeepsSessions :
    (w : World) (now : ℤ) (req : Request) (site : Site)
    → KeepsSessions site (post_set_completed w now req site)
unfolding post_set_completed
post_set_completed-KeepsSessions w now req site = elim (Option-cases (user_of_session req site)) [
  | inl missing ↦ rw (missing, post_set_completed) refl
  | inr (u, found) ↦ rw (found, post_set_completed) refl
]

read_progress-KeepsSessions :
    (site : Site) (db1 : Db) (r : Result UserProgress) (f : UserProgress → Db)
    (g : UserProgress → Response)
    → KeepsSessions site (elim r [
      | ok up ↦ (record site { db = f up }, ok (g up))
      | throws what ↦ (record site { db = db1 }, throws what)
      | undefined ↦ (record site { db = db1 }, undefined)
    ])
read_progress-KeepsSessions site db1 (ok up) f g = refl
read_progress-KeepsSessions site db1 (throws what) f g = refl
read_progress-KeepsSessions site db1 undefined f g = refl

pub get_get_user_progress-KeepsSessions :
    (w : World) (req : Request) (site : Site)
    → KeepsSessions site (get_get_user_progress w req site)
unfolding get_get_user_progress
get_get_user_progress-KeepsSessions w req site =
    let username = or_empty (user_of_session req site) in
    let info = get_user_info w.env username no_user site.db in
    elim (Bool-cases info.2) [
      | inl known ↦
          rw known
            (read_progress-KeepsSessions site info.0 (new_progress info.1.id req.captured) _ _)
      | inr unknown ↦ rw unknown refl
    ]

finish_judge-sessions :
    (site : Site) (r : Result (Option (LoadBalance × Option Text))) (before : Site)
    → site.sessions ≡ before.sessions
    → (site_of before (finish_judge site r)).sessions ≡ before.sessions
finish_judge-sessions site (ok none) before h = refl
finish_judge-sessions site (ok (some (lb, out))) before h = h
finish_judge-sessions site (throws what) before h = h
finish_judge-sessions site undefined before h = h

then_judge-sessions :
    (w : World) (net : ℕ → Round) (fuel : ℕ) (req : Request) (site before : Site)
    (r : Result (Unit {0}))
    → site.sessions ≡ before.sessions
    → (site_of before (then_judge w net fuel req site r)).sessions ≡ before.sessions
then_judge-sessions w net fuel req site before (ok done) h = finish_judge-sessions _ _ before h
then_judge-sessions w net fuel req site before (throws what) h = h
then_judge-sessions w net fuel req site before undefined h = h

pub post_judge-sessions :
    (w : World) (net : ℕ → Round) (fuel : ℕ) (req : Request) (site : Site)
    → (site_of site (post_judge w net fuel req site)).sessions ≡ site.sessions
unfolding post_judge
post_judge-sessions w net fuel req site = elim (Option-cases (user_of_session req site)) [
  | inl missing ↦ rw (missing, post_judge) refl
  | inr (u, found) ↦ rw (found, post_judge) (then_judge-sessions w net fuel req _ site _ refl)
]
