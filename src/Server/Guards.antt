-- ===== src/Server/Guards.antt =====
-- oj_server/oj_server.cc: what the handlers do for a request whose session is not there, or not an
-- administrator's.
use distributed_oj.Base.{
  ℕ, ◌≡◌, refl, ◌⊎◌, inl, inr, true, false, List, [], ◌∷◌, ◌++◌, none, some, Text, text, Bool-cases,
}
use distributed_oj.Base.Result.{Result, ok, throws, undefined}
use distributed_oj.Comm.Int.{ℤ, stoi}
use distributed_oj.Model.{Db, Backend, Question}
use distributed_oj.Model.Users.{query_user_sql, query_user, query_mysql}
use distributed_oj.Model.{query_rows, update_mysql}
use distributed_oj.Model.Questions.{update_question, update_question_sql}
use distributed_oj.Control.Questions.{modify_question}
use distributed_oj.Control.Users.{is_admin, get_user_info}
use distributed_oj.Server.{Request, Site, World, Outcome, user_of_session, param_or}
use distributed_oj.Server.Accounts.{
  as_admin, then_or_leave, read_form, read_new_form, post_edit_user, delete_delete_user,
  post_add_user,
}
use distributed_oj.Server.Questions

-- The request has no session, or the session's user is no administrator according to the database.
abbrev pub IsDenied : World → Request → Site → Type 0
IsDenied w req site =
    (user_of_session req site ≡ none)
    ⊎ ((u : Text) × (user_of_session req site ≡ some u) × ((is_admin w.env u site.db).1 ≡ false))

-- Nothing is changed: at most the query of one user has been sent to the database.
pub record IsUntouched (site site' : Site) : Type 0 where
  pub sessions : site'.sessions ≡ site.sessions
  pub balance : site'.balance ≡ site.balance
  pub db : (site'.db ≡ site.db) ⊎ ((u : Text) × (site'.db ≡ site.db ++ (query_user_sql u ∷ [])))

same-IsUntouched : (site : Site) → IsUntouched site site
same-IsUntouched site = record { sessions = refl; balance = refl; db = inl refl }

query_rows-db :
    (env : Backend) (sql : Text) (db : Db)
    → ((query_rows env sql db).0 ≡ db) ⊎ ((query_rows env sql db).0 ≡ db ++ (sql ∷ []))
unfolding query_rows
query_rows-db env sql db = elim (Bool-cases (env.connects db)) [
  | inl up ↦ inr (rw up refl)
  | inr down ↦ inl (rw down refl)
]

is_admin-IsUntouched :
    (env : Backend) (u : Text) (site : Site)
    → IsUntouched site (record site { db = (is_admin env u site.db).0 })
unfolding is_admin get_user_info query_user query_mysql
is_admin-IsUntouched env u site = elim (query_rows-db env (query_user_sql u) site.db) [
  | inl e ↦ record { sessions = refl; balance = refl; db = inl e }
  | inr e ↦ record { sessions = refl; balance = refl; db = inr (u, e) }
]

as_admin-IsUntouched :
    (w : World) (req : Request) (site : Site) (action : Site → Outcome)
    → IsDenied w req site
    → IsUntouched site (as_admin w req site action).0
unfolding as_admin
as_admin-IsUntouched w req site action (inl missing) =
    rw (missing, as_admin) (same-IsUntouched site)
as_admin-IsUntouched w req site action (inr (u, found, weak)) =
    rw (found, as_admin) (rw weak (is_admin-IsUntouched w.env u site))

then_or_leave-IsUntouched {ℓ} :
    {A : Type ℓ} (site : Site) (r : Result A) (f : A → Outcome)
    → ((a : A) → IsUntouched site (f a).0)
    → IsUntouched site (then_or_leave site r f).0
unfolding then_or_leave
then_or_leave-IsUntouched site (ok a) f h = h a
then_or_leave-IsUntouched site (throws what) f h = same-IsUntouched site
then_or_leave-IsUntouched site undefined f h = same-IsUntouched site

post_edit_user-IsUntouched :
    (w : World) (random : List ℕ) (req : Request) (site : Site)
    → IsDenied w req site
    → IsUntouched site (post_edit_user w random req site).0
unfolding post_edit_user
post_edit_user-IsUntouched w random req site d = elim (Bool-cases (w.json_cpp.parse req.body).0) [
  | inl good ↦ rw good (
      then_or_leave-IsUntouched site (read_form w.json_cpp (w.json_cpp.parse req.body).1) _
        (λ form. as_admin-IsUntouched w req site _ d))
  | inr bad ↦ rw bad (same-IsUntouched site)
]

post_add_user-IsUntouched :
    (w : World) (random : List ℕ) (req : Request) (site : Site)
    → IsDenied w req site
    → IsUntouched site (post_add_user w random req site).0
unfolding post_add_user
post_add_user-IsUntouched w random req site d = elim (Bool-cases (w.json_cpp.parse req.body).0) [
  | inl good ↦ rw good (
      then_or_leave-IsUntouched site (read_new_form w.json_cpp (w.json_cpp.parse req.body).1) _
        (λ form. as_admin-IsUntouched w req site _ d))
  | inr bad ↦ rw bad (same-IsUntouched site)
]

delete_delete_user-IsUntouched :
    (w : World) (req : Request) (site : Site)
    → IsDenied w req site
    → IsUntouched site (delete_delete_user w req site).0
unfolding delete_delete_user
delete_delete_user-IsUntouched w req site d = as_admin-IsUntouched w req site _ d

delete_delete_question-IsUntouched :
    (w : World) (req : Request) (site : Site)
    → IsDenied w req site
    → IsUntouched site (Questions.delete_delete_question w req site).0
unfolding Questions.delete_delete_question is_admin
delete_delete_question-IsUntouched w req site (inl missing) =
    rw (missing, Questions.delete_delete_question) (same-IsUntouched site)
delete_delete_question-IsUntouched w req site (inr (u, found, weak)) =
    rw (found, Questions.delete_delete_question) (rw weak (is_admin-IsUntouched w.env u site))

-- A request without a session, or whose user is no administrator, neither edits, adds or deletes a
-- user nor deletes a question: sessions and machines stay, and the database sees at most the query
-- of one user.
pub admins_only :
    (w : World) (random : List ℕ) (req : Request) (site : Site)
    → IsDenied w req site
    → IsUntouched site (post_edit_user w random req site).0
      × IsUntouched site (post_add_user w random req site).0
      × IsUntouched site (delete_delete_user w req site).0
      × IsUntouched site (Questions.delete_delete_question w req site).0
admins_only w random req site d = (
  post_edit_user-IsUntouched w random req site d,
  post_add_user-IsUntouched w random req site d,
  delete_delete_user-IsUntouched w req site d,
  delete_delete_question-IsUntouched w req site d,
)

-- The question that the form of /updateQuestion spells, with its limits converted
abbrev pub form_question : Request → ℤ → ℤ → Question
form_question req cpu_limit mem_limit = record {
  number = param_or req (text "number") [];
  title = param_or req (text "title") [];
  star = param_or req (text "star") [];
  cpu_limit = cpu_limit;
  mem_limit = mem_limit;
  desc = param_or req (text "desc") [];
  header = param_or req (text "header") [];
  tail = param_or req (text "tail") [];
}

-- /updateQuestion asks for no session: whoever sends a form whose limits are numbers has its
-- question written to the database, if the database can be reached.
pub post_update_question-open :
    (w : World) (req : Request) (site : Site) (cpu_limit mem_limit : ℤ)
    → user_of_session req site ≡ none
    → stoi (param_or req (text "cpu_limit") []) ≡ ok cpu_limit
    → stoi (param_or req (text "mem_limit") []) ≡ ok mem_limit
    → w.env.connects site.db ≡ true
    → (Questions.post_update_question w req site).0.db
      ≡ site.db ++ (update_question_sql (form_question req cpu_limit mem_limit) ∷ [])
unfolding Questions.post_update_question Questions.read_limits modify_question update_question
    update_mysql
post_update_question-open w req site cpu_limit mem_limit missing c m up = rw (c, m, up) refl
