-- ===== src/Model/Connection/Protocol.antt =====
-- oj_server/oj_model2.hpp: whether the models use the MySQL client library as its manual asks for.
use mathlib.Core.Option
use distributed_oj.Base.{
  ℕ, zero, suc, ◌≡◌, ◌↔◌, ◌⊎◌, refl, ◌∙◌, Bool, true, false, not, inl, inr, List, [], ◌∷◌, ◌++◌,
  Option, none, some, Text, All, length, if◌then◌else◌, Bool-cases, Option-cases,
}
use distributed_oj.Model.{
  Db, Backend, Answer, failed, no_result, rows, is_failed, rows_of, update_mysql, query_rows,
}
use distributed_oj.Model.Connection.{
  ClientCall, init, options, real_connect, set_character_set, error, close, query, store_result,
  num_rows, fetch_row, free_result, Driver, connection, try_with, update_body, query_body, fetches,
  at_most_one, Task, updating, querying_one, querying_all, task_body, perform, perform_all,
}

-- What the program holds of the library: nothing, a handle, or a handle and a result of it.
pub data Held : Type 0 where
  nothing : Held
  handle : Held
  result : Held

-- What is held behind a call; `none` for a call that the manual forbids, since it uses what is not
-- held any more, or that loses what is held.
abbrev pub behind : Held → ClientCall → Option Held
behind nothing (init true) = some handle
behind nothing (init false) = some nothing
behind nothing _ = none
behind handle options = some handle
behind handle (real_connect ok) = some handle
behind handle set_character_set = some handle
behind handle error = some handle
behind handle close = some nothing
behind handle (query sql ok) = some handle
behind handle (store_result true) = some result
behind handle (store_result false) = some handle
behind handle _ = none
behind result (num_rows n) = some result
behind result fetch_row = some result
behind result free_result = some handle
behind result _ = none

abbrev pub then_behind : (Held → Option Held) → Option Held → Option Held
then_behind f none = none
then_behind f (some h) = f h

unfoldable pub behind_all : Held → List ClientCall → Option Held
behind_all h [] = some h
behind_all h (c ∷ calls) = then_behind (λ h'. behind_all h' calls) (behind h c)

-- Every call is allowed, and nothing is held at the end.
abbrev pub IsProper : List ClientCall → Type 0
IsProper calls = behind_all nothing calls ≡ some nothing

behind_all-append :
    (h : Held) (xs ys : List ClientCall)
    → behind_all h (xs ++ ys) ≡ then_behind (λ h'. behind_all h' ys) (behind_all h xs)
unfolding behind_all
behind_all-append h [] ys = refl
behind_all-append h (c ∷ xs) ys = elim (Option-cases (behind h c)) [
  | inl forbidden ↦ rw forbidden refl
  | inr (h', e) ↦ rw e (behind_all-append h' xs ys)
]

behind_all-fetches : (n : ℕ) → behind_all result (fetches n ++ (free_result ∷ [])) ≡ some handle
unfolding behind_all
behind_all-fetches zero = refl
behind_all-fetches (suc n) = behind_all-fetches n

-- A body neither closes the handle nor keeps a result.
behind_all-query_body :
    (fetched : ℕ → ℕ) (sql : Text) (ok : Bool) (stored : Option ℕ)
    → behind_all handle (query_body fetched sql ok stored).0 ≡ some handle
unfolding behind_all query_body
behind_all-query_body fetched sql false stored = refl
behind_all-query_body fetched sql true none = refl
behind_all-query_body fetched sql true (some n) = behind_all-fetches (fetched n)

behind_all-update_body :
    (sql : Text) (ok : Bool) → behind_all handle (update_body sql ok).0 ≡ some handle
unfolding behind_all update_body
behind_all-update_body sql true = refl
behind_all-update_body sql false = refl

behind_all-task_body :
    (task : Task) (sql : Text) (d : Driver)
    → behind_all handle (task_body task sql d).0 ≡ some handle
behind_all-task_body updating sql d = behind_all-update_body sql d.succeeds
behind_all-task_body querying_one sql d = behind_all-query_body at_most_one sql d.succeeds d.stored
behind_all-task_body querying_all sql d = behind_all-query_body (λ n. n) sql d.succeeds d.stored

try_with-IsProper :
    (inits connects : Bool) (body : List ClientCall × Bool)
    → behind_all handle body.0 ≡ some handle
    → IsProper (try_with (connection inits connects) body).0 ↔ ((inits ≡ false) ⊎ (connects ≡ true))
unfolding connection behind_all
try_with-IsProper false connects body h = (λ p. inl refl, λ r. refl)
try_with-IsProper true false body h = (λ p. cc, λ r. elim r [ inl e ↦ cc | inr e ↦ cc ])
try_with-IsProper true true body h =
    (λ p. inr refl, λ r. behind_all-append handle body.0 (close ∷ []) ∙ rw h refl)

-- A query or an update of the database closes the connection that it has opened, frees the result
-- that it has stored and uses neither afterwards, on all its paths but one, and there it does not:
-- where a handle is there and no connection can be made with it, the error is read of the handle
-- that has just been closed.
pub perform-IsProper :
    (task : Task) (sql : Text) (d : Driver)
    → IsProper (perform task sql d).0 ↔ ((d.inits ≡ false) ⊎ (d.connects ≡ true))
unfolding perform
perform-IsProper task sql d =
    try_with-IsProper d.inits d.connects (task_body task sql d) (behind_all-task_body task sql d)

-- So a process that runs any statements while the server can be reached, or no handle is there,
-- holds nothing of the library in the end.
pub perform_all-IsProper :
    (tasks : List (Task × Text × Driver))
    → All (λ t. (t.2.inits ≡ false) ⊎ (t.2.connects ≡ true)) tasks
    → IsProper (perform_all tasks)
unfolding perform_all behind_all
perform_all-IsProper [] h = refl
perform_all-IsProper ((task, sql, d) ∷ rest) (reached, h) =
    behind_all-append nothing (perform task sql d).0 (perform_all rest)
    ∙ rw ((perform-IsProper task sql d).1 reached) (perform_all-IsProper rest h)

-- The library and the server, as a database that is reached or not answers a statement
abbrev pub driver_of : Backend → Db → Text → Driver
driver_of env db sql = record {
  inits = true;
  connects = env.connects db;
  succeeds = not (is_failed (env.answers db sql));
  stored = Option.map length (rows_of (env.answers db sql));
}

abbrev is_some {ℓ} : {A : Type ℓ} → Option A → Bool
is_some none = false
is_some (some a) = true

update_body-flag : (sql : Text) (ok : Bool) → (update_body sql ok).1 ≡ ok
unfolding update_body
update_body-flag sql true = refl
update_body-flag sql false = refl

query_body-flag :
    (fetched : ℕ → ℕ) (sql : Text) (answer : Answer)
    → (query_body fetched sql (not (is_failed answer)) (Option.map length (rows_of answer))).1
      ≡ is_some (rows_of answer)
unfolding query_body
query_body-flag fetched sql failed = refl
query_body-flag fetched sql no_result = refl
query_body-flag fetched sql (rows rs) = refl

not_if : (b : Bool) → not b ≡ (if b then false else true)
not_if true = refl
not_if false = refl

-- What the functions of the models return, the calls return as well.
pub perform-flag :
    (env : Backend) (db : Db) (sql : Text)
    → ((perform updating sql (driver_of env db sql)).1 ≡ (update_mysql env sql db).1)
      × ((perform querying_one sql (driver_of env db sql)).1 ≡ is_some (query_rows env sql db).1)
      × ((perform querying_all sql (driver_of env db sql)).1 ≡ is_some (query_rows env sql db).1)
unfolding perform update_mysql query_rows connection
perform-flag env db sql = elim (Bool-cases (env.connects db)) [
  | inl up ↦ rw up (
    update_body-flag sql (not (is_failed (env.answers db sql)))
        ∙ not_if (is_failed (env.answers db sql)),
    query_body-flag at_most_one sql (env.answers db sql),
    query_body-flag (λ n. n) sql (env.answers db sql),
  )
  | inr down ↦ rw down (refl, refl, refl)
]
