-- ===== src/Control/Attempts.antt =====
-- oj_server/oj_control.hpp, UserProgressControl: what is written to the database when a question is
-- solved or tried.
use distributed_oj.Base.{
  ◌≡◌, refl, ◌∙◌, true, false, not, List, [], ◌∷◌, ◌++◌, some, Text, append_assoc,
}
use distributed_oj.Comm.Int.{ℤ, increment, is_zero, atoi}
use distributed_oj.Model.{
  UserProgress, no_progress, Row, rows, Db, Backend, query_rows, update_mysql,
}
use distributed_oj.Model.Progress.{
  progress_of_row, query_mysql, query_user_progress, query_user_progress_sql, add_user_progress,
  add_user_progress_sql, update_user_progress, update_user_progress_sql, fill_progress,
}
use distributed_oj.Control.Progress.{query_progress, set_completed, add_or_update_user_progress}

-- A record that has not been stored
abbrev pub fresh : ℤ → ℤ → UserProgress
fresh user_id question_id = record no_progress { user_id = user_id; question_id = question_id }

-- The record that a solved question leaves of the stored one, and that a try leaves.
abbrev pub completed_at : ℤ → UserProgress → UserProgress
completed_at now up = record up {
  is_completed = true;
  completed_time = now;
  attempt_count = increment up.attempt_count;
}

abbrev pub tried_again : UserProgress → UserProgress
tried_again up = record up { attempt_count = increment up.attempt_count }

-- The statement that follows the query of the record: where there is a row, an update by the
-- changed record; otherwise an insertion of the fresh one, unchanged.
abbrev pub written : Backend → (UserProgress → UserProgress) → UserProgress → List Row → Text
written env change up [] = add_user_progress_sql env up
written env change up (row ∷ more) = update_user_progress_sql env (change (progress_of_row env row))

-- The first row, if any, has a key, which AUTO_INCREMENT never makes 0.
abbrev pub HasKey : List Row → Type 0
HasKey [] = Unit
HasKey (row ∷ more) = is_zero (atoi (row 0)) ≡ false

query_progress-rows :
    (env : Backend) (user_id question_id : ℤ) (db : Db) (rs : List Row)
    → ((d : Db) → env.connects d ≡ true)
    → env.answers db (query_user_progress_sql user_id question_id) ≡ rows rs
    → let r = query_progress env user_id question_id (fresh user_id question_id) db in
      let filled = fill_progress env (fresh user_id question_id) (some rs) in
      r ≡ (
        db ++ (query_user_progress_sql user_id question_id ∷ []),
        filled.0,
        not (is_zero filled.0.progress_id),
      )
unfolding query_progress query_user_progress query_mysql query_rows
query_progress-rows env user_id question_id db [] up e = rw (up db, e) refl
query_progress-rows env user_id question_id db (row ∷ more) up e = rw (up db, e) refl

update_mysql-db :
    (env : Backend) (sql : Text) (db : Db)
    → env.connects db ≡ true
    → (update_mysql env sql db).0 ≡ db ++ (sql ∷ [])
unfolding update_mysql
update_mysql-db env sql db up = rw up refl

two-statements :
    (env : Backend) (first second : Text) (db : Db)
    → ((d : Db) → env.connects d ≡ true)
    → (update_mysql env second (db ++ (first ∷ []))).0 ≡ db ++ (first ∷ second ∷ [])
two-statements env first second db up =
    update_mysql-db env second (db ++ (first ∷ [])) (up (db ++ (first ∷ [])))
    ∙ append_assoc db (first ∷ []) (second ∷ [])

-- While the database can be reached, and keys are not 0: when a question is solved, the record of
-- the user and the question is queried; if there is one, it is stored again as completed now, with
-- one attempt more; if there is none, a record that is not completed, with no attempt, is
-- inserted.
pub set_completed-written :
    (env : Backend) (now user_id question_id : ℤ) (db : Db) (rs : List Row)
    → ((d : Db) → env.connects d ≡ true)
    → env.answers db (query_user_progress_sql user_id question_id) ≡ rows rs
    → HasKey rs
    → (set_completed env now (fresh user_id question_id) db).0
      ≡ db
        ++ (query_user_progress_sql user_id question_id
            ∷ written env (completed_at now) (fresh user_id question_id) rs
            ∷ [])
unfolding set_completed add_user_progress update_user_progress progress_of_row
set_completed-written env now user_id question_id db [] up e k =
    rw (query_progress-rows env user_id question_id db [] up e)
      (two-statements env (query_user_progress_sql user_id question_id) _ db up)
set_completed-written env now user_id question_id db (row ∷ more) up e k =
    rw (query_progress-rows env user_id question_id db (row ∷ more) up e, k)
      (two-statements env (query_user_progress_sql user_id question_id) _ db up)

-- While the database can be reached, and keys are not 0: when a submission is judged, the record
-- is stored again with one attempt more; but where there is no record, one with no attempt is
-- inserted.
pub add_or_update-written :
    (env : Backend) (user_id question_id : ℤ) (db : Db) (rs : List Row)
    → ((d : Db) → env.connects d ≡ true)
    → env.answers db (query_user_progress_sql user_id question_id) ≡ rows rs
    → HasKey rs
    → (add_or_update_user_progress env (fresh user_id question_id) db).0
      ≡ db
        ++ (query_user_progress_sql user_id question_id
            ∷ written env tried_again (fresh user_id question_id) rs
            ∷ [])
unfolding add_or_update_user_progress add_user_progress update_user_progress progress_of_row
add_or_update-written env user_id question_id db [] up e k =
    rw (query_progress-rows env user_id question_id db [] up e)
      (two-statements env (query_user_progress_sql user_id question_id) _ db up)
add_or_update-written env user_id question_id db (row ∷ more) up e k =
    rw (query_progress-rows env user_id question_id db (row ∷ more) up e, k)
      (two-statements env (query_user_progress_sql user_id question_id) _ db up)
