-- ===== src/Control/Counting.antt =====
-- oj_server/oj_control.hpp, UserProgressControl::AddOrUpdateUserProgress: the attempts that are
-- counted when a user submits to a question again and again.
mod Tests
use distributed_oj.Base.{
  ℕ, zero, suc, ◌+◌, ◌≡◌, refl, ◌∙◌, ap, sym, append-nil, true, false, List, [], ◌∷◌, ◌++◌, Text,
  append_assoc,
}
use distributed_oj.Comm.Int.{ℤ, pos, is_zero, atoi, increment}
use distributed_oj.Model.{UserProgress, Row, rows, Db, Backend}
use distributed_oj.Model.Progress.{
  progress_of_row, query_user_progress_sql, add_user_progress_sql, update_user_progress_sql,
}
use distributed_oj.Control.Progress.{add_or_update_user_progress}
use distributed_oj.Control.Attempts.{fresh, tried_again, add_or_update-written}

-- The record of so many attempts, none of which has solved the question
abbrev pub counted : ℤ → ℤ → ℕ → UserProgress
counted user_id question_id k = record (fresh user_id question_id) { attempt_count = pos k }

module _ (env : Backend) (user_id question_id : ℤ) where
  -- Submissions one after another
  unfoldable pub submit_times : ℕ → Db → Db
  unfolding add_or_update_user_progress
  submit_times zero db = db
  submit_times (suc n) db =
      submit_times n (add_or_update_user_progress env (fresh user_id question_id) db).0

  -- The row is the record of `k` attempts, with a key that is not 0.
  pub record IsRecord (k : ℕ) (row : Row) : Type 0 where
    pub key : is_zero (atoi (row 0)) ≡ false
    pub content :
        progress_of_row env row
        ≡ record (counted user_id question_id k) { progress_id = atoi (row 0) }

  abbrev pub select : Text
  select = query_user_progress_sql user_id question_id

  -- The statements of `n` further submissions, where `k` attempts are stored
  abbrev pub updates : ℕ → ℕ → Db
  updates zero k = []
  updates (suc n) k =
      select
      ∷ update_user_progress_sql env (counted user_id question_id (k + 1))
      ∷ updates n (k + 1)

  -- Over `n` further submissions the database answers with the record that has been stored last.
  abbrev pub RemembersFrom : ℕ → ℕ → Db → Type 0
  RemembersFrom zero k db = Unit
  RemembersFrom (suc n) k db =
      ((row : Row) × IsRecord k row × (env.answers db select ≡ rows (row ∷ [])))
      × RemembersFrom n (k + 1)
          (db ++ (select ∷ update_user_progress_sql env (counted user_id question_id (k + 1)) ∷ []))

  -- There is no record at first, and after its insertion it is remembered.
  abbrev pub Remembers : ℕ → Db → Type 0
  Remembers n db =
      (env.answers db select ≡ rows [])
      × RemembersFrom n 0
          (db ++ (select ∷ add_user_progress_sql env (counted user_id question_id 0) ∷ []))

  module _ (up : (d : Db) → env.connects d ≡ true) where
    submit_again :
        (k : ℕ) (db : Db) (row : Row)
        → IsRecord k row
        → env.answers db select ≡ rows (row ∷ [])
        → (add_or_update_user_progress env (fresh user_id question_id) db).0
          ≡ db ++ (select ∷ update_user_progress_sql env (counted user_id question_id (k + 1)) ∷ [])
    submit_again k db row stored e =
        add_or_update-written env user_id question_id db (row ∷ []) up e stored.key
        ∙ ap (λ p. db ++ (select ∷ update_user_progress_sql env (tried_again p) ∷ []))
            stored.content

    submit_times-updates :
        (n k : ℕ) (db : Db) → RemembersFrom n k db → submit_times n db ≡ db ++ updates n k
    unfolding submit_times
    submit_times-updates zero k db h = sym (append-nil db)
    submit_times-updates (suc n) k db ((row, stored, e), h) =
        ap (submit_times n) (submit_again k db row stored e)
        ∙ submit_times-updates n (k + 1) _ h
        ∙ append_assoc db _ (updates n (k + 1))

    submit_first :
        (db : Db)
        → env.answers db select ≡ rows []
        → (add_or_update_user_progress env (fresh user_id question_id) db).0
          ≡ db ++ (select ∷ add_user_progress_sql env (counted user_id question_id 0) ∷ [])
    submit_first db e = add_or_update-written env user_id question_id db [] up e tt

    -- While the database can be reached, and answers with no record at first and then with the one
    -- stored last, under keys that are not 0: of one submission and `n` more, the first inserts a
    -- record of no attempt, and the i-th after it stores i attempts. So after all of them the
    -- record counts one attempt less than there were.
    pub submit_times-counted :
        (n : ℕ) (db : Db)
        → Remembers n db
        → submit_times (suc n) db
          ≡ db ++ (select ∷ add_user_progress_sql env (counted user_id question_id 0) ∷ updates n 0)
    unfolding submit_times
    submit_times-counted n db (none_yet, h) =
        ap (submit_times n) (submit_first db none_yet)
        ∙ submit_times-updates n 0 _ h
        ∙ append_assoc db _ (updates n 0)
