-- ===== src/Model/Progress.antt =====
-- oj_server/oj_model2.hpp: class UserProgressModel, on the table `UserProgress`.
use distributed_oj.Base.{
  Bool, true, false, not, List, [], ◌∷◌, Option, none, some, Text, text, map, if◌then◌else◌,
}
use distributed_oj.Comm.Int.{ℤ, atoi, to_string, is_zero}
use distributed_oj.Model.{UserProgress, Row, Db, Backend, join, update_mysql, query_rows}

-- `StringUtil::timeToString` puts the time into quotes.
abbrev pub time_to_string : Backend → ℤ → Text
time_to_string env t = join (text "'" ∷ env.format_time t ∷ text "'" ∷ [])

-- `std::to_string` of a bool
abbrev pub bool_text : Bool → Text
bool_text b = if b then text "1" else text "0"

unfoldable pub progress_of_row : Backend → Row → UserProgress
progress_of_row env row = record {
  progress_id = atoi (row 0);
  user_id = atoi (row 1);
  question_id = atoi (row 2);
  is_completed = not (is_zero (atoi (row 3)));
  completed_time = env.parse_time (row 4);
  attempt_count = atoi (row 5);
}

abbrev pub fill_progress : Backend → UserProgress → Option (List Row) → UserProgress × Bool
fill_progress env up none = (up, false)
fill_progress env up (some []) = (up, true)
fill_progress env up (some (row ∷ more)) = (progress_of_row env row, true)

-- `QueryMysql`
unfoldable pub query_mysql : Backend → Text → UserProgress → Db → Db × UserProgress × Bool
unfolding query_rows progress_of_row
query_mysql env sql up db =
    let (db', found) = query_rows env sql db in
    let (up', fine) = fill_progress env up found in (db', up', fine)

-- `QueryMysql2`
unfoldable pub query_mysql2 : Backend → Text → Db → Db × Option (List UserProgress)
unfolding query_rows progress_of_row
query_mysql2 env sql db =
    let (db', found) = query_rows env sql db in
    (db', elim found [ none ↦ none | some rs ↦ some (map (progress_of_row env) rs) ])

abbrev pub add_user_progress_sql : Backend → UserProgress → Text
add_user_progress_sql env up = join (
    text
      "INSERT INTO UserProgress (user_id, question_id, is_completed, completed_time, attempt_count) VALUES ("
    ∷ to_string up.user_id
    ∷ text ", "
    ∷ to_string up.question_id
    ∷ text ", "
    ∷ bool_text up.is_completed
    ∷ text ", "
    ∷ time_to_string env up.completed_time
    ∷ text ", "
    ∷ to_string up.attempt_count
    ∷ text ")"
    ∷ [])

unfoldable pub add_user_progress : Backend → UserProgress → Db → Db × Bool
unfolding update_mysql
add_user_progress env up db = update_mysql env (add_user_progress_sql env up) db

abbrev pub query_user_progress_sql : ℤ → ℤ → Text
query_user_progress_sql user_id question_id = join (
    text "SELECT * FROM UserProgress WHERE user_id = "
    ∷ to_string user_id
    ∷ text " AND question_id = "
    ∷ to_string question_id
    ∷ [])

unfoldable pub query_user_progress : Backend → ℤ → ℤ → UserProgress → Db → Db × UserProgress × Bool
unfolding query_mysql
query_user_progress env user_id question_id up db =
    query_mysql env (query_user_progress_sql user_id question_id) up db

abbrev pub update_user_progress_sql : Backend → UserProgress → Text
update_user_progress_sql env up = join (
    text "UPDATE UserProgress SET is_completed = "
    ∷ bool_text up.is_completed
    ∷ text ", completed_time = "
    ∷ time_to_string env up.completed_time
    ∷ text ", attempt_count="
    ∷ to_string up.attempt_count
    ∷ text " WHERE user_id="
    ∷ to_string up.user_id
    ∷ text " AND question_id="
    ∷ to_string up.question_id
    ∷ [])

unfoldable pub update_user_progress : Backend → UserProgress → Db → Db × Bool
unfolding update_mysql
update_user_progress env up db = update_mysql env (update_user_progress_sql env up) db

abbrev pub delete_user_progress_sql : ℤ → ℤ → Text
delete_user_progress_sql user_id question_id = join (
    text "DELETE FROM UserProgress WHERE user_id = "
    ∷ to_string user_id
    ∷ text " AND question_id = "
    ∷ to_string question_id
    ∷ [])

unfoldable pub delete_user_progress : Backend → ℤ → ℤ → Db → Db × Bool
unfolding update_mysql
delete_user_progress env user_id question_id db =
    update_mysql env (delete_user_progress_sql user_id question_id) db

unfoldable pub query_user_progress_by_user_id :
    Backend → Text → Db → Db × Option (List UserProgress)
unfolding query_mysql2
query_user_progress_by_user_id env user_id db =
    query_mysql2 env
      (join (
        text "SELECT * FROM UserProgress WHERE user_id = "
        ∷ user_id
        ∷ text " and is_completed = 1 ORDER BY completed_time DESC"
        ∷ []))
      db
