-- ===== src/Control/Progress.antt =====
-- oj_server/oj_control.hpp: class UserProgressControl. The object that the source passes by pointer
-- is an argument and a result here.
use distributed_oj.Base.{Bool, true, false, not, none, some, Text, text, if◌then◌else◌}
use distributed_oj.Comm.Int.{ℤ, increment, is_zero}
use distributed_oj.Model.{UserProgress, Db, Backend}
use distributed_oj.Model.Progress
use distributed_oj.View.{Expand, all_user_progress}

-- `queryProgress`
unfoldable pub query_progress : Backend → ℤ → ℤ → UserProgress → Db → Db × UserProgress × Bool
query_progress env user_id question_id up db =
    let (db', up', found) = Progress.query_user_progress env user_id question_id up db in
    (db', up', (if found then not (is_zero up'.progress_id) else false))

-- `GetTheUserProgress`
unfoldable pub get_the_user_progress : Backend → Expand → Text → Db → Db × Text × Bool
get_the_user_progress env expand user_id db =
    let (db', found) = Progress.query_user_progress_by_user_id env user_id db in
    elim found [
      | none ↦ (db', text "获取用户答题进度失败", false)
      | some all ↦ (db', all_user_progress env expand all, true)
    ]

-- `setCompleted`, at the time `now`
unfoldable pub set_completed : Backend → ℤ → UserProgress → Db → Db × UserProgress × Bool
set_completed env now up db =
    let (db1, up1, known) = query_progress env up.user_id up.question_id up db in
    if known
    then (let up2 : UserProgress = record up1 {
      is_completed = true;
      completed_time = now;
      attempt_count = increment up1.attempt_count;
    } in
        let (db2, done) = Progress.update_user_progress env up2 db1 in (db2, up2, done))
    else (let (db2, done) = Progress.add_user_progress env up1 db1 in (db2, up1, done))

-- `AddOrUpdateUserProgress`
unfoldable pub add_or_update_user_progress : Backend → UserProgress → Db → Db × UserProgress × Bool
add_or_update_user_progress env up db =
    let (db1, up1, known) = query_progress env up.user_id up.question_id up db in
    if known
    then (let up2 : UserProgress = record up1 { attempt_count = increment up1.attempt_count } in
        let (db2, done) = Progress.update_user_progress env up2 db1 in (db2, up2, done))
    else (let (db2, done) = Progress.add_user_progress env up1 db1 in (db2, up1, done))
