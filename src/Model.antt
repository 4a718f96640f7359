-- ===== src/Model.antt =====
-- oj_server/oj_model2.hpp: the records of the judge and their storage in MySQL.
pub mod Questions
pub mod Users
pub mod Progress
pub mod Listed
pub mod Connection
use distributed_oj.Base.{
  ℕ, Bool, true, false, List, [], ◌∷◌, ◌++◌, Option, none, some, Text, text, if◌then◌else◌,
}
use distributed_oj.Comm.Int.{ℤ, pos, is_zero}

pub record Question : Type 0 where
  pub number : Text
  pub title : Text
  pub star : Text
  pub cpu_limit : ℤ
  pub mem_limit : ℤ
  pub desc : Text
  pub header : Text
  pub tail : Text

-- `Question()`
abbrev pub no_question : Question
no_question = record {
  number = [];
  title = [];
  star = [];
  cpu_limit = pos 0;
  mem_limit = pos 0;
  desc = [];
  header = [];
  tail = [];
}

-- The constructor of `User` leaves `id` indeterminate, which is `none` here.
pub record User : Type 0 where
  pub id : Option ℤ
  pub name : Text
  pub password : Text
  pub salt : Text
  pub is_admin : ℤ

-- `User(n, p, s)`, and `User()` with three empty texts
abbrev pub user_of : Text → Text → Text → User
user_of n p s = record { id = none; name = n; password = p; salt = s; is_admin = pos 0 }

abbrev pub no_user : User
no_user = user_of [] [] []

pub record UserProgress : Type 0 where
  pub progress_id : ℤ
  pub user_id : ℤ
  pub question_id : ℤ
  pub is_completed : Bool
  pub completed_time : ℤ
  pub attempt_count : ℤ

-- `UserProgress()`
abbrev pub no_progress : UserProgress
no_progress = record {
  progress_id = pos 0;
  user_id = pos 0;
  question_id = pos 0;
  is_completed = false;
  completed_time = pos 0;
  attempt_count = pos 0;
}

-- A MYSQL_ROW: the texts of its columns, none of which is NULL.
abbrev pub Row : Type 0
Row = ℕ → Text

-- What a statement comes to: `mysql_query` fails, it succeeds and `mysql_store_result` gives
-- nothing, or it gives rows.
pub data Answer : Type 0 where
  failed : Answer
  no_result : Answer
  rows : List Row → Answer

-- The database is what the statements executed so far, oldest first, have made of it.
abbrev pub Db : Type 0
Db = List Text

-- MySQL and the C library's calendar, which are not part of the repository: whether a new
-- connection is made, what a statement is answered after others, and how times are written and
-- read by "%Y-%m-%d %H:%M:%S".
pub record Backend : Type 0 where
  pub connects : Db → Bool
  pub answers : Db → Text → Answer
  pub format_time : ℤ → Text
  pub parse_time : Text → ℤ

abbrev pub is_failed : Answer → Bool
is_failed failed = true
is_failed _ = false

abbrev pub rows_of : Answer → Option (List Row)
rows_of (rows rs) = some rs
rows_of _ = none

-- Pieces of a statement, put together.
abbrev pub join : List Text → Text
join [] = []
join (piece ∷ pieces) = piece ++ join pieces

-- A statement without a result: `UpdateMysql` of the user models, and the body that
-- `InsertQuestion`, `UpdateQuestion` and `DeleteQuestion` share. The exception of a connection that
-- fails is caught.
unfoldable pub update_mysql : Backend → Text → Db → Db × Bool
update_mysql env sql db =
    if env.connects db
    then (db ++ (sql ∷ []), (if is_failed (env.answers db sql) then false else true))
    else (db, false)

-- The rows of a query, as `QueryMysql` and `QueryMysql2` get them.
unfoldable pub query_rows : Backend → Text → Db → Db × Option (List Row)
query_rows env sql db =
    if env.connects db then (db ++ (sql ∷ []), rows_of (env.answers db sql)) else (db, none)
