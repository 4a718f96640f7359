-- ===== src/Model/Questions.antt =====
-- oj_server/oj_model2.hpp: class Model, on the table `questions`.
use distributed_oj.Base.{Bool, List, [], ◌∷◌, ◌++◌, Option, none, some, Text, text, map}
use distributed_oj.Comm.Int.{atoi, to_string}
use distributed_oj.Model.{Question, Row, Db, Backend, join, update_mysql, query_rows}

unfoldable pub question_of_row : Row → Question
question_of_row row = record {
  number = row 0;
  title = row 1;
  star = row 2;
  desc = row 3;
  header = row 4;
  tail = row 5;
  cpu_limit = atoi (row 6);
  mem_limit = atoi (row 7);
}

-- `QueryMysql`: the questions of all rows, `none` where it returns false
unfoldable pub query_mysql : Backend → Text → Db → Db × Option (List Question)
unfolding query_rows question_of_row
query_mysql env sql db =
    let (db', found) = query_rows env sql db in
    (db', elim found [ none ↦ none | some rs ↦ some (map question_of_row rs) ])

unfoldable pub get_all_questions : Backend → Db → Db × Option (List Question)
unfolding query_mysql
get_all_questions env db = query_mysql env (text "SELECT * FROM questions") db

abbrev pub select_question : Text → Text
select_question number = text "SELECT * FROM questions WHERE id=" ++ number

-- `result.size() == 1`
abbrev pub the_only : Option (List Question) → Option Question
the_only (some (q ∷ [])) = some q
the_only _ = none

-- `GetOneQuestion`: `none` where it returns false and leaves its argument alone
unfoldable pub get_one_question : Backend → Text → Db → Db × Option Question
unfolding query_mysql
get_one_question env number db =
    let (db', result) = query_mysql env (select_question number) db in (db', the_only result)

abbrev pub insert_question_sql : Question → Text
insert_question_sql q = join (
    text
      "INSERT INTO questions (title, star, question_desc, header, tail, time_limit, mem_limit) VALUES ('"
    ∷ q.title
    ∷ text "', '"
    ∷ q.star
    ∷ text "', '"
    ∷ q.desc
    ∷ text "', '"
    ∷ q.header
    ∷ text "', '"
    ∷ q.tail
    ∷ text "', "
    ∷ to_string q.cpu_limit
    ∷ text ", "
    ∷ to_string q.mem_limit
    ∷ text ")"
    ∷ [])

unfoldable pub insert_question : Backend → Question → Db → Db × Bool
unfolding update_mysql
insert_question env q db = update_mysql env (insert_question_sql q) db

abbrev pub update_question_sql : Question → Text
update_question_sql q = join (
    text "UPDATE questions SET title='"
    ∷ q.title
    ∷ text "', star='"
    ∷ q.star
    ∷ text "', question_desc='"
    ∷ q.desc
    ∷ text "', header='"
    ∷ q.header
    ∷ text "', tail='"
    ∷ q.tail
    ∷ text "', time_limit="
    ∷ to_string q.cpu_limit
    ∷ text ", mem_limit="
    ∷ to_string q.mem_limit
    ∷ text " WHERE id='"
    ∷ q.number
    ∷ text "'"
    ∷ [])

unfoldable pub update_question : Backend → Question → Db → Db × Bool
unfolding update_mysql
update_question env q db = update_mysql env (update_question_sql q) db

abbrev pub delete_question_sql : Text → Text
delete_question_sql number =
    join (text "DELETE FROM questions WHERE id ='" ∷ number ∷ text "'" ∷ [])

unfoldable pub delete_question : Backend → Text → Db → Db × Bool
unfolding update_mysql
delete_question env number db = update_mysql env (delete_question_sql number) db
