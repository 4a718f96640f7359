-- ===== src/Control/Questions.antt =====
-- oj_server/oj_control.hpp: class Control.
use distributed_oj.Base.{
  ℕ, Bool, true, false, List, [], ◌∷◌, ◌++◌, Option, none, some, Text, text, if◌then◌else◌,
}
use distributed_oj.Base.Result.{Result, ok, ◌>>=◌}
use distributed_oj.Comm.Int.{atoi, int_lt}
use distributed_oj.Json.{JsonCpp, string, int}
use distributed_oj.Model.{Question, no_question, Db, Backend}
use distributed_oj.Model.Questions
use distributed_oj.View.{Expand, expand_all_html, one_expand_html}
use distributed_oj.Balance.{LoadBalance, online_machine}
use distributed_oj.Balance.Judge.{Round, judge_loop}

-- `RecoveryMachine`
unfoldable pub recovery_machine : LoadBalance → LoadBalance
recovery_machine lb = online_machine lb

unfoldable pub add_question : Backend → Question → Db → Db × Bool
add_question env q db = Questions.insert_question env q db

unfoldable pub delete_question : Backend → Text → Db → Db × Bool
delete_question env number db = Questions.delete_question env number db

unfoldable pub modify_question : Backend → Question → Db → Db × Bool
modify_question env q db = Questions.update_question env q db

-- The comparison that `sort` is given
abbrev pub comes_before : Question → Question → Bool
comes_before q1 q2 = int_lt (atoi q1.number) (atoi q2.number)

-- `std::sort`, which says nothing of equal numbers; here they keep their order.
unfoldable pub insert_sorted : Question → List Question → List Question
insert_sorted q [] = q ∷ []
insert_sorted q (r ∷ rest) = if comes_before r q then r ∷ insert_sorted q rest else q ∷ r ∷ rest

unfoldable pub sort : List Question → List Question
unfolding insert_sorted
sort [] = []
sort (q ∷ rest) = insert_sorted q (sort rest)

-- `AllQuestions`
unfoldable pub all_questions : Backend → Expand → Db → Db × Text × Bool
all_questions env expand db =
    let (db', found) = Questions.get_all_questions env db in
    elim found [
      | none ↦ (db', text "获取题目失败", false)
      | some all ↦ (db', expand_all_html expand (sort all), true)
    ]

-- `Question`
unfoldable pub question : Backend → Expand → Text → Db → Db × Text × Bool
question env expand number db =
    let (db', found) = Questions.get_one_question env number db in
    elim found [
      | none ↦ (db', text "指定题目: " ++ (number ++ text " 不存在!"), false)
      | some q ↦ (db', one_expand_html expand q, true)
    ]

abbrev pub or_no_question : Option Question → Question
or_no_question none = no_question
or_no_question (some q) = q

-- The text that `Judge` posts for a question and a request. The result of the parse is not looked
-- at.
unfoldable pub compile_text : JsonCpp → Question → Text → Result Text
compile_text json q in_json = do
  let in_value = (json.parse in_json).1
  code ← json.get_string in_value (text "code")
  input ← json.get_string in_value (text "input")
  ok (
      json.write_fast (
        (text "input", string input)
        ∷ (text "code", string (code ++ (b'\n' ∷ q.tail)))
        ∷ (text "cpu_limit", int q.cpu_limit)
        ∷ (text "mem_limit", int q.mem_limit)
        ∷ []))

-- `Judge`, on fuel for its loop. The result of `GetOneQuestion` is not looked at either.
unfoldable pub judge :
    JsonCpp
    → Backend
    → (ℕ → Round)
    → ℕ
    → Text
    → Text
    → Db
    → LoadBalance
    → Db × Result (Option (LoadBalance × Option Text))
judge json env net fuel number in_json db lb =
    let (db', found) = Questions.get_one_question env number db in
    (
      db',
      compile_text json (or_no_question found) in_json >>= λ code.
          ok (judge_loop net code fuel 0 lb),
    )
