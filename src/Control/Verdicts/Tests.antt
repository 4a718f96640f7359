-- ===== src/Control/Verdicts/Tests.antt =====
-- Networks of one machine, and the theorems about judging at them.
use distributed_oj.Base.{arith, ◌≡◌, refl, true, [], ◌∷◌, Text, text, text_eq, if◌then◌else◌}
use distributed_oj.Comm.Int.{pos}
use distributed_oj.Model.{rows, Backend}
use distributed_oj.Base.{Option, none}
use distributed_oj.Base.Result.{ok}
use distributed_oj.Json.{JsonCpp}
use distributed_oj.Balance.{LoadBalance}
use distributed_oj.Balance.Judge.{Round}
use distributed_oj.Balance.Judge.Safety.{Returns, IsAnswer}
use distributed_oj.Model.Questions.{question_of_row, get_one_question}
use distributed_oj.Base.{◌++◌, subst, some}
use distributed_oj.Comm.Int.{ℤ}
use distributed_oj.Base.Result.{Result}
use distributed_oj.Json.{Object, string, int}
use distributed_oj.Comm.Files.{uniq_file_name}
use distributed_oj.CompileServer.Job.{
  handle_compile_and_run, start, read_submission, clean_up, reach_end,
}
use distributed_oj.CompileServer.Job.Tests.{
  lab, empty_server, lab-IsHealthy, lab-IsConfined, empty-IsFresh,
}
use distributed_oj.Control.Verdicts.{
  Hosts, AreServers, IsServed, IsVerdict, submitted, judge-IsVerdict,
}
use distributed_oj.Control.Judging.{posted, judge-IsAnswer}
use distributed_oj.Control.Questions.{judge}
use distributed_oj.Control.Tests.{small_db, ann_row}

-- A database that has a question, and a network on which nothing answers
abbrev pub one_question : Backend
one_question = record small_db { answers = λ db sql. rows (ann_row ∷ []) }

abbrev two_texts : JsonCpp
two_texts = record {
  Value = Text;
  parse = λ s. (true, s);
  get_string = λ v key. ok v;
  get_int = λ v key. ok (pos 0);
  write = λ o. [];
  write_fast = λ o. text "posted";
}

abbrev pub one_machine : LoadBalance
one_machine = record {
  machines = record { ip = text "a"; port = pos 8081; load = 0 } ∷ [];
  online = 0 ∷ [];
  offline = [];
}

abbrev silent : Round
silent = record { poll = λ ip port. none; post = λ ip port body. none }

judge-IsAnswer_test :
    (r : Option (LoadBalance × Option Text)) × ((judge two_texts one_question
        (λ t. silent)
        5
        (text "7")
        (text "{}")
        []
        one_machine).1
      ≡ ok r)
    × Returns
        (IsAnswer
          (λ t. silent)
          (posted two_texts (question_of_row ann_row) (text "{}") (text "{}")))
        r
unfolding get_one_question
judge-IsAnswer_test =
    judge-IsAnswer two_texts one_question (λ t. silent) 5 (text "7") (text "{}") (text "{}")
      (text "{}") [] one_machine (question_of_row ann_row) refl refl refl

abbrev string_of : Object → Text → Result Text
string_of [] key = ok []
string_of ((k, string s) ∷ rest) key = if text_eq k key then ok s else string_of rest key
string_of ((k, other) ∷ rest) key = string_of rest key

abbrev int_of : Object → Text → Result ℤ
int_of [] key = ok (pos 0)
int_of ((k, int n) ∷ rest) key = if text_eq k key then ok n else int_of rest key
int_of ((k, other) ∷ rest) key = int_of rest key

-- A library that knows two texts: "posted", which is what it writes quickly, and all others.
abbrev user_object : Object
user_object = (text "code", string (text "cat")) ∷ (text "input", string (text "hi")) ∷ []

abbrev pub known_texts : JsonCpp
known_texts = record {
  Value = Object;
  parse = λ s. (
    true,
    (if text_eq s (text "posted")
        then (text "input", string (text "hi"))
          ∷ (text "code", string (text "cat" ++ (b'\n' ∷ (question_of_row ann_row).tail)))
          ∷ (text "cpu_limit", int (question_of_row ann_row).cpu_limit)
          ∷ (text "mem_limit", int (question_of_row ann_row).mem_limit)
          ∷ []
        else user_object),
  );
  get_string = string_of;
  get_int = int_of;
  write = λ o. text "answered";
  write_fast = λ o. text "posted";
}

-- Every machine answers as a compile server that has just started does.
abbrev pub served : Round
served = record { poll = λ ip port. none; post = λ ip port sent. some (200, text "answered") }

abbrev pub labs : Hosts
labs ip port = lab

pub served-AreServers : AreServers known_texts labs (λ t. served) (text "posted")
unfolding handle_compile_and_run start read_submission
served-AreServers t ip port body e = subst (IsServed known_texts lab (text "posted")) (answered e) (
  100,
  empty_server,
  clean_up (
      reach_end lab 100 (submitted (question_of_row ann_row) (text "cat") (text "hi"))
        empty_server),
  lab-IsHealthy,
  lab-IsConfined,
  empty-IsFresh (uniq_file_name 100 empty_server.next).1,
  refl,
)
  where
    answered : {b : Text} → (served.post [] (pos 0) [] ≡ some (200, b)) → text "answered" ≡ b
    answered h = cc

judge-IsVerdict_example :
    (lb : LoadBalance) × (out : Option Text) × ((judge known_texts one_question
        (λ t. served)
        5
        (text "7")
        (text "{}")
        []
        one_machine).1
      ≡ ok (some (lb, out)))
    × IsVerdict known_texts labs
        (submitted (question_of_row ann_row) (text "cat") (text "hi"))
        one_machine
        lb
        out
unfolding get_one_question read_submission
judge-IsVerdict_example =
    judge-IsVerdict known_texts labs one_question (λ t. served) 5 (text "7") (text "{}")
      (text "cat") (text "hi") [] one_machine (question_of_row ann_row) refl refl refl refl
      served-AreServers (λ t ip port status body e. cc) (omega arith)
