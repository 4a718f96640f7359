-- ===== src/Control/Judging.antt =====
-- What Control::Judge posts and hands on.
use distributed_oj.Base.{ℕ, ◌≡◌, refl, [], ◌∷◌, ◌++◌, Option, some, Text, text}
use distributed_oj.Base.Result.{ok}
use distributed_oj.Json.{JsonCpp, string, int}
use distributed_oj.Model.{Question, Db, Backend}
use distributed_oj.Model.Questions.{get_one_question}
use distributed_oj.Balance.{LoadBalance}
use distributed_oj.Balance.Judge.{Round, judge_loop}
use distributed_oj.Balance.Judge.Safety.{Returns, IsAnswer, judge_loop-IsAnswer}
use distributed_oj.Control.Questions.{judge, compile_text}

-- The text that a submission of `code` and `input` to a question is compiled from: its tests follow
-- the code on a new line, and its limits come with it.
abbrev pub posted : JsonCpp → Question → Text → Text → Text
posted json q code input = json.write_fast (
    (text "input", string input)
    ∷ (text "code", string (code ++ (b'\n' ∷ q.tail)))
    ∷ (text "cpu_limit", int q.cpu_limit)
    ∷ (text "mem_limit", int q.mem_limit)
    ∷ [])

pub compile_text-posted :
    (json : JsonCpp) (q : Question) (in_json code input : Text)
    → json.get_string (json.parse in_json).1 (text "code") ≡ ok code
    → json.get_string (json.parse in_json).1 (text "input") ≡ ok input
    → compile_text json q in_json ≡ ok (posted json q code input)
unfolding compile_text
compile_text-posted json q in_json code input c i = rw (c, i) refl

-- For a question that the database has, and a request whose code and input are texts, `Judge`
-- throws nothing, and what it hands on is the body of a response of status 200 to the text made of
-- the code, the question's tests and its limits; it hands on nothing only where no machine is
-- online any more.
pub judge-IsAnswer :
    (json : JsonCpp) (env : Backend) (net : ℕ → Round) (fuel : ℕ) (number in_json code input : Text)
    (db : Db) (lb : LoadBalance) (q : Question)
    → (get_one_question env number db).1 ≡ some q
    → json.get_string (json.parse in_json).1 (text "code") ≡ ok code
    → json.get_string (json.parse in_json).1 (text "input") ≡ ok input
    → (r : Option (LoadBalance × Option Text)) × ((judge json env net fuel number in_json db lb).1
        ≡ ok r)
      × Returns (IsAnswer net (posted json q code input)) r
unfolding judge
judge-IsAnswer json env net fuel number in_json code input db lb q found c i = (
  judge_loop net (posted json q code input) fuel 0 lb,
  rw (found, compile_text-posted json q in_json code input c i) refl,
  judge_loop-IsAnswer net (posted json q code input) fuel 0 lb,
)
