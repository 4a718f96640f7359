-- ===== src/Control/Verdicts.antt =====
-- Both servers together: what Control::Judge hands on where the machines run the compile server.
pub mod Tests
use distributed_oj.Base.{
  length, ◌<◌, true, ℕ, ◌≡◌, refl, sym, ◌∙◌, ap, List, [], ◌∷◌, ◌++◌, Option, none, some, Text,
  text,
}
use distributed_oj.Base.Result.{Result, ok, throws, undefined, ◌>>=◌}
use distributed_oj.Comm.Int.{ℤ}
use distributed_oj.Comm.Files.{uniq_file_name}
use distributed_oj.Json.{JsonCpp}
use distributed_oj.Model.{Question, Db, Backend}
use distributed_oj.Model.Questions.{get_one_question}
use distributed_oj.Balance.{LoadBalance, contains}
use distributed_oj.Balance.Judge.{Round, machine_at, judge_loop}
use distributed_oj.Balance.Judge.Addresses.{IsFrom, judge_loop-IsFrom}
use distributed_oj.Balance.Judge.Termination.{IsPolite, judge_loop_ends}
use distributed_oj.CompileServer.Runner.{Host}
use distributed_oj.CompileServer.Job.{
  Submission, Server, reach_end, answer, clean_up, read_submission, start, handle_compile_and_run,
}
use distributed_oj.CompileServer.Job.Steps.{IsHealthy, IsConfined, IsFresh}
use distributed_oj.CompileServer.Job.Outcome.{verdict, answer-verdict}
use distributed_oj.Control.Questions.{judge}
use distributed_oj.Control.Judging.{posted, compile_text-posted}

-- The host at each address, to which all else refers
abbrev pub Hosts : Type 0
Hosts = Text → ℤ → Host

-- The handler of /compile_and_run on that host has made `body` of `sent`. Its system calls succeed,
-- its programs find and change no files, and the file name was free.
abbrev pub IsServed : JsonCpp → Host → Text → Text → Type 0
IsServed json host sent body =
    (ms : ℕ) × (v : Server) × (v' : Server) × IsHealthy host
    × IsConfined host
    × IsFresh (uniq_file_name ms v.next).1 v.system.disk
    × (handle_compile_and_run json host ms sent v ≡ ok (v', some body))

-- Every response of status 200 to that text has been made by the host at its address.
abbrev pub AreServers : JsonCpp → Hosts → (ℕ → Round) → Text → Type 0
AreServers json host_at net sent =
    (t : ℕ) (ip : Text) (port : ℤ) (body : Text)
    → (net t).post ip port sent ≡ some (200, body)
    → IsServed json (host_at ip port) sent body

-- The submission of `code` and `input` to a question
abbrev pub submitted : Question → Text → Text → Submission
submitted q code input = record {
  code = code ++ (b'\n' ∷ q.tail);
  input = input;
  cpu_limit = q.cpu_limit;
  mem_limit = q.mem_limit;
}

-- Either no machine is online any more, or the answer is the verdict on the submission of the host of
-- a machine that was online at first, under a name that UniqFileName makes.
abbrev pub IsVerdict :
    JsonCpp → Hosts → Submission → LoadBalance → LoadBalance → Option Text → Type 0
IsVerdict json host_at s first lb none = lb.online ≡ []
IsVerdict json host_at s first lb (some body) =
    let m = machine_at first in
    (id : ℕ) × (ms : ℕ) × (next : ℕ) × (contains id first.online ≡ true)
    × (body ≡ json.write (verdict (host_at (m id).ip (m id).port) (uniq_file_name ms next).1 s))

start-verdict :
    (json : JsonCpp) (host : Host) (ms : ℕ) (sent : Text) (v : Server) (s : Submission)
    → IsHealthy host
    → IsConfined host
    → IsFresh (uniq_file_name ms v.next).1 v.system.disk
    → read_submission json sent ≡ ok s
    → start json host ms sent v
      ≡ ok (
        clean_up (reach_end host ms s v),
        json.write (verdict host (uniq_file_name ms v.next).1 s),
      )
unfolding start
start-verdict json host ms sent v s healthy confined fresh r =
    rw (r, start)
      (ap (λ o. ok (clean_up (reach_end host ms s v), json.write o))
        (answer-verdict host ms s v healthy confined fresh))

-- The text that the handler has answered, and another one where there is none
abbrev body_of : Text → Result (Server × Option Text) → Text
body_of other (ok (v, some body)) = body
body_of other _ = other

handle-verdict :
    (json : JsonCpp) (host : Host) (ms : ℕ) (sent : Text) (v v' : Server) (s : Submission)
    (body : Text)
    → IsHealthy host
    → IsConfined host
    → IsFresh (uniq_file_name ms v.next).1 v.system.disk
    → read_submission json sent ≡ ok s
    → handle_compile_and_run json host ms sent v ≡ ok (v', some body)
    → body ≡ json.write (verdict host (uniq_file_name ms v.next).1 s)
unfolding handle_compile_and_run
handle-verdict json host ms [] v v' s body healthy confined fresh r h = cc
handle-verdict json host ms (c ∷ sent) v v' s body healthy confined fresh r h =
    let e = start-verdict json host ms (c ∷ sent) v s healthy confined fresh r in
    ap (body_of body)
      (sym h ∙ ap (λ (o : Result (Server × Text)). o >>= λ (v1, out). ok (v1, some out)) e)

IsFrom-IsVerdict :
    (json : JsonCpp) (host_at : Hosts) (net : ℕ → Round) (sent : Text) (s : Submission)
    → read_submission json sent ≡ ok s
    → AreServers json host_at net sent
    → (first lb : LoadBalance) (out : Option Text) → IsFrom net sent first lb out
    → IsVerdict json host_at s first lb out
IsFrom-IsVerdict json host_at net sent s r served first lb none h = h
IsFrom-IsVerdict json host_at net sent s r served first lb (some body) (t, id, online, e) =
    let m = machine_at first id in
    let (ms, v, v', healthy, confined, fresh, handled) = served t m.ip m.port body e in
    (
      id,
      ms,
      v.next,
      online,
      handle-verdict json (host_at m.ip m.port) ms sent v v' s body healthy confined fresh r
          handled,
    )

-- For hosts at the addresses, a question that the database has, a request whose code and input are
-- texts, and a writer and parser of JSON that agree on the text posted: where every response of
-- status 200 to that text comes of the compile server on the host of its address, and there is no
-- response of another status; where the system calls of these hosts succeed, their programs find
-- and change no files, and the file names that they take are free; then, with more rounds than
-- machines are online, `Judge` ends. What it hands on is the verdict that the host of a machine
-- online at first gives on the user's code followed by the question's tests, on the user's input,
-- and under the question's limits; it hands on nothing only where no machine is online any more.
pub judge-IsVerdict :
    (json : JsonCpp) (host_at : Hosts) (env : Backend) (net : ℕ → Round) (fuel : ℕ)
    (number in_json code input : Text) (db : Db) (lb : LoadBalance) (q : Question)
    → (get_one_question env number db).1 ≡ some q
    → json.get_string (json.parse in_json).1 (text "code") ≡ ok code
    → json.get_string (json.parse in_json).1 (text "input") ≡ ok input
    → read_submission json (posted json q code input) ≡ ok (submitted q code input)
    → AreServers json host_at net (posted json q code input)
    → ((t : ℕ) → IsPolite (net t) (posted json q code input))
    → length lb.online < fuel
    → (lb' : LoadBalance) × (out : Option Text) × ((judge json env net fuel number in_json db lb).1
        ≡ ok (some (lb', out)))
      × IsVerdict json host_at (submitted q code input) lb lb' out
unfolding judge
judge-IsVerdict json host_at env net fuel number in_json code input db lb q found c i agree served
      polite long =
    let sent = posted json q code input in
    let (lb', out, ends) = judge_loop_ends net sent polite fuel 0 lb long in
    (
      lb',
      out,
      rw (found, compile_text-posted json q in_json code input c i) (ap ok ends),
      IsFrom-IsVerdict json host_at net sent (submitted q code input) agree served lb lb' out
          (rw ends at (judge_loop-IsFrom net sent lb fuel 0)),
    )
