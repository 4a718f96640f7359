-- ===== src/CompileServer/Job.antt =====
-- compile_server/compile_run.hpp: CompileAndRun, and the handler of /compile_and_run.
pub mod Cleanup
pub mod Steps
pub mod Outcome
pub mod Descriptors
pub mod Sequence
pub mod Parallel
pub mod Tests
use distributed_oj.Base.{
  ℕ, Bool, true, false, List, [], ◌∷◌, ◌++◌, Option, none, some, Text, text, ◌==◌, if◌then◌else◌,
  ◌+◌,
}
use distributed_oj.Base.Result.{Result, ok, throws, undefined, ◌>>=◌}
use distributed_oj.Comm.Int.{ℤ, pos, negsuc, to_string, is_zero, int_lt}
use distributed_oj.Comm.Paths.{src, exe, compiler_error, stderr, stdin, stdout}
use distributed_oj.Comm.Files.{Disk, put, is_file_exits, write_file, read_file, uniq_file_name}
use distributed_oj.Json.{JsonCpp, Object, Field, string, int}
use distributed_oj.CompileServer.Runner.{Host, System, compile, run}

-- The texts of `CodeToDesc`
abbrev pub success_desc : Text
success_desc = text "编译运行成功"

-- `case` labels on the signals
abbrev pub signal_desc : ℕ → Text
signal_desc code =
    if code == 6
    then text "内存超过范围"
    else if code == 24
    then text "CPU使用超时"
    else if code == 8
    then text "浮点数溢出"
    else if code == 11
    then text "段错误"
    else text "未知错误" ++ to_string (pos code)

-- `CodeToDesc`: -1, -2 and -3 are the program's own codes, other positive codes are signals.
unfoldable pub code_to_desc : Disk → ℤ → Text → Text
code_to_desc disk (pos code) file_name = if code == 0 then success_desc else signal_desc code
code_to_desc disk (negsuc n) file_name =
    if n == 0
    then text "提交代码为空"
    else if n == 1
    then text "未知错误"
    else if n == 2
    then (read_file disk (compiler_error file_name) true).0
    else text "未知错误" ++ to_string (negsuc n)

-- `if(IsFileExits(path)) unlink(path)`
unfoldable pub remove_if : Text → Disk → Disk
unfolding put
remove_if path disk = if is_file_exits disk path then put disk path none else disk

-- `RemoveTempFile`
unfoldable pub remove_temp_file : Text → Disk → Disk
remove_temp_file file_name disk =
    let d1 = remove_if (src file_name) disk in
    let d2 = remove_if (compiler_error file_name) d1 in
    let d3 = remove_if (exe file_name) d2 in
    let d4 = remove_if (stdin file_name) d3 in
    let d5 = remove_if (stdout file_name) d4 in remove_if (stderr file_name) d5

-- What `Start` reads out of the request.
pub record Submission : Type 0 where
  pub code : Text
  pub input : Text
  pub cpu_limit : ℤ
  pub mem_limit : ℤ

-- What a server process keeps between requests: the system, and the counter of `UniqFileName`.
pub record Server : Type 0 where
  pub system : System
  pub next : ℕ

-- `run_result < 0` and `run_result > 0`
abbrev pub status_of_run : ℤ → ℤ
status_of_run r = if int_lt r (pos 0) then negsuc 1 else if int_lt (pos 0) r then r else pos 0

-- From the two source files to the label END.
unfoldable pub compile_and_run : Host → Submission → Text → System → System × ℤ
compile_and_run host q file_name s =
    let (d1, wrote_source) = write_file host.opens s.disk (src file_name) q.code in
    if wrote_source
    then (let (d2, wrote_input) = write_file host.opens d1 (stdin file_name) q.input in
        if wrote_input
        then (let (s3, compiled) = compile host (record s { disk = d2 }) file_name in
            if compiled
            then (let (s4, r) = run host s3 file_name q.cpu_limit q.mem_limit in
                (s4, status_of_run r))
            else (s3, negsuc 2))
        else (record s { disk = d2 }, negsuc 1))
    else (record s { disk = d1 }, negsuc 1)

-- `code.size() == 0`
abbrev pub is_empty : Text → Bool
is_empty [] = true
is_empty (c ∷ s) = false

-- What has happened when END is reached: the state, the file name, which stays empty for an empty
-- submission, and the status code.
pub record Ended : Type 0 where
  pub server : Server
  pub file_name : Text
  pub status_code : ℤ

unfoldable pub reach_end : Host → ℕ → Submission → Server → Ended
reach_end host ms q v =
    let (next, file_name) = uniq_file_name ms v.next in
    let (system, status) = compile_and_run host q file_name v.system in
    if is_empty q.code
    then record { server = v; file_name = []; status_code = negsuc 0 }
    else record {
      server = record { system = system; next = next };
      file_name = file_name;
      status_code = status;
    }

-- The members of the answer
unfoldable pub answer : Ended → Object
unfolding code_to_desc
answer e =
    let disk = e.server.system.disk in
    let streams =
      (text "stdout", string (read_file disk (stdout e.file_name) true).0)
      ∷ (text "stderr", string (read_file disk (stderr e.file_name) true).0)
      ∷ [] in
    (text "status", int e.status_code)
    ∷ (text "reason", string (code_to_desc disk e.status_code e.file_name))
    ∷ (if is_zero e.status_code then streams else [])

-- After END: the files go.
unfoldable pub clean_up : Ended → Server
unfolding remove_temp_file
clean_up e =
    let system = e.server.system in
    record e.server { system = record system { disk = remove_temp_file e.file_name system.disk } }

module _ (json : JsonCpp) where
  open json use {Value, parse, get_string, get_int, write}

  -- The conversions at the head of `Start`; what they throw leaves `Start` before it has done
  -- anything.
  unfoldable pub read_submission : Text → Result Submission
  read_submission in_json = do
    let in_value = (parse in_json).1
    code ← get_string in_value (text "code")
    input ← get_string in_value (text "input")
    cpu_limit ← get_int in_value (text "cpu_limit")
    mem_limit ← get_int in_value (text "mem_limit")
    ok (record { code = code; input = input; cpu_limit = cpu_limit; mem_limit = mem_limit })

  -- `Start`: the new state and the answer's text
  unfoldable pub start : Host → ℕ → Text → Server → Result (Server × Text)
  unfolding read_submission reach_end answer clean_up
  start host ms in_json v = do
    q ← read_submission in_json
    let e = reach_end host ms q v
    ok (clean_up e, write (answer e))

  -- The handler of /compile_and_run: an empty body gets no content.
  unfoldable pub handle_compile_and_run : Host → ℕ → Text → Server → Result (Server × Option Text)
  unfolding start
  handle_compile_and_run host ms [] v = ok (v, none)
  handle_compile_and_run host ms (c ∷ body) v = do
    (v', out) ← start host ms (c ∷ body) v
    ok (v', some out)
