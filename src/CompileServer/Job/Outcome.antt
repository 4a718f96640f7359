-- ===== src/CompileServer/Job/Outcome.antt =====
-- What a submission is answered, against a description that knows of no file.
use distributed_oj.Base.{
  ℕ, ◌%◌, ◌≡◌, refl, ◌∙◌, true, inl, inr, [], ◌∷◌, Option, none, some, Text, text, ◌==◌, arith,
  if◌then◌else◌, Bool-cases,
}
use distributed_oj.Comm.Int.{ℤ, pos, negsuc}
use distributed_oj.Comm.Paths.{src, compiler_error, stderr, stdout}
use distributed_oj.Comm.Files.{Disk, read_file, read_lines, uniq_file_name}
use distributed_oj.Json.{Object, string, int}
use distributed_oj.CompileServer.Runner.{Host, proc_limit}
use distributed_oj.CompileServer.Job.{
  Submission, Server, Ended, is_empty, status_of_run, compile_and_run, reach_end, answer,
  success_desc, signal_desc,
}
use distributed_oj.CompileServer.Job.Steps.{
  IsHealthy, IsConfined, no_files, IsFresh, compile_refused, compile_unstarted, accepted,
}

abbrev reply : ℤ → Text → Object
reply status reason = (text "status", int status) ∷ (text "reason", string reason) ∷ []

-- The answer for a program that has ended with a wait status: the signal, or what it has printed.
abbrev pub ending : Text → Text → ℕ → Object
ending out errors signal =
    if signal == 0
    then (text "status", int (pos 0))
      ∷ (text "reason", string success_desc)
      ∷ (text "stdout", string (read_lines out true))
      ∷ (text "stderr", string (read_lines errors true))
      ∷ []
    else reply (pos signal) (signal_desc signal)

abbrev pub verdict_of : Host → Submission → Option (Option Text × Text) → Object
verdict_of host q none = reply (negsuc 2) []
verdict_of host q (some (none, messages)) = reply (negsuc 2) (read_lines messages true)
verdict_of host q (some (some program, messages)) =
    let limits = proc_limit q.cpu_limit q.mem_limit in
    let (out, errors, status) = host.execute program q.input limits no_files in
    ending out errors (status % 128)

-- What the compiler and the program make of a submission under a file name, which g++ is shown.
abbrev pub verdict : Host → Text → Submission → Object
verdict host f q =
    if is_empty q.code
    then reply (negsuc 0) (text "提交代码为空")
    else verdict_of host q (host.gpp (src f) q.code)

read_there :
    (d : Disk) (p : Text) {c : Text} → d p ≡ some c → (read_file d p true).0 ≡ read_lines c true
unfolding read_file
read_there d p e = rw (e, read_file)

status_of_run-pos : (n : ℕ) → status_of_run (pos n) ≡ pos n
status_of_run-pos n = ground arith

answer-failed :
    (e : Ended) (messages : Text)
    → e.status_code ≡ negsuc 2
    → e.server.system.disk (compiler_error e.file_name) ≡ some messages
    → answer e ≡ reply (negsuc 2) (read_lines messages true)
unfolding answer
answer-failed e messages st there =
    rw st (rw (read_there e.server.system.disk (compiler_error e.file_name) there))

answer-ended :
    (e : Ended) (out errors : Text) (signal : ℕ)
    → e.status_code ≡ pos signal
    → e.server.system.disk (stdout e.file_name) ≡ some out
    → e.server.system.disk (stderr e.file_name) ≡ some errors
    → answer e ≡ ending out errors signal
unfolding answer
answer-ended e out errors signal st o r =
    let disk = e.server.system.disk in
    rw (st, read_there disk (stdout e.file_name) o, read_there disk (stderr e.file_name) r)
      (ground arith)

module _ (host : Host) (healthy : IsHealthy host) (confined : IsConfined host) (q : Submission)
    (f : Text) (v : Server) (fresh : IsFresh f v.system.disk) where
  abbrev ended : Ended
  ended =
      let (system, status) = compile_and_run host q f v.system in
      record { server = record v { system = system }; file_name = f; status_code = status }

  pub answer-verdict_of :
      (made : Option (Option Text × Text))
      → host.gpp (src f) q.code ≡ made
      → answer ended ≡ verdict_of host q made
  unfolding read_lines
  answer-verdict_of none e =
      let (st, there) = compile_unstarted host healthy confined q f v.system fresh e in
      answer-failed ended [] st there
  answer-verdict_of (some (none, messages)) e =
      let (st, there) = compile_refused host healthy confined q f v.system fresh messages e in
      answer-failed ended messages st there
  answer-verdict_of (some (some program, messages)) e =
      let limits = proc_limit q.cpu_limit q.mem_limit in
      let x = host.execute program q.input limits no_files in
      let (st, o, r) =
        accepted host healthy confined q f v.system fresh program messages x.0 x.1 x.2 e refl in
      answer-ended ended x.0 x.1 (x.2 % 128) (st ∙ status_of_run-pos (x.2 % 128)) o r

-- On a host where every system call succeeds and programs find and change no files, and with a file
-- name that is still free, the answer to a submission is the verdict: a status of -1 for no code, of
-- -3 with the compiler's messages where there is no executable, the signal that has ended the
-- program, or 0 with what the program has printed on its two streams.
pub answer-verdict :
    (host : Host) (ms : ℕ) (q : Submission) (v : Server)
    → IsHealthy host
    → IsConfined host
    → IsFresh (uniq_file_name ms v.next).1 v.system.disk
    → answer (reach_end host ms q v) ≡ verdict host (uniq_file_name ms v.next).1 q
unfolding reach_end answer
answer-verdict host ms q v healthy confined fresh = elim (Bool-cases (is_empty q.code)) [
  | inl no_code ↦ rw no_code
  | inr code ↦
      rw code
        (answer-verdict_of host healthy confined q (uniq_file_name ms v.next).1 v fresh _ refl)
]
