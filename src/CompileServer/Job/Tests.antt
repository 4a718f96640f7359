-- ===== src/CompileServer/Job/Tests.antt =====
-- A host on which every call succeeds, two submissions, and the theorems about them.
use distributed_oj.Base.{
  ◌+◌, ◌≡◌, ◌↔◌, ◌*◌, ◌<◌, ◌^◌, refl, true, not, [], ◌∷◌, none, some, Text, text, text_eq, arith,
  if◌then◌else◌,
}
use distributed_oj.Comm.Int.{pos}
use distributed_oj.Comm.Paths.{add_suffix}
use distributed_oj.Comm.Files.{uniq_file_name, read_lines}
use distributed_oj.Json.{string, int}
use distributed_oj.CompileServer.Runner.{
  Host, System, run, run_child, proc_limit, open_streams, opened_streams, all_opened, overwrite,
}
use distributed_oj.CompileServer.Runner.Limits.{mem_limit_iff}
use distributed_oj.CompileServer.Runner.Status.{killed, run-end}
use distributed_oj.CompileServer.Job.{Submission, Server, reach_end, answer, success_desc}
use distributed_oj.CompileServer.Job.Steps.{IsHealthy, IsConfined, IsFresh}
use distributed_oj.CompileServer.Job.Outcome.{verdict, answer-verdict}
use distributed_oj.CompileServer.Job.Sequence.{serve_all, verdicts, serve_all-verdict}
use distributed_oj.CompileServer.Job.Descriptors.{leaked, descriptors-run}

-- Its compiler knows one program, which copies its input; status 139 is a segmentation fault.
abbrev pub lab : Host
lab = record {
  opens = λ path. true;
  forks_compiler = true;
  forks_program = true;
  gpp = λ path source.
      if text_eq source (text "cat") then some (some (text "CAT"), []) else some (none, text "bad");
  execute = λ program input limits d.
      if text_eq input (text "crash") then ([], [], 139) else (input, [], 256);
  leaves = λ program input limits d. d;
}

abbrev pub empty_server : Server
empty_server = record { system = record { disk = λ path. none; descriptors = 3 }; next = 6 }

abbrev copy : Submission
copy = record { code = text "cat"; input = text "hi"; cpu_limit = pos 1; mem_limit = pos 30000 }

pub lab-IsHealthy : IsHealthy lab
lab-IsHealthy = record { opens = λ path. refl; forks_compiler = refl; forks_program = refl }

pub lab-IsConfined : IsConfined lab
lab-IsConfined = record {
  reads_nothing = λ program input limits d e. refl;
  writes_nothing = λ program input limits d. refl;
}

pub empty-IsFresh : (f : Text) → IsFresh f empty_server.system.disk
empty-IsFresh f = record { no_exe = refl; no_errors = refl; no_stdout = refl; no_stderr = refl }

copy_test :
    verdict lab (text "100_7") copy
    ≡ (text "status", int (pos 0))
      ∷ (text "reason", string success_desc)
      ∷ (text "stdout", string (text "hi\n"))
      ∷ (text "stderr", string [])
      ∷ []
unfolding read_lines proc_limit
copy_test = refl

answer-verdict_example :
    answer (reach_end lab 100 copy empty_server)
    ≡ verdict lab (uniq_file_name 100 empty_server.next).1 copy
answer-verdict_example =
    answer-verdict lab 100 copy empty_server lab-IsHealthy lab-IsConfined
      (empty-IsFresh (uniq_file_name 100 empty_server.next).1)

mem_limit_iff_example :
    (proc_limit (pos 1) (pos 5000000) ≡ some (1, 5000000 * 1024)) ↔ (5000000 < 2 ^ 21)
mem_limit_iff_example = mem_limit_iff (pos 1) 5000000

-- The input of the program that crashes is on the disk.
abbrev crash_system : System
crash_system = record empty_server.system {
  disk = λ path. if text_eq path (text "./temp/c.stdin") then some (text "crash") else none;
}

run-end_example : (run lab crash_system (text "c") (pos 1) (pos 1)).1 ≡ pos 11
unfolding run_child open_streams all_opened add_suffix overwrite
run-end_example =
    run-end lab crash_system (text "c") (pos 1) (pos 1) (killed 11 true) (omega arith) refl refl
      refl

-- A host on which the file of the standard output cannot be opened.
abbrev no_stdout : Host
no_stdout = record lab { opens = λ path. not (text_eq path (text "./temp/c.stdout")) }

descriptors-run_example :
    (run no_stdout crash_system (text "c") (pos 1) (pos 1)).0.descriptors
    ≡ 3
      + leaked
          (run no_stdout crash_system (text "c") (pos 1) (pos 1)).1
          (opened_streams no_stdout (text "c"))
descriptors-run_example = descriptors-run no_stdout crash_system (text "c") (pos 1) (pos 1)

leak_test : (run no_stdout crash_system (text "c") (pos 1) (pos 1)).0.descriptors ≡ 5
unfolding run all_opened opened_streams add_suffix
leak_test = refl

serve_all-verdict_example :
    serve_all lab ((100, copy) ∷ (100, record copy { input = text "crash" }) ∷ []) empty_server
    ≡ verdicts lab ((100, copy) ∷ (100, record copy { input = text "crash" }) ∷ []) 6
serve_all-verdict_example =
    serve_all-verdict lab ((100, copy) ∷ (100, record copy { input = text "crash" }) ∷ [])
      empty_server lab-IsHealthy lab-IsConfined empty-IsFresh
