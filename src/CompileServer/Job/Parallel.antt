-- ===== src/CompileServer/Job/Parallel.antt =====
-- compile_server/compile_run.hpp: several calls of Start at once on one disk, in the threads of the
-- HTTP server. Each call goes on by steps of its own; a compilation and a run are one step each:
-- what g++ and a program that is confined read and write are files of that call alone.
pub mod Names
pub mod Local
pub mod Seen
pub mod Alone
pub mod Verdicts
mod Tests
use distributed_oj.Base.{ℕ, List, [], ◌∷◌, ◌==◌, if◌then◌else◌, Text}
use distributed_oj.Comm.Int.{ℤ, negsuc}
use distributed_oj.Comm.Paths.{src, stdin}
use distributed_oj.Comm.Files.{write_file}
use distributed_oj.Json.{Object}
use distributed_oj.CompileServer.Runner.{Host, System, compile, run}
use distributed_oj.CompileServer.Job.{Submission, status_of_run, answer, remove_temp_file}

-- How far a call has come: nothing is written, the source is, the input is too, it is compiled, it
-- has reached END with a status, it has built its answer, and its files are gone.
pub data Phase : Type 0 where
  begun : Phase
  sourced : Phase
  supplied : Phase
  compiled : Phase
  ended : ℤ → Phase
  replied : Object → Phase
  gone : Object → Phase

-- The next step of the call for a submission that is not empty, with its file name
unfoldable pub go_on : Host → Text → Submission → System → Phase → System × Phase
unfolding remove_temp_file
go_on host file_name q s begun =
    let (d, fine) = write_file host.opens s.disk (src file_name) q.code in
    (record s { disk = d }, (if fine then sourced else ended (negsuc 1)))
go_on host file_name q s sourced =
    let (d, fine) = write_file host.opens s.disk (stdin file_name) q.input in
    (record s { disk = d }, (if fine then supplied else ended (negsuc 1)))
go_on host file_name q s supplied =
    let (s', fine) = compile host s file_name in (s', (if fine then compiled else ended (negsuc 2)))
go_on host file_name q s compiled =
    let (s', r) = run host s file_name q.cpu_limit q.mem_limit in (s', ended (status_of_run r))
go_on host file_name q s (ended status_code) = (
  s,
  replied (
      answer (record {
        server = record { system = s; next = 0 };
        file_name = file_name;
        status_code = status_code;
      })),
)
go_on host file_name q s (replied o) =
    (record s { disk = remove_temp_file file_name s.disk }, gone o)
go_on host file_name q s (gone o) = (s, gone o)

-- The system that all share, and how far each call has come
pub record Calls : Type 0 where
  pub system : System
  pub phase : ℕ → Phase

module _ (host : Host) (name : ℕ → Text) (q : ℕ → Submission) where
  -- Call `i` goes on.
  unfoldable pub turn : ℕ → Calls → Calls
  unfolding go_on
  turn i c =
      let (s, next) = go_on host (name i) (q i) c.system (c.phase i) in
      record { system = s; phase = λ j. if i == j then next else c.phase j }

  -- The turns of any schedule, in its order
  unfoldable pub take_turns : List ℕ → Calls → Calls
  unfolding turn
  take_turns [] c = c
  take_turns (i ∷ schedule) c = take_turns schedule (turn i c)
