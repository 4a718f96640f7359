-- ===== src/CompileServer/Runner/Status.antt =====
-- How the end of the child becomes the result of Run.
use distributed_oj.Base.{ℕ, ◌+◌, ◌*◌, ◌%◌, ◌<◌, ◌≡◌, ap, Bool, true, Text, arith, if◌then◌else◌}
use distributed_oj.Comm.Int.{ℤ, pos}
use distributed_oj.CompileServer.Runner.{Host, System, run, run_child, open_streams, all_opened}

-- How a child process ends, and the wait status that says so: an exit code, or a signal with a
-- core dump or without.
pub data End : Type 0 where
  exited : ℕ → End
  killed : ℕ → Bool → End

abbrev pub wait_status : End → ℕ
wait_status (exited code) = code * 256
wait_status (killed signal core) = signal + (if core then 128 else 0)

abbrev pub IsEnd : End → Type 0
IsEnd (exited code) = code < 256
IsEnd (killed signal core) = (0 < signal) × (signal < 127)

-- 0 for a program that has exited, whatever its exit code, and the number of the signal that has
-- killed it otherwise.
abbrev pub result_of : End → ℤ
result_of (exited code) = pos 0
result_of (killed signal core) = pos signal

status-end : (e : End) → IsEnd e → pos (wait_status e % 128) ≡ result_of e
status-end (exited code) h = ap pos (omega arith)
status-end (killed signal true) h = ap pos (omega arith)
status-end (killed signal _) h = ap pos (omega arith)

-- Where the three files open and the fork succeeds, `Run` returns 0 exactly for a program that
-- exits, with any exit code, and the signal's number for one that a signal ends.
pub run-end :
    (host : Host) (s : System) (f : Text) (cpu mem : ℤ) (e : End)
    → IsEnd e
    → all_opened host f ≡ true
    → host.forks_program ≡ true
    → (run_child host (open_streams host f s.disk) f cpu mem).1 ≡ wait_status e
    → (run host s f cpu mem).1 ≡ result_of e
unfolding run
run-end host s f cpu mem e h opened forked status = simp (opened, forked, status) (status-end e h)
