-- ===== src/CompileServer/Job/Descriptors.antt =====
-- The descriptors that a submission leaves open in the server process.
use distributed_oj.Base.{zero, ℕ, ◌+◌, ◌≡◌, Text, arith}
use distributed_oj.Comm.Int.{ℤ, negsuc}
use distributed_oj.CompileServer.Runner.{Host, System, run, opened_streams, all_opened}

-- What stays of the opened descriptors after a result of `Run`
abbrev pub leaked : ℤ → ℕ → ℕ
leaked (negsuc zero) opened = opened
leaked result opened = 0

-- Unless `Run` returns -1, all that it has opened is closed again; where it returns -1, because one
-- of its three files could not be opened, the descriptors of the others stay open.
pub descriptors-run :
    (host : Host) (s : System) (f : Text) (cpu mem : ℤ)
    → (run host s f cpu mem).0.descriptors
      ≡ s.descriptors + leaked (run host s f cpu mem).1 (opened_streams host f)
unfolding run all_opened opened_streams
descriptors-run host s f cpu mem = ground arith
