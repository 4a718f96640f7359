-- ===== src/CompileServer/Runner/Limits.antt =====
-- The memory limit that SetProcLimit sets.
use distributed_oj.Base.{ℕ, ◌*◌, ◌<◌, ◌^◌, ◌≡◌, ◌↔◌, some, arith}
use distributed_oj.Comm.Int.{ℤ, pos}
use distributed_oj.CompileServer.Runner.{proc_limit, to_rlim}

-- A memory limit of `mem` kilobytes is set as `mem` kilobytes exactly when `mem` is less than 2^21:
-- from there on the product with 1024 leaves the range of `int`, which is undefined behaviour.
pub mem_limit_iff :
    (cpu : ℤ) (mem : ℕ)
    → (proc_limit cpu (pos mem) ≡ some (to_rlim cpu, mem * 1024)) ↔ (mem < 2 ^ 21)
unfolding proc_limit
mem_limit_iff cpu mem = (λ e. ground arith, λ small. ground arith)
