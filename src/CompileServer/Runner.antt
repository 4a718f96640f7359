-- ===== src/CompileServer/Runner.antt =====
-- compile_server/runner.hpp and compiler.hpp: the two child processes of one submission.
pub mod Limits
pub mod Status
use distributed_oj.Base.{
  ℕ, zero, suc, ◌+◌, ◌-◌, ◌*◌, ◌%◌, ◌^◌, Bool, true, false, not, ◌&&◌, ◌||◌, List, [], ◌∷◌, ◌++◌,
  Option, none, some, Text, ltb, if◌then◌else◌, length,
}
use distributed_oj.Comm.Int.{ℤ, pos, negsuc}
use distributed_oj.Comm.Paths.{src, exe, compiler_error, stderr, stdin, stdout}
use distributed_oj.Comm.Files.{Disk, put, is_file_exits}

-- The operating system as one submission meets it: which paths `open` accepts, whether each `fork`
-- succeeds, what g++ makes of a path and the source there (an executable, if any, and its messages;
-- `none` where the program g++ cannot be started), and what the executable does with an input, two
-- limits, and a disk: what it prints on its two streams, the wait status that it ends with, and the
-- disk that it leaves, given the one with its streams written. Nothing confines a program: it may
-- read and leave any files. The limits are `none` where setting them is undefined behaviour of the
-- child, which may then do anything.
pub record Host : Type 0 where
  pub opens : Text → Bool
  pub forks_compiler : Bool
  pub forks_program : Bool
  pub gpp : Text → Text → Option (Option Text × Text)
  pub execute : Text → Text → Option (ℕ × ℕ) → Disk → Text × Text × ℕ
  pub leaves : Text → Text → Option (ℕ × ℕ) → Disk → Disk

-- The disk and the number of descriptors that the server process holds open.
pub record System : Type 0 where
  pub disk : Disk
  pub descriptors : ℕ

abbrev pub drop : ℕ → Text → Text
drop zero s = s
drop (suc n) [] = []
drop (suc n) (c ∷ s) = drop n s

abbrev pub content : Disk → Text → Text
content disk path = elim (disk path) [ none ↦ [] | some s ↦ s ]

-- What a file holds after a process has written from its start: `open` does not truncate.
unfoldable pub overwrite : Disk → Text → Text → Disk
unfolding put
overwrite disk path new = put disk path (some (new ++ drop (length new) (content disk path)))

-- `O_CREAT`: a file that is not there is made, empty.
unfoldable pub create : Disk → Text → Disk
unfolding put
create disk path = if is_file_exits disk path then disk else put disk path (some [])

-- What g++ leaves: its messages over the error file, and the executable where it succeeds.
unfoldable pub gpp_writes : Disk → Text → Option (Option Text × Text) → Disk
gpp_writes disk file_name none = disk
gpp_writes disk file_name (some (none, messages)) =
    overwrite disk (compiler_error file_name) messages
gpp_writes disk file_name (some (some program, messages)) =
    put (overwrite disk (compiler_error file_name) messages) (exe file_name) (some program)

-- The child of `Compile`: without an error file it ends before g++ starts.
unfoldable pub compile_child : Host → Disk → Text → Disk
compile_child host disk file_name =
    if host.opens (compiler_error file_name)
    then gpp_writes (create disk (compiler_error file_name)) file_name
        (host.gpp (src file_name) (content disk (src file_name)))
    else disk

-- `Compiler::Compile`
unfoldable pub compile : Host → System → Text → System × Bool
compile host s file_name =
    if host.forks_compiler
    then (let disk = compile_child host s.disk file_name in
        (record s { disk = disk }, is_file_exits disk (exe file_name)))
    else (s, false)

-- An `int` as the unsigned 64-bit `rlim_t`: sign extended.
abbrev pub to_rlim : ℤ → ℕ
to_rlim (pos n) = n % 2 ^ 64
to_rlim (negsuc n) = 2 ^ 64 - 1 - n % 2 ^ 64

-- `_mem*1024` in `int`: undefined where the product is out of range.
unfoldable pub mem_bytes : ℤ → Option ℤ
mem_bytes (pos n) = if ltb (n * 1024) (2 ^ 31) then some (pos (n * 1024)) else none
mem_bytes (negsuc n) =
    if ltb (2 ^ 31) (suc n * 1024) then none else some (negsuc (suc n * 1024 - 1))

-- `SetProcLimit`: the soft limits on seconds and on bytes; `none` where it is undefined.
unfoldable pub proc_limit : ℤ → ℤ → Option (ℕ × ℕ)
unfolding mem_bytes
proc_limit cpu mem = elim (mem_bytes mem) [
  | none ↦ none
  | some bytes ↦ some (to_rlim cpu, to_rlim bytes)
]

abbrev pub as_one : Bool → ℕ
as_one b = if b then 1 else 0

-- An `open` call with `O_CREAT`
unfoldable pub create_if : Host → Text → Disk → Disk
unfolding create
create_if host path disk = if host.opens path then create disk path else disk

-- The three `open` calls of `Run`, each of which makes its file where it can.
unfoldable pub open_streams : Host → Text → Disk → Disk
unfolding create_if
open_streams host file_name disk =
    create_if host (stderr file_name)
      (create_if host (stdout file_name) (create_if host (stdin file_name) disk))

-- How many of them succeed, and whether all do.
unfoldable pub opened_streams : Host → Text → ℕ
opened_streams host file_name =
    as_one (host.opens (stdin file_name))
    + as_one (host.opens (stdout file_name))
    + as_one (host.opens (stderr file_name))

unfoldable pub all_opened : Host → Text → Bool
all_opened host file_name = not (
    not (host.opens (stdin file_name))
    || not (host.opens (stdout file_name))
    || not (host.opens (stderr file_name)))

-- The child of `Run`, under its limits: the disk when it has ended, and its wait status.
unfoldable pub run_child : Host → Disk → Text → ℤ → ℤ → Disk × ℕ
unfolding proc_limit
run_child host disk file_name cpu_limit mem_limit =
    let limits = proc_limit cpu_limit mem_limit in
    let program = content disk (exe file_name) in
    let input = content disk (stdin file_name) in
    let (out, messages, status) = host.execute program input limits disk in
    let printed = overwrite (overwrite disk (stdout file_name) out) (stderr file_name) messages in
    (host.leaves program input limits printed, status)

-- `Runner::Run`; `status & 0x7F` is the remainder by 128.
unfoldable pub run : Host → System → Text → ℤ → ℤ → System × ℤ
run host s file_name cpu_limit mem_limit =
    let disk = open_streams host file_name s.disk in
    let opened = s.descriptors + opened_streams host file_name in
    if all_opened host file_name
    then (if host.forks_program
        then (let (disk', status) = run_child host disk file_name cpu_limit mem_limit in
            (record { disk = disk'; descriptors = opened - 3 }, pos (status % 128)))
        else (record { disk = disk; descriptors = opened - 3 }, negsuc 1))
    else (record { disk = disk; descriptors = opened }, negsuc 0)
