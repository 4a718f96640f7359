-- ===== src/CompileServer/Job/Parallel/Local.antt =====
-- The disk operations of comm/util.hpp, compile_server/compiler.hpp and runner.hpp, on two disks
-- that have the same files of a name.
use distributed_oj.Base.{
  ℕ, ◌≡◌, refl, sym, ◌∙◌, ap, Bool, true, false, [], Option, none, some, Text, text_eq, arith,
  if◌then◌else◌,
}
use distributed_oj.Comm.Int.{ℤ}
use distributed_oj.Comm.Paths.{src, exe, compiler_error, stderr, stdin, stdout}
use distributed_oj.Comm.Paths.Distinct.{text_eq-add_suffix}
use distributed_oj.Comm.Files.{Disk, put, is_file_exits, write_file, read_file, read_lines}
use distributed_oj.CompileServer.Runner.{
  Host, content, create, create_if, overwrite, gpp_writes, compile_child, open_streams, run_child,
  proc_limit,
}
use distributed_oj.CompileServer.Job.{remove_temp_file}
use distributed_oj.CompileServer.Job.Cleanup.{is_temp, remove_temp_file_lem}
use distributed_oj.CompileServer.Job.Steps.{IsConfined, no_files, create_at, overwrite_at}

-- Two disks have the same files of a name.
abbrev pub Agree : Text → Disk → Disk → Type 0
Agree f d e = (p : Text) → is_temp f p ≡ true → d p ≡ e p

module _ (f : Text) where
  pub src-is_temp : is_temp f (src f) ≡ true
  src-is_temp = simp text_eq-add_suffix refl

  pub exe-is_temp : is_temp f (exe f) ≡ true
  exe-is_temp = simp text_eq-add_suffix refl

  pub compiler_error-is_temp : is_temp f (compiler_error f) ≡ true
  compiler_error-is_temp = simp text_eq-add_suffix refl

  pub stdin-is_temp : is_temp f (stdin f) ≡ true
  stdin-is_temp = simp text_eq-add_suffix refl

  pub stdout-is_temp : is_temp f (stdout f) ≡ true
  stdout-is_temp = simp text_eq-add_suffix refl

  pub stderr-is_temp : is_temp f (stderr f) ≡ true
  stderr-is_temp = simp text_eq-add_suffix refl

pub content_same : (d e : Disk) (p : Text) → d p ≡ e p → content d p ≡ content e p
content_same d e p h = ap (λ (o : Option Text). elim o as (λ _. Text) [ none ↦ [] | some s ↦ s ]) h

pub is_file_exits_same : (d e : Disk) (p : Text) → d p ≡ e p → is_file_exits d p ≡ is_file_exits e p
is_file_exits_same d e p h =
    ap (λ (o : Option Text). elim o as (λ _. Bool) [ none ↦ false | some s ↦ true ]) h

module _ (f : Text) (d e : Disk) (same : Agree f d e) where
  put-Agree : (path : Text) (c : Option Text) → Agree f (put d path c) (put e path c)
  unfolding put
  put-Agree path c p own = ap (λ o. if text_eq path p then c else o) (same p own)

  pub write_file-Agree :
      (opens : Text → Bool) (path code : Text)
      → Agree f (write_file opens d path code).0 (write_file opens e path code).0
  unfolding write_file
  write_file-Agree opens path code p own = ground (arith, same p own)

  pub create-Agree : (path : Text) → is_temp f path ≡ true → Agree f (create d path) (create e path)
  create-Agree path mine p own =
      create_at d path p
      ∙ rw (content_same d e path (same path mine), same p own) refl
      ∙ sym (create_at e path p)

  pub overwrite-Agree :
      (path new : Text)
      → is_temp f path ≡ true
      → Agree f (overwrite d path new) (overwrite e path new)
  overwrite-Agree path new mine p own =
      overwrite_at d path p new
      ∙ rw (content_same d e path (same path mine), same p own) refl
      ∙ sym (overwrite_at e path p new)

  create_if-Agree :
      (host : Host) (path : Text)
      → is_temp f path ≡ true
      → Agree f (create_if host path d) (create_if host path e)
  unfolding create_if
  create_if-Agree host path mine p own = ground (arith, create-Agree path mine p own, same p own)

  pub remove_temp_file-Agree : Agree f (remove_temp_file f d) (remove_temp_file f e)
  remove_temp_file-Agree p own =
      remove_temp_file_lem f d p
      ∙ ap (λ o. if is_temp f p then none else o) (same p own)
      ∙ sym (remove_temp_file_lem f e p)

  pub read_file_same : (p : Text) → is_temp f p ≡ true → read_file d p true ≡ read_file e p true
  unfolding read_file
  read_file_same p own =
      ap
        (λ (o : Option Text). elim o as (λ _. Text × Bool) [
          | none ↦ ([], false)
          | some c ↦ (read_lines c true, true)
        ])
        (same p own)

gpp_writes-Agree :
    (f : Text) (made : Option (Option Text × Text)) (d e : Disk)
    → Agree f d e
    → Agree f (gpp_writes d f made) (gpp_writes e f made)
unfolding gpp_writes
gpp_writes-Agree f none d e same = same
gpp_writes-Agree f (some (none, messages)) d e same =
    overwrite-Agree f d e same (compiler_error f) messages (compiler_error-is_temp f)
gpp_writes-Agree f (some (some program, messages)) d e same =
    put-Agree f _ _
      (overwrite-Agree f d e same (compiler_error f) messages (compiler_error-is_temp f)) (exe f)
      (some program)

-- What a program that is confined leaves, and its wait status
abbrev printed : Host → Text → Disk → Text → Text → Option (ℕ × ℕ) → Disk × ℕ
printed host f d program input limits =
    let (out, messages, status) = host.execute program input limits no_files in
    (overwrite (overwrite d (stdout f) out) (stderr f) messages, status)

run_child-confined :
    (host : Host) (f : Text)
    → IsConfined host
    → (d : Disk) (cpu mem : ℤ)
    → run_child host d f cpu mem
      ≡ printed host f d (content d (exe f)) (content d (stdin f)) (proc_limit cpu mem)
unfolding run_child
run_child-confined host f confined d cpu mem =
    let limits = proc_limit cpu mem in
    let program = content d (exe f) in
    let input = content d (stdin f) in
    ap
      (λ (r : Text × Text × ℕ). (
        host.leaves program input limits (overwrite (overwrite d (stdout f) r.0) (stderr f) r.1),
        r.2,
      ))
      (confined.reads_nothing program input limits d no_files)
    ∙ ap (λ (k : Disk). (k, (host.execute program input limits no_files).2))
        (confined.writes_nothing program input limits _)

module _ (host : Host) (f : Text) (d e : Disk) (same : Agree f d e) where
  pub compile_child-Agree : Agree f (compile_child host d f) (compile_child host e f)
  unfolding compile_child
  compile_child-Agree p own =
      let made = host.gpp (src f) (content d (src f)) in
      let made_same : host.gpp (src f) (content e (src f)) ≡ made =
        ap (host.gpp (src f)) (sym (content_same d e (src f) (same (src f) (src-is_temp f)))) in
      let written =
        gpp_writes-Agree f made _ _
          (create-Agree f d e same (compiler_error f) (compiler_error-is_temp f)) p own in
      rw made_same (ground (arith, written, same p own))

  pub open_streams-Agree : Agree f (open_streams host f d) (open_streams host f e)
  unfolding open_streams
  open_streams-Agree =
      create_if-Agree f _ _
        (create_if-Agree f _ _ (create_if-Agree f d e same host (stdin f) (stdin-is_temp f)) host
          (stdout f) (stdout-is_temp f))
        host (stderr f) (stderr-is_temp f)

  pub run_child-Agree :
      IsConfined host
      → (cpu mem : ℤ)
      → Agree f (run_child host d f cpu mem).0 (run_child host e f cpu mem).0
        × ((run_child host d f cpu mem).1 ≡ (run_child host e f cpu mem).1)
  run_child-Agree confined cpu mem =
      let program = content_same e d (exe f) (sym (same (exe f) (exe-is_temp f))) in
      let input = content_same e d (stdin f) (sym (same (stdin f) (stdin-is_temp f))) in
      rw
        (
          run_child-confined host f confined d cpu mem,
          run_child-confined host f confined e cpu mem,
          program,
          input,
        )
        (
          overwrite-Agree f _ _ (overwrite-Agree f d e same (stdout f) _ (stdout-is_temp f))
              (stderr f) _ (stderr-is_temp f),
          refl,
        )
