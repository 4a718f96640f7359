-- ===== src/CompileServer/Job/Cleanup.antt =====
-- compile_server/compile_run.hpp: what a submission leaves on the disk.
use distributed_oj.Base.{
  ℕ, ◌≡◌, ◌∙◌, Bool, false, ◌||◌, inl, inr, Option, none, some, refl, Text, text_eq, text_eq_iff,
  arith, if◌then◌else◌, Bool-cases, else_congr,
}
use distributed_oj.Comm.Int.{ℤ}
use distributed_oj.Comm.Paths.{src, exe, compiler_error, stderr, stdin, stdout}
use distributed_oj.Comm.Files.{Disk, put, write_file, uniq_file_name}
use distributed_oj.CompileServer.Runner.{
  Host, System, content, create, create_if, overwrite, gpp_writes, compile_child, compile,
  open_streams, run_child, run,
}
use distributed_oj.CompileServer.Job.{
  Submission, Server, is_empty, remove_if, remove_temp_file, compile_and_run, reach_end, clean_up,
}

-- The paths that belong to the submission of that file name.
abbrev pub is_temp : Text → Text → Bool
is_temp file_name p =
    text_eq (src file_name) p
    || (text_eq (compiler_error file_name) p
        || (text_eq (exe file_name) p
            || (text_eq (stdin file_name) p
                || (text_eq (stdout file_name) p || text_eq (stderr file_name) p))))

-- Programs leave that path as they find it.
abbrev pub Spares : Host → Text → Type 0
Spares host p =
    (program input : Text) (limits : Option (ℕ × ℕ)) (d : Disk)
    → host.leaves program input limits d p ≡ d p

remove_if_lem :
    (path : Text) (disk : Disk) (p : Text)
    → remove_if path disk p ≡ (if text_eq path p then none else disk p)
unfolding remove_if
remove_if_lem path disk p = ground (arith, text_eq_iff path p)

-- Exactly the six files go.
pub remove_temp_file_lem :
    (file_name : Text) (disk : Disk) (p : Text)
    → remove_temp_file file_name disk p ≡ (if is_temp file_name p then none else disk p)
unfolding remove_temp_file
remove_temp_file_lem file_name disk p = simp remove_if_lem (ground arith)

overwrite-keeps :
    (path p : Text)
    → text_eq path p ≡ false
    → (d : Disk) (new : Text) → overwrite d path new p ≡ d p
unfolding overwrite
overwrite-keeps path p e d new = rw e

create_if-keeps :
    (host : Host) (p path : Text)
    → text_eq path p ≡ false
    → (d : Disk) → create_if host path d p ≡ d p
unfolding create_if
create_if-keeps host p path e d = ground arith

-- A path that is none of the six differs from each.
pub others :
    (f p : Text)
    → is_temp f p ≡ false
    → (text_eq (src f) p ≡ false)
      × (text_eq (compiler_error f) p ≡ false)
      × (text_eq (exe f) p ≡ false)
      × (text_eq (stdin f) p ≡ false)
      × (text_eq (stdout f) p ≡ false)
      × (text_eq (stderr f) p ≡ false)
others f p h = ground arith

module _ (host : Host) (f p : Text) (h : is_temp f p ≡ false) where
  gpp_writes-keeps : (d : Disk) (made : Option (Option Text × Text)) → gpp_writes d f made p ≡ d p
  unfolding gpp_writes overwrite put
  gpp_writes-keeps d none = refl
  gpp_writes-keeps d (some (none, messages)) = ground arith
  gpp_writes-keeps d (some (some program, messages)) = ground arith

  compile_child-keeps : (d : Disk) → compile_child host d f p ≡ d p
  unfolding compile_child create
  compile_child-keeps d =
      ground (
        arith,
        gpp_writes-keeps (create d (compiler_error f)) (host.gpp (src f) (content d (src f))),
      )

  pub compile-keeps : (s : System) → (compile host s f).0.disk p ≡ s.disk p
  unfolding compile
  compile-keeps s = ground (arith, compile_child-keeps s.disk)

  open_streams-keeps : (d : Disk) → open_streams host f d p ≡ d p
  unfolding open_streams
  open_streams-keeps d =
      let ne = others f p h in
      create_if-keeps host p (stderr f) ne.5
        (create_if host (stdout f) (create_if host (stdin f) d))
      ∙ create_if-keeps host p (stdout f) ne.4 (create_if host (stdin f) d)
      ∙ create_if-keeps host p (stdin f) ne.3 d

  run_child-keeps :
      Spares host p → (d : Disk) (cpu mem : ℤ) → (run_child host d f cpu mem).0 p ≡ d p
  unfolding run_child
  run_child-keeps spared d cpu mem =
      let ne = others f p h in
      spared _ _ _ _ ∙ overwrite-keeps (stderr f) p ne.5 _ _ ∙ overwrite-keeps (stdout f) p ne.4 d _

  pub run-keeps :
      Spares host p → (s : System) (cpu mem : ℤ) → (run host s f cpu mem).0.disk p ≡ s.disk p
  unfolding run
  run-keeps spared s cpu mem = ground (
    arith,
    open_streams-keeps s.disk,
    run_child-keeps spared (open_streams host f s.disk) cpu mem,
  )

  pub write_file-keeps :
      (path : Text)
      → text_eq path p ≡ false
      → (d : Disk) (code : Text) → (write_file host.opens d path code).0 p ≡ d p
  unfolding write_file
  write_file-keeps path e d code = ground arith

  compile_and_run-keeps :
      Spares host p
      → (q : Submission) (s : System) → (compile_and_run host q f s).0.disk p ≡ s.disk p
  unfolding compile_and_run
  compile_and_run-keeps spared q s =
      let ne = others f p h in
      let d1 = (write_file host.opens s.disk (src f) q.code).0 in
      let d2 = (write_file host.opens d1 (stdin f) q.input).0 in
      let s3 = (compile host (record s { disk = d2 }) f).0 in
      ground (
        arith,
        write_file-keeps (src f) ne.0 s.disk q.code,
        write_file-keeps (stdin f) ne.3 d1 q.input,
        compile-keeps (record s { disk = d2 }),
        run-keeps spared s3 q.cpu_limit q.mem_limit,
      )

reach_end-keeps :
    (host : Host) (ms : ℕ) (q : Submission) (v : Server) (p : Text)
    → Spares host p
    → is_temp (reach_end host ms q v).file_name p ≡ false
    → (reach_end host ms q v).server.system.disk p ≡ v.system.disk p
unfolding reach_end
reach_end-keeps host ms q v p spared h = elim (Bool-cases (is_empty q.code)) [
  | inl none_given ↦ rw (none_given, reach_end)
  | inr given ↦
      let f = (uniq_file_name ms v.next).1 in
      let outside : is_temp f p ≡ false = rw (given, reach_end) at h in
      rw (given, reach_end) (compile_and_run-keeps host f p outside spared q v.system)
]

pub clean_up-reach_end :
    (host : Host) (ms : ℕ) (q : Submission) (v : Server) (p : Text)
    → (is_temp (reach_end host ms q v).file_name p ≡ false → Spares host p)
    → let e = reach_end host ms q v in
      (clean_up e).system.disk p ≡ (if is_temp e.file_name p then none else v.system.disk p)
unfolding clean_up
clean_up-reach_end host ms q v p spared =
    let e = reach_end host ms q v in
    remove_temp_file_lem e.file_name e.server.system.disk p
    ∙ else_congr (is_temp e.file_name p) none
        (λ other. reach_end-keeps host ms q v p (spared other) other)
