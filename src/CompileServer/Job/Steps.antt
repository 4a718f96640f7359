-- ===== src/CompileServer/Job/Steps.antt =====
-- The steps of one submission on a healthy host, read off the disk.
use distributed_oj.Base.{
  ℕ, zero, suc, ◌+◌, ◌-◌, ◌%◌, ◌≡◌, refl, ◌∙◌, ap, Bool, true, [], ◌++◌, append-nil, Option, none,
  some, Text, text_eq, text_eq_iff, length, arith, if◌then◌else◌,
}
use distributed_oj.Comm.Int.{pos, negsuc}
use distributed_oj.Comm.Paths.{src, exe, compiler_error, stderr, stdin, stdout}
use distributed_oj.Comm.Paths.Distinct.{text_eq-add_suffix}
use distributed_oj.Comm.Files.{Disk, put, is_file_exits, write_file}
use distributed_oj.CompileServer.Runner.{
  Host, System, all_opened, opened_streams, content, drop, create, create_if, overwrite, gpp_writes,
  compile_child, compile, open_streams, run_child, run, proc_limit,
}
use distributed_oj.CompileServer.Job.{Submission, status_of_run, compile_and_run}

-- Every system call of the server succeeds.
pub record IsHealthy (host : Host) : Type 0 where
  pub opens : (path : Text) → host.opens path ≡ true
  pub forks_compiler : host.forks_compiler ≡ true
  pub forks_program : host.forks_program ≡ true

-- Programs find nothing on the disk but their input, and leave its files to the server.
pub record IsConfined (host : Host) : Type 0 where
  pub reads_nothing :
      (program input : Text) (limits : Option (ℕ × ℕ)) (d e : Disk)
      → host.execute program input limits d ≡ host.execute program input limits e
  pub writes_nothing :
      (program input : Text) (limits : Option (ℕ × ℕ)) (d : Disk)
      → host.leaves program input limits d ≡ d

-- A disk without files
abbrev pub no_files : Disk
no_files path = none

-- No file of that name is there yet.
pub record IsFresh (f : Text) (d : Disk) : Type 0 where
  pub no_exe : d (exe f) ≡ none
  pub no_errors : d (compiler_error f) ≡ none
  pub no_stdout : d (stdout f) ≡ none
  pub no_stderr : d (stderr f) ≡ none

-- Each change of the disk, read at a path.
module _ (d : Disk) (path p : Text) where
  pub put_at : (c : Option Text) → put d path c p ≡ (if text_eq path p then c else d p)
  unfolding put
  put_at c = refl

  pub create_at : create d path p ≡ (if text_eq path p then some (content d path) else d p)
  unfolding create
  create_at = ground (arith, text_eq_iff path p)

  pub overwrite_at :
      (new : Text)
      → overwrite d path new p
        ≡ (if text_eq path p then some (new ++ drop (length new) (content d path)) else d p)
  unfolding overwrite
  overwrite_at new = refl

content_of : (d : Disk) (p : Text) {c : Text} → d p ≡ some c → content d p ≡ c
content_of d p e = rw (e, content)

content-none : (d : Disk) (p : Text) → d p ≡ none → content d p ≡ []
content-none d p e = rw (e, content)

-- A write over a file that is empty or not there.
pub text_eq_refl : (a : Text) → text_eq a a ≡ true
text_eq_refl a = (text_eq_iff a a).1 refl

drop-nil : (n : ℕ) → drop n [] ≡ []
drop-nil zero = refl
drop-nil (suc n) = refl

overwrite_new :
    (d : Disk) (path new : Text) → content d path ≡ [] → overwrite d path new path ≡ some new
overwrite_new d path new e = simp (overwrite_at, text_eq_refl, e, drop-nil, append-nil)

-- The disk when the two source files are written.
abbrev pub with_sources : Disk → Text → Submission → Disk
with_sources d f q = put (put d (src f) (some q.code)) (stdin f) (some q.input)

ruleset disk_reads = (put_at, create_at, overwrite_at, text_eq-add_suffix)

abbrev compiled_disk : Disk → Text → Text → Text → Disk
compiled_disk d f program messages =
    put (overwrite (create d (compiler_error f)) (compiler_error f) messages) (exe f) (some program)

abbrev opened_disk : Disk → Text → Disk
opened_disk d f = create (create (create d (stdin f)) (stdout f)) (stderr f)

module _ (host : Host) (healthy : IsHealthy host) (confined : IsConfined host) (q : Submission)
    (f : Text) (s : System) where
  compile-healthy :
      (d : Disk) (made : Option (Option Text × Text))
      → host.gpp (src f) (content d (src f)) ≡ made
      → let d' = gpp_writes (create d (compiler_error f)) f made in
        compile host (record s { disk = d }) f ≡ (record s { disk = d' }, is_file_exits d' (exe f))
  unfolding compile compile_child
  compile-healthy d made e = rw (healthy.forks_compiler, healthy.opens, e)

  pub compile_and_run-healthy :
      (compiled : System × Bool)
      → compile host (record s { disk = with_sources s.disk f q }) f ≡ compiled
      → compile_and_run host q f s ≡ (
          let (s3, done) = compiled in
          if done
          then (let (s4, r) = run host s3 f q.cpu_limit q.mem_limit in (s4, status_of_run r))
          else (s3, negsuc 2))
  unfolding compile_and_run write_file
  compile_and_run-healthy compiled e = simp healthy.opens (rw e)

  content-src : content (with_sources s.disk f q) (src f) ≡ q.code
  content-src = content_of (with_sources s.disk f q) (src f) (simp (put_at, text_eq-add_suffix))

  run-healthy :
      (d : Disk) (program out errors : Text) (status : ℕ)
      → d (exe f) ≡ some program
      → d (stdin f) ≡ some q.input
      → host.execute program q.input (proc_limit q.cpu_limit q.mem_limit) no_files
        ≡ (out, errors, status)
      → run host (record s { disk = d }) f q.cpu_limit q.mem_limit ≡ (
        record {
          disk = overwrite (overwrite (opened_disk d f) (stdout f) out) (stderr f) errors;
          descriptors = s.descriptors + opened_streams host f - 3;
        },
        pos (status % 128),
      )
  unfolding run open_streams create_if run_child all_opened
  run-healthy d program out errors status has_exe has_input x =
      let O : Disk = opened_disk d f in
      let the_exe : O (exe f) ≡ some program = simp (disk_reads, has_exe) in
      let the_input : O (stdin f) ≡ some q.input =
        simp (disk_reads, content_of d (stdin f) has_input) in
      simp (
        healthy.opens,
        healthy.forks_program,
        content_of O (exe f) the_exe,
        content_of O (stdin f) the_input,
        confined.writes_nothing,
        confined.reads_nothing _ _ _ O no_files ∙ x,
      )

  -- Both streams are new files, so that they hold what the program has printed.
  streams-healthy :
      (d : Disk) (out errors : Text)
      → d (stdout f) ≡ none
      → d (stderr f) ≡ none
      → let d' = overwrite (overwrite (opened_disk d f) (stdout f) out) (stderr f) errors in
        (d' (stdout f) ≡ some out) × (d' (stderr f) ≡ some errors)
  streams-healthy d out errors no_out no_err =
      let O : Disk = opened_disk d f in
      let P : Disk = overwrite O (stdout f) out in
      let I : Disk = create d (stdin f) in
      let no_out' : I (stdout f) ≡ none = simp (disk_reads, no_out) in
      let no_err' : create I (stdout f) (stderr f) ≡ none = simp (disk_reads, no_err) in
      let out_empty : O (stdout f) ≡ some [] =
        simp (disk_reads, content-none I (stdout f) no_out') in
      let err_empty : P (stderr f) ≡ some [] =
        simp (disk_reads, content-none (create I (stdout f)) (stderr f) no_err') in
      (
        overwrite_at P (stderr f) (stdout f) errors
            ∙ simp text_eq-add_suffix
                (overwrite_new O (stdout f) out (content_of O (stdout f) out_empty)),
        overwrite_new P (stderr f) errors (content_of P (stderr f) err_empty),
      )

  module _ (fresh : IsFresh f s.disk) where
    -- g++ refuses the source: the status is -3 and its messages are in the error file.
    pub compile_refused :
        (messages : Text)
        → host.gpp (src f) q.code ≡ some (none, messages)
        → ((compile_and_run host q f s).1 ≡ negsuc 2)
          × ((compile_and_run host q f s).0.disk (compiler_error f) ≡ some messages)
    unfolding gpp_writes
    compile_refused messages e =
        let made =
          compile-healthy (with_sources s.disk f q) _ (ap (host.gpp (src f)) content-src ∙ e) in
        let E = create (with_sources s.disk f q) (compiler_error f) in
        let unmade : overwrite E (compiler_error f) messages (exe f) ≡ none =
          simp (disk_reads, fresh.no_exe) in
        let before : with_sources s.disk f q (compiler_error f) ≡ none =
          simp (disk_reads, fresh.no_errors) in
        let empty : content E (compiler_error f) ≡ [] = content_of E (compiler_error f) (
          create_at (with_sources s.disk f q) (compiler_error f) (compiler_error f)
          ∙ simp
              (text_eq_refl, content-none (with_sources s.disk f q) (compiler_error f) before)) in
        rw (compile_and_run-healthy _ made, is_file_exits, unmade)
          (refl, overwrite_new E (compiler_error f) messages empty)

    pub accepted :
        (program messages out errors : Text) (status : ℕ)
        → host.gpp (src f) q.code ≡ some (some program, messages)
        → host.execute program q.input (proc_limit q.cpu_limit q.mem_limit) no_files
          ≡ (out, errors, status)
        → let (s', code) = compile_and_run host q f s in
          (code ≡ status_of_run (pos (status % 128)))
          × (s'.disk (stdout f) ≡ some out)
          × (s'.disk (stderr f) ≡ some errors)
    unfolding gpp_writes
    accepted program messages out errors status e x =
        let D : Disk = with_sources s.disk f q in
        let made = compile-healthy D _ (ap (host.gpp (src f)) content-src ∙ e) in
        let G : Disk = compiled_disk D f program messages in
        let ready : G (exe f) ≡ some program = simp disk_reads in
        let ran = run-healthy G program out errors status ready (simp disk_reads) x in
        let streams =
          streams-healthy G out errors (simp (disk_reads, fresh.no_stdout))
            (simp (disk_reads, fresh.no_stderr)) in
        rw (compile_and_run-healthy _ made, is_file_exits, ready)
          (rw ran (refl, streams.0, streams.1))

    -- g++ cannot be started: the error file stays empty.
    pub compile_unstarted :
        host.gpp (src f) q.code ≡ none
        → ((compile_and_run host q f s).1 ≡ negsuc 2)
          × ((compile_and_run host q f s).0.disk (compiler_error f) ≡ some [])
    unfolding gpp_writes
    compile_unstarted e =
        let D : Disk = with_sources s.disk f q in
        let made = compile-healthy D _ (ap (host.gpp (src f)) content-src ∙ e) in
        let E : Disk = create D (compiler_error f) in
        let unmade : E (exe f) ≡ none = simp (disk_reads, fresh.no_exe) in
        let before : D (compiler_error f) ≡ none = simp (disk_reads, fresh.no_errors) in
        rw (compile_and_run-healthy _ made, is_file_exits, unmade)
          (refl, simp (create_at, text_eq_refl, content-none D (compiler_error f) before))
