-- ===== src/CompileServer/Job/Parallel/Seen.antt =====
-- compile_server/compile_run.hpp: a step of a call, on two systems that have the same files of its
-- name, and on the files of another.
use distributed_oj.Base.{◌%◌, ◌≡◌, refl, ◌∙◌, ap, Bool, false, Text, if◌then◌else◌}
use distributed_oj.Comm.Int.{ℤ, pos, negsuc}
use distributed_oj.Comm.Paths.{src, exe, compiler_error, stderr, stdin, stdout}
use distributed_oj.Comm.Files.{write_file}
use distributed_oj.CompileServer.Runner.{Host, System, compile_child, compile, run, all_opened}
use distributed_oj.CompileServer.Job.{Submission, Ended, code_to_desc, answer, status_of_run}
use distributed_oj.CompileServer.Job.Cleanup.{Spares, is_temp, remove_temp_file_lem}
use distributed_oj.CompileServer.Job.Steps.{IsHealthy, IsConfined}
use distributed_oj.CompileServer.Job.Cleanup.{compile-keeps, run-keeps, write_file-keeps, others}
use distributed_oj.CompileServer.Job.Parallel.{
  Phase, begun, sourced, supplied, compiled, ended, replied, gone, go_on,
}
use distributed_oj.CompileServer.Job.Parallel.Local.{
  Agree, exe-is_temp, compiler_error-is_temp, stdout-is_temp, stderr-is_temp, is_file_exits_same,
  write_file-Agree, remove_temp_file-Agree, read_file_same, compile_child-Agree, open_streams-Agree,
  run_child-Agree,
}

-- What a call sees of two systems is the same where their files of its name are.
pub record Same {ℓ} (A : Type ℓ) (f : Text) (r r' : System × A) : Type ℓ where
  pub files : Agree f r.0.disk r'.0.disk
  pub value : r.1 ≡ r'.1

module _ (host : Host) (healthy : IsHealthy host) (confined : IsConfined host) (f : Text)
    (s t : System) (same : Agree f s.disk t.disk) where
  compile-Same : Same Bool f (compile host s f) (compile host t f)
  unfolding compile
  compile-Same =
      let child = compile_child-Agree host f s.disk t.disk same in
      simp healthy.forks_compiler (record {
        files = child;
        value =
            is_file_exits_same (compile_child host s.disk f) (compile_child host t.disk f) (exe f)
              (child (exe f) (exe-is_temp f));
      })

  run-Same : (cpu mem : ℤ) → Same ℤ f (run host s f cpu mem) (run host t f cpu mem)
  unfolding run all_opened
  run-Same cpu mem =
      let child =
        run_child-Agree host f _ _ (open_streams-Agree host f s.disk t.disk same) confined cpu
          mem in
      simp (healthy.opens, healthy.forks_program)
        (record { files = child.0; value = ap (λ status. pos (status % 128)) child.1 })

  code_to_desc-same : (code : ℤ) → code_to_desc s.disk code f ≡ code_to_desc t.disk code f
  unfolding code_to_desc
  code_to_desc-same (pos code) = refl
  code_to_desc-same (negsuc n) =
      rw (read_file_same f s.disk t.disk same (compiler_error f) (compiler_error-is_temp f)) refl

  abbrev ended_in : System → ℤ → Ended
  ended_in v code = record {
    server = record { system = v; next = 0 };
    file_name = f;
    status_code = code;
  }

  answer-same : (code : ℤ) → answer (ended_in s code) ≡ answer (ended_in t code)
  unfolding answer
  answer-same code =
      rw
        (
          code_to_desc-same code,
          read_file_same f s.disk t.disk same (stdout f) (stdout-is_temp f),
          read_file_same f s.disk t.disk same (stderr f) (stderr-is_temp f),
        )
        refl

  pub go_on-Same :
      (q : Submission) (st : Phase) → Same Phase f (go_on host f q s st) (go_on host f q t st)
  unfolding go_on write_file
  go_on-Same q begun = record {
    files = write_file-Agree f s.disk t.disk same host.opens (src f) q.code;
    value = simp healthy.opens refl;
  }
  go_on-Same q sourced = record {
    files = write_file-Agree f s.disk t.disk same host.opens (stdin f) q.input;
    value = simp healthy.opens refl;
  }
  go_on-Same q supplied = record {
    files = compile-Same.files;
    value = ap (λ fine. if fine then compiled else ended (negsuc 2)) compile-Same.value;
  }
  go_on-Same q compiled =
      let r = run-Same q.cpu_limit q.mem_limit in
      record { files = r.files; value = ap (λ c. ended (status_of_run c)) r.value }
  go_on-Same q (ended code) = record { files = same; value = ap replied (answer-same code) }
  go_on-Same q (replied o) = record {
    files = remove_temp_file-Agree f s.disk t.disk same;
    value = refl;
  }
  go_on-Same q (gone o) = record { files = same; value = refl }

-- A file that is not of its name is not touched.
pub go_on-keeps :
    (host : Host) (f p : Text) (q : Submission) (s : System) (st : Phase)
    → Spares host p
    → is_temp f p ≡ false
    → (go_on host f q s st).0.disk p ≡ s.disk p
unfolding go_on
go_on-keeps host f p q s begun spared h =
    write_file-keeps host f p h (src f) (others f p h).0 s.disk q.code
go_on-keeps host f p q s sourced spared h =
    write_file-keeps host f p h (stdin f) (others f p h).3 s.disk q.input
go_on-keeps host f p q s supplied spared h = compile-keeps host f p h s
go_on-keeps host f p q s compiled spared h = run-keeps host f p h spared s q.cpu_limit q.mem_limit
go_on-keeps host f p q s (ended code) spared h = refl
go_on-keeps host f p q s (replied o) spared h = remove_temp_file_lem f s.disk p ∙ rw h refl
go_on-keeps host f p q s (gone o) spared h = refl
