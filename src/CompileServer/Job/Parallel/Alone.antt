-- ===== src/CompileServer/Job/Parallel/Alone.antt =====
-- compile_server/compile_run.hpp: a call that goes on without any other.
use distributed_oj.Base.{
  ℕ, zero, suc, ◌≤◌, ◌≡◌, refl, ◌∙◌, ap, sym, Bool, true, false, some, Text, arith, if◌then◌else◌,
}
use distributed_oj.Comm.Int.{ℤ, negsuc}
use distributed_oj.Comm.Paths.{src}
use distributed_oj.Comm.Files.{put, write_file}
use distributed_oj.Json.{Object}
use distributed_oj.CompileServer.Runner.{Host, System, compile, run}
use distributed_oj.CompileServer.Job.{Submission, Ended, answer, compile_and_run, status_of_run}
use distributed_oj.CompileServer.Job.Steps.{
  IsHealthy, IsConfined, IsFresh, with_sources, compile_and_run-healthy,
}
use distributed_oj.CompileServer.Job.Outcome.{verdict_of, answer-verdict_of}
use distributed_oj.CompileServer.Job.Parallel.{
  Phase, begun, sourced, supplied, compiled, ended, gone, go_on,
}

module _ (host : Host) (f : Text) (q : Submission) where
  -- So many steps
  unfoldable pub alone : ℕ → System × Phase → System × Phase
  unfolding go_on
  alone zero r = r
  alone (suc n) r = alone n (go_on host f q r.0 r.1)

  alone-gone : (n : ℕ) (s : System) (o : Object) → (alone n (s, gone o)).1 ≡ gone o
  unfolding alone
  alone-gone zero s o = refl
  alone-gone (suc n) s o = alone-gone n s o

  -- From a compilation on, three steps are enough.
  after_compile :
      (n : ℕ) (s : System) (fine : Bool)
      → (alone (suc (suc (suc n))) (s, (if fine then compiled else ended (negsuc 2)))).1
        ≡ gone (
            let (s', code) : System × ℤ =
              if fine
              then (let (s4, r) = run host s f q.cpu_limit q.mem_limit in (s4, status_of_run r))
              else (s, negsuc 2) in
            answer (record {
              server = record { system = s'; next = 0 };
              file_name = f;
              status_code = code;
            }))
  unfolding alone
  after_compile n s true = alone-gone n _ _
  after_compile n s false = alone-gone (suc n) _ _

  module _ (healthy : IsHealthy host) (confined : IsConfined host) (s : System) where
    write_source :
        go_on host f q s begun ≡ (record s { disk = put s.disk (src f) (some q.code) }, sourced)
    unfolding go_on write_file
    write_source = simp healthy.opens refl

    abbrev source_only : System
    source_only = record s { disk = put s.disk (src f) (some q.code) }

    write_input :
        go_on host f q source_only sourced ≡ (record s { disk = with_sources s.disk f q }, supplied)
    unfolding go_on write_file
    write_input = simp healthy.opens refl

    abbrev ended_by : System × ℤ → Ended
    ended_by (s', code) = record {
      server = record { system = s'; next = 0 };
      file_name = f;
      status_code = code;
    }

    alone-answer :
        (n : ℕ)
        → (alone (suc (suc (suc (suc (suc (suc n)))))) (s, begun)).1
          ≡ gone (answer (ended_by (compile_and_run host q f s)))
    unfolding alone
    alone-answer n =
        let c = compile host (record s { disk = with_sources s.disk f q }) f in
        ap (λ (r : System × Phase). (alone (suc (suc (suc (suc (suc n))))) r).1) write_source
        ∙ ap (λ (r : System × Phase). (alone (suc (suc (suc (suc n)))) r).1) write_input
        ∙ after_compile n c.0 c.1
        ∙ sym (
            ap (λ r. gone (answer (ended_by r)))
              (compile_and_run-healthy host healthy confined q f s c refl))

    pub alone-verdict :
        (n : ℕ)
        → IsFresh f s.disk
        → 6 ≤ n
        → (alone n (s, begun)).1 ≡ gone (verdict_of host q (host.gpp (src f) q.code))
    alone-verdict (suc (suc (suc (suc (suc (suc n)))))) fresh h =
        alone-answer n
        ∙ ap gone (
            answer-verdict_of host healthy confined q f (record { system = s; next = 0 }) fresh
              (host.gpp (src f) q.code) refl)
    alone-verdict zero fresh h = absurd (omega arith)
    alone-verdict (suc zero) fresh h = absurd (omega arith)
    alone-verdict (suc (suc zero)) fresh h = absurd (omega arith)
    alone-verdict (suc (suc (suc zero))) fresh h = absurd (omega arith)
    alone-verdict (suc (suc (suc (suc zero)))) fresh h = absurd (omega arith)
    alone-verdict (suc (suc (suc (suc (suc zero))))) fresh h = absurd (omega arith)
