-- ===== src/CompileServer/Job/Sequence.antt =====
-- compile_server/compile_run.hpp: one submission after another on the same server.
use distributed_oj.Base.{
  ℕ, ◌≡◌, refl, ◌∙◌, ap, Bool, true, false, List, [], ◌∷◌, Option, none, Text, arith, if◌then◌else◌,
}
use distributed_oj.Comm.Paths.{exe, compiler_error, stdout, stderr}
use distributed_oj.Comm.Files.{Disk, uniq_file_name}
use distributed_oj.Json.{Object}
use distributed_oj.CompileServer.Runner.{Host}
use distributed_oj.CompileServer.Job.{Submission, Server, is_empty, reach_end, answer, clean_up}
use distributed_oj.CompileServer.Job.Steps.{IsHealthy, IsConfined, IsFresh}
use distributed_oj.CompileServer.Job.Outcome.{verdict, answer-verdict}
use distributed_oj.CompileServer.Job.Cleanup.{Spares, is_temp, clean_up-reach_end}

-- The answers to submissions that come at the given times, each after the one before is done.
unfoldable pub serve_all : Host → List (ℕ × Submission) → Server → List Object
serve_all host [] v = []
serve_all host ((ms, q) ∷ rest) v =
    let e = reach_end host ms q v in answer e ∷ serve_all host rest (clean_up e)

-- No leftovers of any submission
abbrev pub IsTidy : Server → Type 0
IsTidy v = (f : Text) → IsFresh f v.system.disk

none_else : (b : Bool) (o : Option Text) → o ≡ none → (if b then none else o) ≡ none
none_else true o h = refl
none_else false o h = h

spares : (host : Host) (p : Text) → IsConfined host → {A : Type 0} → A → Spares host p
spares host p confined a program input limits d =
    ap (λ (k : Disk). k p) (confined.writes_nothing program input limits d)

-- The verdicts, each under the name that UniqFileName makes of the time and the counter. A
-- submission without code asks for no name.
abbrev pub verdicts : Host → List (ℕ × Submission) → ℕ → List Object
verdicts host [] next = []
verdicts host ((ms, q) ∷ rest) next =
    let (next', file_name) = uniq_file_name ms next in
    verdict host file_name q ∷ verdicts host rest (if is_empty q.code then next else next')

next-clean_up :
    (host : Host) (ms : ℕ) (q : Submission) (v : Server)
    → (clean_up (reach_end host ms q v)).next
      ≡ (if is_empty q.code then v.next else (uniq_file_name ms v.next).0)
unfolding reach_end clean_up
next-clean_up host ms q v = ground arith

clean_up-IsTidy :
    (host : Host) (ms : ℕ) (q : Submission) (v : Server)
    → IsConfined host
    → IsTidy v
    → IsTidy (clean_up (reach_end host ms q v))
clean_up-IsTidy host ms q v confined tidy f =
    let e = reach_end host ms q v in
    let still : (p : Text) → v.system.disk p ≡ none → (clean_up e).system.disk p ≡ none = λ p h.
      clean_up-reach_end host ms q v p (spares host p confined)
      ∙ none_else (is_temp e.file_name p) _ h in
    let fresh = tidy f in
    record {
      no_exe = still (exe f) fresh.no_exe;
      no_errors = still (compiler_error f) fresh.no_errors;
      no_stdout = still (stdout f) fresh.no_stdout;
      no_stderr = still (stderr f) fresh.no_stderr;
    }

-- On a host where every system call succeeds and programs find and change no files, a server that
-- starts without leftovers answers every submission of a sequence, however long, with its own
-- verdict, under the file name that it gets: the server's own files carry nothing from one to the
-- next.
pub serve_all-verdict :
    (host : Host) (qs : List (ℕ × Submission)) (v : Server)
    → IsHealthy host
    → IsConfined host
    → IsTidy v
    → serve_all host qs v ≡ verdicts host qs v.next
unfolding serve_all
serve_all-verdict host [] v healthy confined tidy = refl
serve_all-verdict host ((ms, q) ∷ rest) v healthy confined tidy =
    let fresh = tidy (uniq_file_name ms v.next).1 in
    ap (λ a. a ∷ serve_all host rest (clean_up (reach_end host ms q v)))
      (answer-verdict host ms q v healthy confined fresh)
    ∙ ap (◌∷◌ (verdict host (uniq_file_name ms v.next).1 q)) (
        serve_all-verdict host rest (clean_up (reach_end host ms q v)) healthy confined
          (clean_up-IsTidy host ms q v confined tidy)
        ∙ ap (verdicts host rest) (next-clean_up host ms q v))
