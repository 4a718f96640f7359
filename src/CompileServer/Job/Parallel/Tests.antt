-- ===== src/CompileServer/Job/Parallel/Tests.antt =====
-- Two calls that take turns: one submission is accepted, the compiler refuses the other one.
use distributed_oj.Base.{ℕ, ◌≡◌, ◌==◌, refl, List, [], ◌∷◌, Text, sym, text, arith, if◌then◌else◌}
use distributed_oj.Comm.Int.{pos}
use distributed_oj.Comm.Files.{file_name_of}
use distributed_oj.Comm.Files.Names.{file_name_of_injective}
use distributed_oj.CompileServer.Job.{Submission}
use distributed_oj.CompileServer.Job.Outcome.{verdict}
use distributed_oj.CompileServer.Job.Tests.{
  lab, lab-IsHealthy, lab-IsConfined, empty_server, empty-IsFresh,
}
use distributed_oj.CompileServer.Job.Parallel.{gone, take_turns}
use distributed_oj.CompileServer.Job.Parallel.Verdicts.{all_begun, take_turns-verdict}

abbrev good : Submission
good = record { code = text "cat"; input = text "hi"; cpu_limit = pos 1; mem_limit = pos 30000 }

abbrev bad : Submission
bad = record { code = text "dog"; input = text "hi"; cpu_limit = pos 1; mem_limit = pos 30000 }

abbrev submissions : ℕ → Submission
submissions i = if i == 1 then good else bad

abbrev in_turn : List ℕ
in_turn = 1 ∷ 2 ∷ 2 ∷ 1 ∷ 1 ∷ 2 ∷ 1 ∷ 2 ∷ 1 ∷ 1 ∷ 2 ∷ []

abbrev same_time : ℕ → ℕ
same_time i = 100

abbrev own_value : ℕ → ℕ
own_value i = i

abbrev names : ℕ → Text
names i = file_name_of (same_time i) (own_value i)

take_turns-verdict_example :
    (take_turns lab names submissions in_turn (all_begun empty_server.system)).phase 1
    ≡ gone (verdict lab (names 1) good)
take_turns-verdict_example =
    take_turns-verdict lab same_time own_value submissions empty_server.system in_turn 1
      lab-IsHealthy lab-IsConfined
      (λ j other same. other (sym (file_name_of_injective 100 100 1 j same)))
      (empty-IsFresh (names 1)) refl (omega arith)
