-- ===== src/Balance/Judge/Tests.antt =====
-- Networks on which a machine answers, and the theorems about the loop at them.
use mathlib.Core.List.Perm
use distributed_oj.Base.{
  if◌then◌else◌, text_eq, ℕ, ◌≡◌, refl, [], ◌∷◌, Option, none, some, Text, text, arith,
}
use distributed_oj.Comm.Int.{pos}
use distributed_oj.Balance.{LoadBalance}
use distributed_oj.Balance.Partition.{IsPartition}
use distributed_oj.Balance.Judge.{Round, judge_loop}
use distributed_oj.Balance.Judge.Safety.{
  Returns, IsAnswer, judge_loop-IsPartition, judge_loop-IsAnswer,
}
use distributed_oj.Balance.Judge.Termination.{judge_loop_ends}
use distributed_oj.Balance.Judge.Livelock.{judge_loop_spins}

abbrev pair : LoadBalance
pair = record {
  machines =
      record { ip = text "a"; port = pos 8081; load = 0 }
      ∷ record { ip = text "b"; port = pos 8082; load = 0 }
      ∷ [];
  online = 0 ∷ 1 ∷ [];
  offline = [];
}

-- No machine tells its load, and only the second answers a post.
abbrev half_down : Round
half_down = record {
  poll = λ ip port. none;
  post = λ ip port body. if text_eq ip (text "b") then some (200, text "done") else none;
}

-- Every post is answered by the same status.
abbrev always : ℕ → Round
always status = record { poll = λ ip port. none; post = λ ip port body. some (status, []) }

judge_loop-IsPartition_test :
    Returns (λ lb out. IsPartition lb) (judge_loop (λ t. half_down) (text "{}") 3 0 pair)
judge_loop-IsPartition_test =
    judge_loop-IsPartition (λ t. half_down) (text "{}") 3 0 pair (Perm.refl (0 ∷ 1 ∷ []))

judge_loop-IsAnswer_example :
    Returns
      (IsAnswer (λ t. half_down) (text "{}"))
      (judge_loop (λ t. half_down) (text "{}") 3 0 pair)
judge_loop-IsAnswer_example = judge_loop-IsAnswer (λ t. half_down) (text "{}") 3 0 pair

judge_loop_ends_example :
    (lb : LoadBalance) × (out : Option Text) × (judge_loop (λ t. always 200) (text "{}") 3 0 pair
      ≡ some (lb, out))
judge_loop_ends_example =
    judge_loop_ends (λ t. always 200) (text "{}") (λ t ip port status body e. cc) 3 0 pair
      (omega arith)

judge_loop_spins_example : judge_loop (λ t. always 500) (text "{}") 9 0 pair ≡ none
judge_loop_spins_example =
    judge_loop_spins (λ t. always 500) (text "{}") (λ t ip port. (500, [], refl, omega arith)) 9 0
      pair (λ e. cc)
