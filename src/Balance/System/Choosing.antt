-- ===== src/Balance/System/Choosing.antt =====
-- oj_server/oj_control.hpp, LoadBalance::SmartChoice: its steps where no other thread comes between.
use distributed_oj.Base.{ℕ, List, ◌∷◌, ◌++◌, Option, none, some}
use distributed_oj.Balance.{LoadBalance, Poll}
use distributed_oj.Balance.System.{Stage, chosen, left, Network, Judging}

-- Where SmartChoice leaves a thread
abbrev pub chosen_stage : Option ℕ → Stage
chosen_stage none = left none
chosen_stage (some id) = chosen id

module _ (net : Network) (answers : Poll) (p : net.Polls answers) (before after : List Stage) where
  abbrev pub stands : LoadBalance → Stage → Judging
  stands lb w = record { balance = lb; threads = before ++ (w ∷ after) }
