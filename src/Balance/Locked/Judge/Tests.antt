-- ===== src/Balance/Locked/Judge/Tests.antt =====
-- The loop of Judge over two machines, of which the second one answers to GET /status.
use distributed_oj.Base.{ℕ, suc, ◌≡◌, refl, inl, inr, some, Text, text, text_eq, Bool-cases}
use distributed_oj.Base.Result.{throws}
use distributed_oj.Comm.HostStatus.{get_memory_usage}
use distributed_oj.Balance.Judge.{Round, judge_loop}
use distributed_oj.Balance.Status.{read_response, read_value}
use distributed_oj.Balance.Locked.{Guarded}
use distributed_oj.Balance.Locked.Judge.{
  LockedRound, ended, waiting, judge_loop_locked, free, ending_of, Agrees,
}
use distributed_oj.Balance.Locked.Judge.Agreement.{judge_loop_locked-eq}
use distributed_oj.Balance.Locked.Judge.Stuck.{judge_loop_locked-stuck}
use distributed_oj.Balance.Locked.Tests.{
  grown_json, fallen_json, two_machines, answers, grown_poll, reading-defined, fallen_at,
}

-- Every post is answered with the text OK.
abbrev locked : ℕ → LockedRound
locked t = record { answers = answers; post = λ ip port body. some (200, text "OK") }

abbrev net : ℕ → Round
net t = record { poll = grown_poll; post = λ ip port body. some (200, text "OK") }

locked-Agrees : (t : ℕ) → Agrees grown_json (locked t) (net t)
unfolding read_response read_value get_memory_usage
locked-Agrees t = record {
  read = λ ip port. elim (Bool-cases (text_eq ip (text "b"))) [
    | inl second ↦ rw second refl
    | inr other ↦ rw other refl
  ];
  posts = λ ip port body. refl;
}

judge_loop_locked-eq_example :
    judge_loop_locked grown_json locked (text "code") 3 0 (free two_machines)
    ≡ ending_of (judge_loop net (text "code") 3 0 two_machines)
judge_loop_locked-eq_example =
    judge_loop_locked-eq grown_json locked net (text "code") 3 0 two_machines locked-Agrees

judge_loop_locked-stuck_example :
    (why : Text) × (g : Guarded) × (judge_loop_locked fallen_json locked
        (text "code")
        3
        0
        (free two_machines)
      ≡ ended (throws why) g)
    × ((later : ℕ → LockedRound) (other : Text) (fuel t : ℕ)
        → judge_loop_locked fallen_json later other (suc fuel) t g ≡ waiting)
judge_loop_locked-stuck_example =
    judge_loop_locked-stuck fallen_json locked (text "code") 2 0 two_machines 1
      (text "double out of UInt64 range") reading-defined refl fallen_at
