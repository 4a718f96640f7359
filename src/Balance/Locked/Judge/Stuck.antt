-- ===== src/Balance/Locked/Judge/Stuck.antt =====
-- oj_server/oj_control.hpp, Control::Judge under the lock: where a status does not convert.
use distributed_oj.Base.{ℕ, suc, ◌≡◌, ◌≢◌, refl, true, Option, none, some, Text}
use distributed_oj.Base.Result.{Result, ok, throws, undefined}
use distributed_oj.Balance.{LoadBalance, contains}
use distributed_oj.Balance.Status.{StatusJson, Answers, read_response}
use distributed_oj.Balance.Locked.{Guarded, carry_on, smart_choice_locked}
use distributed_oj.Balance.Locked.Agreement.{status_at}
use distributed_oj.Balance.Locked.Stuck.{Operation, choose, call, forget, smart_choice_locked-stuck}
use distributed_oj.Balance.Locked.Judge.{
  LockedRound, waiting, ended, judge_round_locked, judge_loop_locked, free,
}

carry_on-none :
    {A : Type 0} (o : Option (Result A × Guarded))
    → carry_on (λ a g'. some (ok tt, g')) o ≡ none
    → o ≡ none
carry_on-none none e = refl
carry_on-none (some (ok a, g')) e = cc
carry_on-none (some (throws what, g')) e = cc
carry_on-none (some (undefined, g')) e = cc

smart_choice-waits :
    (json : StatusJson) (answers : Answers) (g : Guarded)
    → ((c : Operation) → call c g ≡ none)
    → smart_choice_locked json answers g ≡ none
unfolding call forget
smart_choice-waits json answers g stuck =
    carry_on-none (smart_choice_locked json answers g) (stuck (choose json answers))

module _ (json : StatusJson) (locked : ℕ → LockedRound) (compile_string : Text) (fuel t : ℕ)
    (g : Guarded) where
  judge_loop-throws :
      {why : Text} {g' : Guarded}
      → smart_choice_locked json (locked t).answers g ≡ some (throws why, g')
      → judge_loop_locked json locked compile_string (suc fuel) t g ≡ ended (throws why) g'
  unfolding judge_loop_locked judge_round_locked
  judge_loop-throws e = rw (judge_loop_locked, judge_round_locked, e) refl

  judge_loop-waits :
      smart_choice_locked json (locked t).answers g ≡ none
      → judge_loop_locked json locked compile_string (suc fuel) t g ≡ waiting
  unfolding judge_loop_locked judge_round_locked
  judge_loop-waits e = rw (judge_loop_locked, judge_round_locked, e) refl

-- Where the conversions of jsoncpp return or throw, and the status of an online machine makes one
-- throw, Judge on a free lock is left by an exception, and behind it no loop of Judge gets through
-- its first round: each waits for the lock for ever.
pub judge_loop_locked-stuck :
    (json : StatusJson) (locked : ℕ → LockedRound) (compile_string : Text) (fuel t : ℕ)
    (lb : LoadBalance) (id : ℕ) (what : Text)
    → ((response : Option (ℕ × Text)) → read_response json response ≢ undefined)
    → contains id lb.online ≡ true
    → status_at json (locked t).answers lb.machines id ≡ throws what
    → (why : Text) × (g : Guarded) × (judge_loop_locked json locked compile_string
          (suc fuel)
          t
          (free lb)
        ≡ ended (throws why) g)
      × ((later : ℕ → LockedRound) (other : Text) (fuel' t' : ℕ)
          → judge_loop_locked json later other (suc fuel') t' g ≡ waiting)
judge_loop_locked-stuck json locked compile_string fuel t lb id what defined online e =
    let (why, g, thrown, stuck) =
      smart_choice_locked-stuck json (locked t).answers lb id what defined online e in
    (
      why,
      g,
      judge_loop-throws json locked compile_string fuel t (free lb) thrown,
      λ later other fuel' t'.
          judge_loop-waits json later other fuel' t' g
            (smart_choice-waits json (later t').answers g stuck),
    )
