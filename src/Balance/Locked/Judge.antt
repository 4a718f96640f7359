-- ===== src/Balance/Locked/Judge.antt =====
-- oj_server/oj_control.hpp: the loop of Control::Judge over the calls that take the lock by hand.
pub mod Agreement
pub mod Stuck
mod Tests
use distributed_oj.Base.{
  ℕ, zero, suc, ◌≡◌, ◌≢◌, refl, sym, ◌∙◌, ap, Bool, true, false, inl, inr, List, [], ◌∷◌, Option,
  none, some, Text, All, ◌==◌, if◌then◌else◌, Bool-cases, Option-cases, get_or,
}
use distributed_oj.Base.Result.{Result, ok, throws, undefined}
use distributed_oj.Comm.Int.{ℤ}
use distributed_oj.Balance.{
  LoadBalance, Machine, no_machine, contains, smart_choice, offline_machine, inc_load_at,
  dec_load_at,
}
use distributed_oj.Balance.Judge.{
  Round, machine_at, Next, stop, again, on_response, judge_with, judge_round, judge_loop,
}
use distributed_oj.Balance.Judge.Safety.{Next-cases}
use distributed_oj.Balance.Status.{StatusJson, Answers, read_response, status_of}
use distributed_oj.Balance.Locked.{
  Guarded, Action, ◌>>=◌, ◌>>◌, pure, gets, update, carry_on, lock, unlock, smart_choice_locked,
  offline_machine_locked, show_machines,
}
use distributed_oj.Balance.Locked.Agreement.{IsRead, status_at, smart_choice_locked-eq}
use distributed_oj.Balance.Locked.Stuck.{Operation, choose, call, forget, smart_choice_locked-stuck}

-- What the network does in one round: the answers to GET /status, and to a post.
pub record LockedRound : Type 0 where
  pub answers : Answers
  pub post : Text → ℤ → Text → Option (ℕ × Text)

-- How the loop ends: it has used up the fuel, it waits for a lock for ever, or it is left with what
-- `*out_json` is set to, or by an exception.
pub data Ending : Type 0 where
  running : Ending
  waiting : Ending
  ended : Result (Option Text) → Guarded → Ending

-- The branches on the response of the machine `id`: `none` where the loop goes on.
unfoldable pub on_response_locked : ℕ → Option (ℕ × Text) → Action (Option (Option Text))
unfolding offline_machine_locked show_machines
on_response_locked id none = do offline_machine_locked id; show_machines; pure none
on_response_locked id (some (status, body)) = do
  update (dec_load_at id)
  pure (if status == 200 then some (some body) else none)

unfoldable pub judge_choice : LockedRound → Text → Option ℕ → Action (Option (Option Text))
unfolding on_response_locked
judge_choice round compile_string none = pure (some none)
judge_choice round compile_string (some id) = do
  m ← gets (λ lb. machine_at lb id)
  update (inc_load_at id)
  on_response_locked id (round.post m.ip m.port compile_string)

module _ (json : StatusJson) where
  -- One round of `while (true)`
  unfoldable pub judge_round_locked : LockedRound → Text → Action (Option (Option Text))
  unfolding judge_choice
  judge_round_locked round compile_string = do
    choice ← smart_choice_locked json round.answers
    judge_choice round compile_string choice

  -- The loop, on fuel, through the rounds numbered from `t`
  unfoldable pub judge_loop_locked : (ℕ → LockedRound) → Text → ℕ → ℕ → Guarded → Ending
  judge_loop_locked net compile_string zero t g = running
  judge_loop_locked net compile_string (suc fuel) t g =
      elim (judge_round_locked (net t) compile_string g) [
        | none ↦ waiting
        | some (ok none, g') ↦ judge_loop_locked net compile_string fuel (suc t) g'
        | some (ok (some out), g') ↦ ended (ok out) g'
        | some (throws what, g') ↦ ended (throws what) g'
        | some (undefined, g') ↦ ended undefined g'
      ]

-- The machines under a free lock
abbrev pub free : LoadBalance → Guarded
free lb = record { balance = lb; held = false }

abbrev pub step_of : Next → Option (Result (Option (Option Text)) × Guarded)
step_of (stop lb out) = some (ok (some out), free lb)
step_of (again lb) = some (ok none, free lb)

abbrev pub ending_of : Option (LoadBalance × Option Text) → Ending
ending_of none = running
ending_of (some (lb, out)) = ended (ok out) (free lb)

-- Every answer to GET /status is read as the poll of the round says, and the posts are the same.
pub record Agrees (json : StatusJson) (locked : LockedRound) (round : Round) : Type 0 where
  pub read :
      (ip : Text) (port : ℤ) → read_response json (locked.answers ip port) ≡ ok (round.poll ip port)
  pub posts :
      (ip : Text) (port : ℤ) (body : Text) → locked.post ip port body ≡ round.post ip port body
