-- ===== src/Balance/Locked/Judge/Agreement.antt =====
-- oj_server/oj_control.hpp, Control::Judge under the lock: where every status converts.
use distributed_oj.Base.{
  ℕ, zero, suc, ◌≡◌, refl, inl, inr, List, [], ◌∷◌, Option, none, some, Text, All, ◌==◌, Bool-cases,
  get_or,
}
use distributed_oj.Balance.{LoadBalance, Machine, no_machine, smart_choice, inc_load_at}
use distributed_oj.Balance.Judge.{
  Round, machine_at, on_response, judge_with, judge_round, judge_loop,
}
use distributed_oj.Balance.Judge.Safety.{Next-cases}
use distributed_oj.Balance.Status.{StatusJson, status_of}
use distributed_oj.Balance.Locked.{lock, unlock, offline_machine_locked, show_machines}
use distributed_oj.Balance.Locked.Agreement.{IsRead, smart_choice_locked-eq}
use distributed_oj.Balance.Locked.Judge.{
  LockedRound, on_response_locked, judge_choice, judge_round_locked, judge_loop_locked, free,
  step_of, ending_of, Agrees,
}

on_response_locked-eq :
    (id : ℕ) (lb : LoadBalance) (response : Option (ℕ × Text))
    → on_response_locked id response (free lb) ≡ step_of (on_response id lb response)
unfolding on_response_locked on_response offline_machine_locked show_machines lock unlock
on_response_locked-eq id lb none = refl
on_response_locked-eq id lb (some (status, body)) = elim (Bool-cases (status == 200)) [
  | inl fine ↦ rw fine refl
  | inr other ↦ rw other refl
]

module _ (json : StatusJson) where
  AreRead :
      (locked : LockedRound) (round : Round) (machines : List Machine) (ids : List ℕ)
      → Agrees json locked round
      → All (IsRead json locked.answers round.poll machines) ids
  unfolding status_of
  AreRead locked round machines [] h = tt
  AreRead locked round machines (id ∷ ids) h =
      let m = get_or machines id no_machine in
      (h.read m.ip m.port, AreRead locked round machines ids h)

  judge_choice-eq :
      (locked : LockedRound) (round : Round) (compile_string : Text) (lb : LoadBalance)
      (choice : Option ℕ)
      → Agrees json locked round
      → judge_choice locked compile_string choice (free lb)
        ≡ step_of (judge_with round compile_string lb choice)
  unfolding judge_choice judge_with
  judge_choice-eq locked round compile_string lb none h = refl
  judge_choice-eq locked round compile_string lb (some id) h =
      let m = machine_at lb id in
      rw (h.posts m.ip m.port compile_string)
        (on_response_locked-eq id (inc_load_at id lb) (round.post m.ip m.port compile_string))

  judge_round_locked-eq :
      (locked : LockedRound) (round : Round) (compile_string : Text) (lb : LoadBalance)
      → Agrees json locked round
      → judge_round_locked json locked compile_string (free lb)
        ≡ step_of (judge_round round compile_string lb)
  unfolding judge_round_locked judge_round
  judge_round_locked-eq locked round compile_string lb h =
      rw
        (smart_choice_locked-eq json locked.answers round.poll lb
          (AreRead locked round lb.machines lb.online h))
        (judge_choice-eq locked round compile_string (smart_choice round.poll lb).0
          (smart_choice round.poll lb).1 h)

-- Where every answer to /status is read without an exception, the loop of Judge on a free lock
-- comes to what `judge_loop` comes to, waits for no lock, throws nothing, and leaves the lock free.
pub judge_loop_locked-eq :
    (json : StatusJson) (locked : ℕ → LockedRound) (net : ℕ → Round) (compile_string : Text)
    (fuel t : ℕ) (lb : LoadBalance)
    → ((n : ℕ) → Agrees json (locked n) (net n))
    → judge_loop_locked json locked compile_string fuel t (free lb)
      ≡ ending_of (judge_loop net compile_string fuel t lb)
unfolding judge_loop_locked judge_loop
judge_loop_locked-eq json locked net compile_string zero t lb h = refl
judge_loop_locked-eq json locked net compile_string (suc fuel) t lb h =
    let round = judge_round_locked-eq json (locked t) (net t) compile_string lb (h t) in
    elim (Next-cases (judge_round (net t) compile_string lb)) [
      | inl (lb', out, e) ↦ rw (round, judge_loop_locked, judge_loop, e) refl
      | inr (lb', e) ↦
          rw (round, judge_loop_locked, judge_loop, e)
            (judge_loop_locked-eq json locked net compile_string fuel (suc t) lb' h)
    ]
