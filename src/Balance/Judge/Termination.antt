-- ===== src/Balance/Judge/Termination.antt =====
-- oj_server/oj_control.hpp, the loop of Control::Judge: how many rounds it takes.
use distributed_oj.Base.{
  ℕ, zero, suc, ◌+◌, ◌<◌, ◌≡◌, refl, ap, subst, inl, inr, true, Option, none, some, [], ◌∷◌, List,
  Text, ==_iff, arith, length,
}
use distributed_oj.Comm.Int.{ℤ}
use distributed_oj.Balance.{
  LoadBalance, smart_choice, offline_machine, inc_load_at, contains, erase,
}
use distributed_oj.Balance.Choice.{IsChoice, smart_choice-IsChoice, smart_choice-lists}
use distributed_oj.Balance.Judge.{
  Round, machine_at, on_response, judge_with, judge_round, judge_loop,
}
use distributed_oj.Balance.Judge.Safety.{Holds, Next-cases}

-- Every response that comes has the status 200.
abbrev pub IsPolite : Round → Text → Type 0
IsPolite round code =
    (ip : Text) (port : ℤ) (status : ℕ) (body : Text)
    → round.post ip port code ≡ some (status, body)
    → status ≡ 200

length-erase :
    (which : ℕ) (ids : List ℕ)
    → contains which ids ≡ true
    → length (erase which ids) + 1 ≡ length ids
length-erase which [] h = cc
length-erase which (id ∷ ids) h = ground (arith, length-erase which ids)

-- The next round has one machine less.
abbrev Fewer : ℕ → LoadBalance → Type 0
Fewer n lb = length lb.online < n

on_response-Fewer :
    (id : ℕ) (lb : LoadBalance) (response : Option (ℕ × Text))
    → contains id lb.online ≡ true
    → ((status : ℕ) (body : Text) → response ≡ some (status, body) → status ≡ 200)
    → Holds (λ lb' out. Unit {0}) (Fewer (length lb.online)) (on_response id lb response)
unfolding on_response offline_machine
on_response-Fewer id lb none c p = rw c (omega (arith, length-erase id lb.online c))
on_response-Fewer id lb (some (status, body)) c p =
    rw ((==_iff status 200).1 (p status body refl)) tt

judge_with-Fewer :
    (round : Round) (code : Text) (lb : LoadBalance) (choice : Option ℕ)
    → IsChoice lb choice
    → IsPolite round code
    → Holds (λ lb' out. Unit {0}) (Fewer (length lb.online)) (judge_with round code lb choice)
unfolding judge_with inc_load_at
judge_with-Fewer round code lb none c p = tt
judge_with-Fewer round code lb (some id) c p =
    let m = machine_at lb id in
    on_response-Fewer id (inc_load_at id lb) (round.post m.ip m.port code) c.0 (p m.ip m.port)

judge_round-Fewer :
    (round : Round) (code : Text) (lb : LoadBalance)
    → IsPolite round code
    → Holds (λ lb' out. Unit {0}) (Fewer (length lb.online)) (judge_round round code lb)
unfolding judge_round
judge_round-Fewer round code lb p =
    let (lb', choice) = smart_choice round.poll lb in
    let e : length lb'.online ≡ length lb.online = ap length (smart_choice-lists round.poll lb).0 in
    subst (λ n. Holds (λ _ _. Unit {0}) (Fewer n) (judge_with round code lb' choice)) e
      (judge_with-Fewer round code lb' choice (smart_choice-IsChoice round.poll lb) p)

-- As long as every response has the status 200, the loop ends after at most one round more than
-- there are machines online.
pub judge_loop_ends :
    (net : ℕ → Round) (code : Text)
    → ((t : ℕ) → IsPolite (net t) code)
    → (fuel t : ℕ) (lb : LoadBalance) → length lb.online < fuel
    → (lb' : LoadBalance) × (out : Option Text) × (judge_loop net code fuel t lb ≡ some (lb', out))
unfolding judge_loop
judge_loop_ends net code p zero t lb h = elim h [ ]
judge_loop_ends net code p (suc fuel) t lb h = elim (Next-cases (judge_round (net t) code lb)) [
  | inl (lb1, out1, s) ↦ (lb1, out1, rw (s, judge_loop))
  | inr (lb1, s) ↦
      let fewer : length lb1.online < length lb.online =
        rw s at (judge_round-Fewer (net t) code lb (p t)) in
      rw (s, judge_loop) (judge_loop_ends net code p fuel (suc t) lb1 (omega arith))
]
