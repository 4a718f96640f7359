-- ===== src/Balance/Judge/Safety.antt =====
-- Where an answer of Judge comes from, and what the loop keeps.
use distributed_oj.Base.{
  ℕ, zero, suc, ◌≡◌, refl, ◌⊎◌, inl, inr, [], Option, none, some, Text, ◌==◌, ==_iff, Bool-cases,
}
use distributed_oj.Comm.Int.{ℤ}
use distributed_oj.Balance.{LoadBalance, Machine, inc_load_at}
use distributed_oj.Balance.Partition.{
  IsPartition, offline_machine-IsPartition, smart_choice-IsPartition, inc_load_at-IsPartition,
  dec_load_at-IsPartition,
}
use distributed_oj.Balance.Choice.{IsChoice, smart_choice-IsChoice}
use distributed_oj.Balance.Judge.{
  Round, Next, stop, again, machine_at, on_response, judge_with, judge_round, judge_loop,
}

-- What holds of a round's outcome, and of what the loop returns.
abbrev pub Holds {ℓ} : (LoadBalance → Option Text → Type ℓ) → (LoadBalance → Type ℓ) → Next → Type ℓ
Holds Done More (stop lb out) = Done lb out
Holds Done More (again lb) = More lb

abbrev pub Returns {ℓ} :
    (LoadBalance → Option Text → Type ℓ) → Option (LoadBalance × Option Text) → Type ℓ
Returns Done none = Unit
Returns Done (some (lb, out)) = Done lb out

pub Next-cases :
    (n : Next)
    → ((lb : LoadBalance) × (out : Option Text) × (n ≡ stop lb out))
      ⊎ ((lb : LoadBalance) × (n ≡ again lb))
Next-cases (stop lb out) = inl (lb, out, refl)
Next-cases (again lb) = inr (lb, refl)

-- The rule for the loop: an invariant, and what each way out makes of it.
module _ {ℓ} (net : ℕ → Round) (code : Text) (Done : LoadBalance → Option Text → Type ℓ)
    (More : LoadBalance → Type ℓ)
    (keep : (t : ℕ) (lb : LoadBalance)
      → More lb
      → Holds Done More (judge_round (net t) code lb)) where
  pub judge_loop-Returns :
      (fuel t : ℕ) (lb : LoadBalance) → More lb → Returns Done (judge_loop net code fuel t lb)
  unfolding judge_loop
  judge_loop-Returns zero t lb h = tt
  judge_loop-Returns (suc fuel) t lb h = elim (Next-cases (judge_round (net t) code lb)) [
    | inl (lb1, out1, s) ↦ rw (s, judge_loop) (rw s at (keep t lb h))
    | inr (lb1, s) ↦
        rw (s, judge_loop) (judge_loop-Returns fuel (suc t) lb1 (rw s at (keep t lb h)))
  ]

pub on_response-IsPartition :
    (id : ℕ) (lb : LoadBalance) (response : Option (ℕ × Text))
    → IsPartition lb
    → Holds (λ lb' out. IsPartition lb') IsPartition (on_response id lb response)
unfolding on_response
on_response-IsPartition id lb none h = offline_machine-IsPartition id lb h
on_response-IsPartition id lb (some (status, body)) h = elim (Bool-cases (status == 200)) [
  | inl fine ↦ rw fine (dec_load_at-IsPartition id lb h)
  | inr bad ↦ rw bad (dec_load_at-IsPartition id lb h)
]

judge_with-IsPartition :
    (round : Round) (code : Text) (lb : LoadBalance) (choice : Option ℕ)
    → IsPartition lb
    → Holds (λ lb' out. IsPartition lb') IsPartition (judge_with round code lb choice)
unfolding judge_with
judge_with-IsPartition round code lb none h = h
judge_with-IsPartition round code lb (some id) h =
    on_response-IsPartition id (inc_load_at id lb)
      (round.post (machine_at lb id).ip (machine_at lb id).port code)
      (inc_load_at-IsPartition id lb h)

judge_round-IsPartition :
    (round : Round) (code : Text) (lb : LoadBalance)
    → IsPartition lb
    → Holds (λ lb' out. IsPartition lb') IsPartition (judge_round round code lb)
unfolding judge_round
judge_round-IsPartition round code lb h =
    judge_with-IsPartition round code _ _ (smart_choice-IsPartition round.poll lb h)

-- Judging a submission, whatever the network does, leaves every machine online or offline, and
-- only once, if it was so before.
pub judge_loop-IsPartition :
    (net : ℕ → Round) (code : Text) (fuel t : ℕ) (lb : LoadBalance)
    → IsPartition lb
    → Returns (λ lb' out. IsPartition lb') (judge_loop net code fuel t lb)
judge_loop-IsPartition net code fuel t lb h =
    judge_loop-Returns net code (λ lb' out. IsPartition lb') IsPartition
      (λ t' lb'. judge_round-IsPartition (net t') code lb') fuel t lb h

-- Where an answer comes from: no machine was online any more and there is none, or a machine has
-- sent it, in answer to the very text, with the status 200.
abbrev pub IsAnswer : (ℕ → Round) → Text → LoadBalance → Option Text → Type 0
IsAnswer net code lb none = lb.online ≡ []
IsAnswer net code lb (some body) =
    (t : ℕ) × (ip : Text) × (port : ℤ) × ((net t).post ip port code ≡ some (200, body))

on_response-IsAnswer :
    (net : ℕ → Round) (code : Text) (t id : ℕ) (lb : LoadBalance) (m : Machine)
    (response : Option (ℕ × Text))
    → (net t).post m.ip m.port code ≡ response
    → Holds (IsAnswer net code) (λ lb'. Unit {0}) (on_response id lb response)
unfolding on_response
on_response-IsAnswer net code t id lb m none e = tt
on_response-IsAnswer net code t id lb m (some (status, body)) e =
    elim (Bool-cases (status == 200)) [
      | inl fine ↦ rw fine (t, m.ip, m.port, rw (← (==_iff status 200).0 fine) e)
      | inr bad ↦ rw bad tt
    ]

judge_with-IsAnswer :
    (net : ℕ → Round) (code : Text) (t : ℕ) (lb : LoadBalance) (choice : Option ℕ)
    → IsChoice lb choice
    → Holds (IsAnswer net code) (λ lb'. Unit {0}) (judge_with (net t) code lb choice)
unfolding judge_with
judge_with-IsAnswer net code t lb none c = c
judge_with-IsAnswer net code t lb (some id) c =
    on_response-IsAnswer net code t id (inc_load_at id lb) (machine_at lb id) _ refl

judge_round-IsAnswer :
    (net : ℕ → Round) (code : Text) (t : ℕ) (lb : LoadBalance)
    → Holds (IsAnswer net code) (λ lb'. Unit {0}) (judge_round (net t) code lb)
unfolding judge_round
judge_round-IsAnswer net code t lb =
    judge_with-IsAnswer net code t _ _ (smart_choice-IsChoice (net t).poll lb)

-- What `Judge` hands on is the body of a response of status 200 to the text that it has posted; it
-- gives up without one only when no machine is online any more.
pub judge_loop-IsAnswer :
    (net : ℕ → Round) (code : Text) (fuel t : ℕ) (lb : LoadBalance)
    → Returns (IsAnswer net code) (judge_loop net code fuel t lb)
judge_loop-IsAnswer net code fuel t lb =
    judge_loop-Returns net code (IsAnswer net code) (λ lb'. Unit {0})
      (λ t' lb' _. judge_round-IsAnswer net code t' lb') fuel t lb tt
