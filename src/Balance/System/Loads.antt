-- ===== src/Balance/System/Loads.antt =====
-- Machine::IncLoad and DecLoad of oj_server/oj_control.hpp, and what one thread's step makes of the
-- loads.
use distributed_oj.Base.{
  ℕ, ◌+◌, ◌<◌, ◌^◌, ◌≡◌, refl, ◌∙◌, ap, subst, sym, inl, inr, List, [], ◌∷◌, ltb, Option, none,
  some, Text, arith, ◌==◌, ==_iff, Bool-cases, length, modify, get_or, get_or-modify_self,
  get_or-modify_ne, if◌then◌else◌,
}
use distributed_oj.Balance.{
  LoadBalance, Machine, no_machine, inc_load_at, dec_load_at, inc_load, dec_load, load_at,
}
use distributed_oj.Balance.Judge.{on_response}
use distributed_oj.Balance.System.{
  Stage, posted, next_stage, entered, compared, Move, enter, poll, polled, compare, decide,
  increase, respond,
}
use distributed_oj.Balance.System.Silent.{poll_at_silent}
use distributed_oj.Balance.System.Safety.{IsWithin}
use distributed_oj.Balance.System.Flight.{flying, IsAnswered, calm}

load_at-modify :
    (machines : List Machine) (i id : ℕ) (f : Machine → Machine)
    → i < length machines
    → load_at (modify machines i f) id
      ≡ (if i == id then (f (get_or machines i no_machine)).load else load_at machines id)
load_at-modify machines i id f h = elim (Bool-cases (i == id)) [
  | inl same ↦
      rw (same, ← (==_iff i id).0 same)
        (ap (λ (m : Machine). m.load) (get_or-modify_self machines i f no_machine h))
  | inr other ↦ rw other (
      ap (λ (m : Machine). m.load)
        (get_or-modify_ne machines i id f no_machine (λ e. ground arith)))
]

inc_load-plain : (m : Machine) → m.load + 1 < 2 ^ 64 → (inc_load m).load ≡ m.load + 1
unfolding inc_load
inc_load-plain m h = ground arith

dec_load-plain : (m : Machine) (n : ℕ) → n + 1 < 2 ^ 64 → m.load ≡ n + 1 → (dec_load m).load ≡ n
unfolding dec_load
dec_load-plain m n h e = ground arith

-- A move of one thread, with what the others hold: each load is the number of those in flight.
module _ (others : ℕ → ℕ) (fits : (id : ℕ) → others id + 1 < 2 ^ 64) where
  load_at-inc_load_at :
      (i : ℕ) (lb : LoadBalance)
      → i < length lb.machines
      → ((id : ℕ) → load_at lb.machines id ≡ others id)
      → (id : ℕ) → load_at (inc_load_at i lb).machines id ≡ others id + flying id (posted i)
  unfolding inc_load_at
  load_at-inc_load_at i lb h e id = load_at-modify lb.machines i id inc_load h ∙ grown
    where
      grown :
          (if i == id
            then (inc_load (get_or lb.machines i no_machine)).load
            else load_at lb.machines id)
          ≡ others id + flying id (posted i)
      grown = elim (Bool-cases (i == id)) [
        | inl same ↦ rw same (
            inc_load-plain (get_or lb.machines i no_machine) (omega (arith, e i, fits i))
            ∙ rw (← (==_iff i id).0 same) (omega (arith, e i)))
        | inr other ↦ rw other (omega (arith, e id))
      ]

  load_at-dec_load_at :
      (i : ℕ) (lb : LoadBalance)
      → i < length lb.machines
      → ((id : ℕ) → load_at lb.machines id ≡ others id + flying id (posted i))
      → (id : ℕ) → load_at (dec_load_at i lb).machines id ≡ others id
  unfolding dec_load_at
  load_at-dec_load_at i lb h e id = load_at-modify lb.machines i id dec_load h ∙ shrunk
    where
      shrunk :
          (if i == id
            then (dec_load (get_or lb.machines i no_machine)).load
            else load_at lb.machines id)
          ≡ others id
      shrunk = elim (Bool-cases (i == id)) [
        | inl same ↦ rw same (
            dec_load-plain (get_or lb.machines i no_machine) (others id) (fits id) (
              subst (λ j. load_at lb.machines j ≡ others id + 1) (sym ((==_iff i id).0 same))
                (rw same at (e id))))
        | inr other ↦ rw other (rw other at (e id) ∙ omega arith)
      ]

  entered_grounded : (id : ℕ) (ids : List ℕ) → flying id (entered ids) ≡ 0
  entered_grounded id [] = refl
  entered_grounded id (first ∷ rest) = refl

  compared_grounded :
      (k : ℕ) (lb : LoadBalance) (best min_load id : ℕ) (ids : List ℕ)
      → flying k (compared lb best min_load id ids) ≡ 0
  unfolding compared
  compared_grounded k lb best min_load id ids =
      elim (Bool-cases (ltb (load_at lb.machines id) min_load)) [
        | inl better ↦ rw better refl
        | inr worse ↦ rw worse refl
      ]

  respond-load_at :
      (i : ℕ) (lb : LoadBalance) (response : Option (ℕ × Text))
      → IsAnswered response
      → i < length lb.machines
      → ((id : ℕ) → load_at lb.machines id ≡ others id + flying id (posted i))
      → (id : ℕ)
      → let n = next_stage (on_response i lb response) in
        load_at n.0.machines id ≡ others id + flying id n.1
  unfolding on_response
  respond-load_at i lb none answered h e id = absurd answered
  respond-load_at i lb (some (status, body)) answered h e id =
      let back = load_at-dec_load_at i lb h e id ∙ omega arith in
      elim (Bool-cases (status == 200)) [ inl fine ↦ rw fine back | inr bad ↦ rw bad back ]

  pub Move-load_at :
      {lb lb' : LoadBalance} {w w' : Stage}
      → Move calm lb w lb' w'
      → IsWithin (length lb.machines) w
      → ((id : ℕ) → load_at lb.machines id ≡ others id + flying id w)
      → (id : ℕ) → load_at lb'.machines id ≡ others id + flying id w'
  Move-load_at {lb} enter h e id = rw (entered_grounded id lb.online) (e id)
  Move-load_at {lb} (poll answers silent first rest i ids) h e id =
      rw (poll_at_silent answers silent i lb) (e id)
  Move-load_at (polled first rest) h e id = e id
  Move-load_at {lb} (compare best min_load i ids) h e id =
      rw (compared_grounded id lb best min_load i ids) (e id)
  Move-load_at (decide best min_load) h e id = e id
  Move-load_at {lb} (increase i) h e id = load_at-inc_load_at i lb h (λ j. e j ∙ omega arith) id
  Move-load_at {lb} (respond i response answered) h e id =
      respond-load_at i lb response answered h e id
