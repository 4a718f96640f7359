-- ===== src/Balance/System/Machines.antt =====
-- oj_server/oj_control.hpp, LoadBalance: how many machines there are, and whose ids are online.
use mathlib.Core.List.{Permᴰ}
use mathlib.Core.Bool.{Bool-set}
use mathlib.Core.Logic.{∥∥₁_elim}
use distributed_oj.Base.{
  Bool, ℕ, zero, suc, ◌<◌, ◌≡◌, refl, ◌∙◌, sym, true, false, inl, inr, ◌||◌, List, [], ◌∷◌, ◌++◌,
  Option, none, some, Text, Perm, arith, ◌==◌, Bool-cases, length, length-modify,
}
use distributed_oj.Balance.{
  LoadBalance, Poll, smart_choice, choose_from, contains, offline_machine, inc_load_at, dec_load_at,
  inc_load, dec_load, reset_load,
}
use distributed_oj.Balance.Partition.{IsPartition, indices, length-update_all}
use distributed_oj.Balance.Judge.{on_response}
use distributed_oj.Balance.System.{next_stage, poll_at}

or_swap : (a b c : Bool) → (a || (b || c)) ≡ (b || (a || c))
or_swap a b c = ground arith

contains-Permᴰ : (id : ℕ) {xs ys : List ℕ} → Permᴰ xs ys → contains id xs ≡ contains id ys
contains-Permᴰ id Permᴰ.nil = refl
contains-Permᴰ id (Permᴰ.cons e d) = rw (e, contains-Permᴰ id d) refl
contains-Permᴰ id (Permᴰ.swap {l = l} e e') = rw (e, e') (or_swap _ _ (contains id l))
contains-Permᴰ id (Permᴰ.trans d d') = contains-Permᴰ id d ∙ contains-Permᴰ id d'

contains-Perm : (id : ℕ) {xs ys : List ℕ} → Perm xs ys → contains id xs ≡ contains id ys
contains-Perm id p = ∥∥₁_elim p (Bool-set _ _) (contains-Permᴰ id)

contains-append :
    (id : ℕ) (xs ys : List ℕ) → contains id (xs ++ ys) ≡ (contains id xs || contains id ys)
contains-append id [] ys = refl
contains-append id (x ∷ xs) ys = rw (contains-append id xs ys) (grind arith)

contains-indices : (id n : ℕ) → contains id (indices n) ≡ true → id < n
contains-indices id zero h = cc
contains-indices id (suc n) h = elim (Bool-cases (contains id (indices n))) [
  | inl found ↦ omega (arith, contains-indices id n found)
  | inr missing ↦ last (sym (contains-append id (indices n) (n ∷ [])) ∙ h) missing
]
  where
    last :
        (contains id (indices n) || contains id (n ∷ [])) ≡ true
        → contains id (indices n) ≡ false
        → id < suc n
    last e e' = ground arith

-- What is online in a partition is the id of a machine.
pub online_below :
    (id : ℕ) (lb : LoadBalance)
    → IsPartition lb
    → contains id lb.online ≡ true
    → id < length lb.machines
online_below id lb h found =
    contains-indices id (length lb.machines)
      (sym (contains-Perm id h) ∙ (contains-append id lb.online lb.offline ∙ rw found refl))

length-choose_from :
    (poll : Poll) (lb : LoadBalance) (ids : List ℕ)
    → length (choose_from poll lb ids).0.machines ≡ length lb.machines
unfolding choose_from
length-choose_from poll lb [] = refl
length-choose_from poll lb (first ∷ ids) = length-update_all poll (first ∷ ids) lb.machines

pub length-smart_choice :
    (poll : Poll) (lb : LoadBalance) → length (smart_choice poll lb).0.machines ≡ length lb.machines
unfolding smart_choice
length-smart_choice poll lb = length-choose_from poll lb lb.online

pub length-poll_at :
    (answers : Poll) (id : ℕ) (lb : LoadBalance)
    → length (poll_at answers id lb).machines ≡ length lb.machines
unfolding poll_at
length-poll_at answers id lb = length-modify lb.machines id _

pub length-inc_load_at :
    (id : ℕ) (lb : LoadBalance) → length (inc_load_at id lb).machines ≡ length lb.machines
unfolding inc_load_at
length-inc_load_at id lb = length-modify lb.machines id inc_load

length-dec_load_at :
    (id : ℕ) (lb : LoadBalance) → length (dec_load_at id lb).machines ≡ length lb.machines
unfolding dec_load_at
length-dec_load_at id lb = length-modify lb.machines id dec_load

length-offline_machine :
    (id : ℕ) (lb : LoadBalance) → length (offline_machine id lb).machines ≡ length lb.machines
unfolding offline_machine
length-offline_machine id lb = elim (Bool-cases (contains id lb.online)) [
  | inl found ↦ rw found (length-modify lb.machines id reset_load)
  | inr missing ↦ rw missing refl
]

pub length-on_response :
    (id : ℕ) (lb : LoadBalance) (response : Option (ℕ × Text))
    → length (next_stage (on_response id lb response)).0.machines ≡ length lb.machines
unfolding on_response
length-on_response id lb none = length-offline_machine id lb
length-on_response id lb (some (status, body)) = elim (Bool-cases (status == 200)) [
  | inl fine ↦ rw fine (length-dec_load_at id lb)
  | inr bad ↦ rw bad (length-dec_load_at id lb)
]
