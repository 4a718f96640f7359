-- ===== src/Balance/Locked.antt =====
-- oj_server/oj_control.hpp: the calls of LoadBalance with the lock `mtx` that they take by hand. An
-- exception leaves a call where it is thrown, and what the call has written, the lock too, stays.
mod Samples
mod Tests
pub mod Agreement
pub mod Stuck
pub mod Reported
pub mod Judge
use distributed_oj.Base.{
  ℕ, Bool, true, false, List, [], ◌∷◌, Option, none, some, Text, get_or, modify,
}
use distributed_oj.Base.Result.{Result, ok, throws, undefined}
use distributed_oj.Balance.{
  Machine, no_machine, LoadBalance, least, load_at, offline_machine, online_machine,
}
use distributed_oj.Balance.Status.{StatusJson, Answers, update_status_from}

pub record Guarded : Type 0 where
  pub balance : LoadBalance
  pub held : Bool

-- A call, made when no other is under way: how it ends, with the state it leaves; `none` where it
-- waits for a lock that nobody gives back.
abbrev pub Action : Type 0 → Type 0
Action A = Guarded → Option (Result A × Guarded)

abbrev pub pure : {A : Type 0} → A → Action A
pure a g = some (ok a, g)

abbrev pub carry_on :
    {A B : Type 0} → (A → Action B) → Option (Result A × Guarded) → Option (Result B × Guarded)
carry_on f none = none
carry_on f (some (ok a, g)) = f a g
carry_on f (some (throws what, g)) = some (throws what, g)
carry_on f (some (undefined, g)) = some (undefined, g)

infixl 5 ◌>>=◌ ◌>>◌
abbrev pub ◌>>=◌ : {A B : Type 0} → Action A → (A → Action B) → Action B
◌>>=◌ m f g = carry_on f (m g)

abbrev pub ◌>>◌ : {A B : Type 0} → Action A → Action B → Action B
m >> k = m >>= λ _. k

-- `mtx.lock()`
abbrev pub lock_of : Bool → Action (Unit {0})
lock_of true g = none
lock_of false g = some (ok tt, record g { held = true })

unfoldable pub lock : Action (Unit {0})
lock g = lock_of g.held g

-- `mtx.unlock()`
unfoldable pub unlock : Action (Unit {0})
unlock g = some (ok tt, record g { held = false })

abbrev pub gets : {A : Type 0} → (LoadBalance → A) → Action A
gets f g = some (ok (f g.balance), g)

abbrev pub update : (LoadBalance → LoadBalance) → Action (Unit {0})
update f g = some (ok tt, record g { balance = f g.balance })

abbrev pub of_result : {A : Type 0} → Result A → Action A
of_result r g = some (r, g)

abbrev pub put_machine : ℕ → Machine → LoadBalance → LoadBalance
put_machine id m lb = record lb { machines = modify lb.machines id (λ _. m) }

module _ (json : StatusJson) (answers : Answers) where
  -- `machines[id].UpdateStatus()`
  unfoldable pub update_at : ℕ → Action (Unit {0})
  update_at id = do
    m ← gets (λ lb. get_or lb.machines id no_machine)
    (m', updated) ← of_result (update_status_from json answers m)
    update (put_machine id m')

  -- The first loop of `SmartChoice`
  unfoldable pub update_each : List ℕ → Action (Unit {0})
  unfolding update_at
  update_each [] = pure tt
  update_each (id ∷ ids) = do update_at id; update_each ids

  abbrev pub least_of : ℕ → List ℕ → LoadBalance → ℕ
  least_of first ids lb = least lb.machines (load_at lb.machines first) first ids

  -- `SmartChoice` behind `mtx.lock()`: `mtx.unlock()` stands in both ways out, and in no other.
  unfoldable pub choose_then_unlock : List ℕ → Action (Option ℕ)
  unfolding unlock update_each
  choose_then_unlock [] = do unlock; pure none
  choose_then_unlock (first ∷ ids) = do
    update_each (first ∷ ids)
    chosen ← gets (least_of first (first ∷ ids))
    unlock
    pure (some chosen)

  unfoldable pub smart_choice_locked : Action (Option ℕ)
  unfolding lock choose_then_unlock
  smart_choice_locked = do lock; ids ← gets (λ lb. lb.online); choose_then_unlock ids

unfoldable pub offline_machine_locked : ℕ → Action (Unit {0})
unfolding lock unlock
offline_machine_locked which = do lock; update (offline_machine which); unlock

unfoldable pub online_machine_locked : Action (Unit {0})
unfolding lock unlock
online_machine_locked = do lock; update online_machine; unlock

-- `ShowMachines`, as the two lists that it prints
unfoldable pub show_machines : Action (List ℕ × List ℕ)
unfolding lock unlock
show_machines = do lock; shown ← gets (λ lb. (lb.online, lb.offline)); unlock; pure shown
