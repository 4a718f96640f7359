-- ===== src/Balance/Locked/Stuck.antt =====
-- oj_server/oj_control.hpp, LoadBalance under its lock: what comes of a status that does not
-- convert.
use distributed_oj.Base.{
  ℕ, ◌≡◌, ◌≢◌, refl, ◌∙◌, inl, inr, Bool, true, false, List, [], ◌∷◌, Option, none, some, Text,
  ◌==◌, arith, get_or, ==_iff, Bool-cases, subst,
}
use distributed_oj.Base.Result.{Result, ok, throws, undefined, Result-cases}
use distributed_oj.Balance.{Machine, no_machine, Metrics, LoadBalance, contains}
use distributed_oj.Balance.Status.{StatusJson, Answers, read_response, status_of}
use distributed_oj.Balance.Locked.{
  Guarded, Action, carry_on, lock, update_each, choose_then_unlock, smart_choice_locked,
  offline_machine_locked, online_machine_locked, show_machines,
}
use distributed_oj.Balance.Locked.Agreement.{
  status_at, updated, with_machines, update_at-ok, update_at-throws, status_at-updated,
}

-- A call on the machines, whatever it returns
pub data Operation : Type 1 where
  choose : StatusJson → Answers → Operation
  offline : ℕ → Operation
  online show : Operation

unfoldable pub forget : {A : Type 0} → Action A → Action (Unit {0})
forget m g = carry_on (λ a g'. some (ok tt, g')) (m g)

unfoldable pub call : Operation → Action (Unit {0})
unfolding forget
call (choose json answers) = forget (smart_choice_locked json answers)
call (offline which) = offline_machine_locked which
call online = online_machine_locked
call show = forget show_machines

-- On a lock that is held no call returns.
pub call-held : (c : Operation) (g : Guarded) → g.held ≡ true → call c g ≡ none
unfolding call lock smart_choice_locked offline_machine_locked online_machine_locked show_machines
call-held (choose json answers) g h = rw h refl
call-held (offline which) g h = rw h refl
call-held online g h = rw h refl
call-held show g h = rw h refl

-- The action has thrown, and has left the lock as it was.
abbrev pub Throws : {A : Type 0} → Option (Result A × Guarded) → Bool → Type 0
Throws r held = (what : Text) × (g : Guarded) × (r ≡ some (throws what, g)) × (g.held ≡ held)

module _ (json : StatusJson) (answers : Answers)
    (defined : (response : Option (ℕ × Text)) → read_response json response ≢ undefined) where
  update_at-defined :
      (machines : List Machine) (j : ℕ) → status_at json answers machines j ≢ undefined
  unfolding status_of
  update_at-defined machines j =
      let m = get_or machines j no_machine in defined (answers m.ip m.port)

  update_each-throws :
      (id : ℕ) (what : Text) (ids : List ℕ) (g : Guarded)
      → contains id ids ≡ true
      → status_at json answers g.balance.machines id ≡ throws what
      → Throws (update_each json answers ids g) g.held
  unfolding update_each
  update_each-throws id what [] g here e = cc
  update_each-throws id what (j ∷ ids) g here e =
      elim (Result-cases (status_at json answers g.balance.machines j)) [
        | inl (s, fine) ↦
            let ms = updated s j g.balance.machines in
            let rest =
              update_each-throws id what ids (with_machines ms g) (still j ids fine e here)
                (status_at-updated json answers s j id g.balance.machines ∙ e) in
            (rest.0, rest.1, rw (update_at-ok json answers j g s fine) rest.2, rest.3)
        | inr (inl (why, thrown)) ↦
            (why, g, rw (update_at-throws json answers j g why thrown) refl, refl)
        | inr (inr bad) ↦ absurd (update_at-defined g.balance.machines j bad)
      ]
    where
      still :
          (j : ℕ) (ids : List ℕ) {s : Option Metrics}
          → status_at json answers g.balance.machines j ≡ ok s
          → status_at json answers g.balance.machines id ≡ throws what
          → contains id (j ∷ ids) ≡ true
          → contains id ids ≡ true
      still j ids {s} fine e here = elim (Bool-cases (j == id)) [
        | inl same ↦
            let fine' : status_at json answers g.balance.machines id ≡ ok s =
              subst (λ k. status_at json answers g.balance.machines k ≡ ok s) ((==_iff j id).0 same)
                fine in
            cc
        | inr other ↦ ground arith
      ]

  choose_then_unlock-throws :
      (id : ℕ) (what : Text) (ids : List ℕ) (g : Guarded)
      → contains id ids ≡ true
      → status_at json answers g.balance.machines id ≡ throws what
      → Throws (choose_then_unlock json answers ids g) g.held
  unfolding choose_then_unlock
  choose_then_unlock-throws id what [] g here e = cc
  choose_then_unlock-throws id what (first ∷ ids) g here e =
      let (why, g', thrown, kept) = update_each-throws id what (first ∷ ids) g here e in
      (why, g', rw thrown refl, kept)

-- Where the conversions of jsoncpp return or throw, and the status of an online machine makes one
-- throw, `SmartChoice` on a free lock throws, and behind it the lock is held for good: no call to
-- choose a machine, to take one offline, to bring all online or to show them ever returns.
pub smart_choice_locked-stuck :
    (json : StatusJson) (answers : Answers) (lb : LoadBalance) (id : ℕ) (what : Text)
    → ((response : Option (ℕ × Text)) → read_response json response ≢ undefined)
    → contains id lb.online ≡ true
    → status_at json answers lb.machines id ≡ throws what
    → (why : Text) × (g : Guarded) × (smart_choice_locked json answers
          (record { balance = lb; held = false })
        ≡ some (throws why, g))
      × ((c : Operation) → call c g ≡ none)
unfolding smart_choice_locked lock
smart_choice_locked-stuck json answers lb id what defined here e =
    let start : Guarded = record { balance = lb; held = true } in
    let (why, g, thrown, kept) =
      choose_then_unlock-throws json answers defined id what lb.online start here e in
    (why, g, thrown, λ c. call-held c g kept)
