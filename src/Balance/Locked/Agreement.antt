-- ===== src/Balance/Locked/Agreement.antt =====
-- oj_server/oj_control.hpp, LoadBalance under its lock: where every conversion of a status
-- succeeds, the calls are those of Balance, and the lock is free again.
use distributed_oj.Base.{
  ℕ, zero, suc, ◌≡◌, refl, sym, ◌∙◌, ap, true, false, inl, inr, List, [], ◌∷◌, Option, some, Text,
  All, get_or, modify, Option-cases,
}
use distributed_oj.Base.Result.{Result, ok, throws}
use distributed_oj.Comm.Int.{ℤ}
use distributed_oj.Balance.{
  Machine, no_machine, LoadBalance, Metrics, Poll, update_status, update_all, choose_from,
  smart_choice,
}
use distributed_oj.Balance.Status.{
  StatusJson, Answers, read_response, status_of, update_status_from,
}
use distributed_oj.Balance.Locked.{
  Guarded, lock, unlock, update_at, update_each, choose_then_unlock, smart_choice_locked,
}

abbrev host_of : Machine → Text × ℤ
host_of m = (m.ip, m.port)

update_status-host : (poll : Poll) (m : Machine) → host_of (update_status poll m).0 ≡ host_of m
unfolding update_status
update_status-host poll m = elim (Option-cases (poll m.ip m.port)) [
  | inl silent ↦ rw (update_status, silent) refl
  | inr (s, e) ↦ rw (update_status, e) refl
]

host-modify :
    (machines : List Machine) (j id : ℕ) (f : Machine → Machine)
    → ((m : Machine) → host_of (f m) ≡ host_of m)
    → host_of (get_or (modify machines j f) id no_machine) ≡ host_of (get_or machines id no_machine)
host-modify [] j id f h = refl
host-modify (m ∷ machines) zero zero f h = h m
host-modify (m ∷ machines) zero (suc id) f h = refl
host-modify (m ∷ machines) (suc j) zero f h = refl
host-modify (m ∷ machines) (suc j) (suc id) f h = host-modify machines j id f h

-- To write what a function makes of the machine there is to apply the function there.
modify_there :
    (machines : List Machine) (id : ℕ) (f : Machine → Machine)
    → modify machines id (λ _. f (get_or machines id no_machine)) ≡ modify machines id f
modify_there [] id f = refl
modify_there (m ∷ machines) zero f = refl
modify_there (m ∷ machines) (suc id) f = ap (λ ms. m ∷ ms) (modify_there machines id f)

-- The machines after `UpdateStatus` has found `s` at the machine `id`
abbrev pub updated : Option Metrics → ℕ → List Machine → List Machine
updated s id machines = modify machines id (λ m. (update_status (λ ip port. s) m).0)

-- The state with other machines
abbrev pub with_machines : List Machine → Guarded → Guarded
with_machines ms g = record g { balance = record g.balance { machines = ms } }

module _ (json : StatusJson) (answers : Answers) where
  -- What `UpdateStatus` finds at the machine `id`
  abbrev pub status_at : List Machine → ℕ → Result (Option Metrics)
  status_at machines id = status_of json answers (get_or machines id no_machine)

  pub update_at-ok :
      (id : ℕ) (g : Guarded) (s : Option Metrics)
      → status_at g.balance.machines id ≡ ok s
      → update_at json answers id g
        ≡ some (ok tt, with_machines (updated s id g.balance.machines) g)
  unfolding update_at update_status_from
  update_at-ok id g s e = rw e (
      ap (λ ms. some (ok tt, with_machines ms g))
        (modify_there g.balance.machines id (λ m. (update_status (λ ip port. s) m).0)))

  pub update_at-throws :
      (id : ℕ) (g : Guarded) (what : Text)
      → status_at g.balance.machines id ≡ throws what
      → update_at json answers id g ≡ some (throws what, g)
  unfolding update_at update_status_from
  update_at-throws id g what e = rw e refl

  -- A status that has been read elsewhere leaves what another machine answers.
  pub status_at-updated :
      (s : Option Metrics) (j id : ℕ) (machines : List Machine)
      → status_at (updated s j machines) id ≡ status_at machines id
  unfolding status_of
  status_at-updated s j id machines =
      ap (λ (h : Text × ℤ). read_response json (answers h.0 h.1))
        (host-modify machines j id _ (update_status-host (λ ip port. s)))

  module _ (poll : Poll) where
    -- The status of the machine `id` is read, as `poll` says.
    abbrev pub IsRead : List Machine → ℕ → Type 0
    IsRead machines id =
        let m = get_or machines id no_machine in status_at machines id ≡ ok (poll m.ip m.port)

    polled_there :
        (m : Machine) → (update_status (λ ip port. poll m.ip m.port) m).0 ≡ (update_status poll m).0
    unfolding update_status
    polled_there m = refl

    updated_polled :
        (machines : List Machine) (id : ℕ)
        → let m = get_or machines id no_machine in
          updated (poll m.ip m.port) id machines
          ≡ modify machines id (λ m'. (update_status poll m').0)
    updated_polled machines id =
        sym (modify_there machines id _)
        ∙ (ap (λ m'. modify machines id (λ _. m')) (polled_there (get_or machines id no_machine))
            ∙ modify_there machines id _)

    IsRead-modify :
        (j id : ℕ) (machines : List Machine)
        → IsRead machines id
        → IsRead (modify machines j (λ m. (update_status poll m).0)) id
    unfolding status_of
    IsRead-modify j id machines r =
        let same = host-modify machines j id _ (update_status-host poll) in
        ap (λ (h : Text × ℤ). read_response json (answers h.0 h.1)) same
        ∙ (r ∙ ap (λ (h : Text × ℤ). ok (poll h.0 h.1)) (sym same))

    All-IsRead-modify :
        (j : ℕ) (ids : List ℕ) (machines : List Machine)
        → All (IsRead machines) ids
        → All (IsRead (modify machines j (λ m. (update_status poll m).0))) ids
    All-IsRead-modify j [] machines r = tt
    All-IsRead-modify j (id ∷ ids) machines r =
        (IsRead-modify j id machines r.0, All-IsRead-modify j ids machines r.1)

    update_each-ok :
        (ids : List ℕ) (g : Guarded)
        → All (IsRead g.balance.machines) ids
        → update_each json answers ids g
          ≡ some (ok tt, with_machines (update_all poll ids g.balance.machines) g)
    unfolding update_each update_all
    update_each-ok [] g r = refl
    update_each-ok (id ∷ ids) g r =
        let ms = modify g.balance.machines id (λ m. (update_status poll m).0) in
        rw
          (
            update_at-ok id g _ r.0,
            updated_polled g.balance.machines id,
            update_each-ok ids (with_machines ms g)
                (All-IsRead-modify id ids g.balance.machines r.1),
          )
          refl

    choose_then_unlock-ok :
        (ids : List ℕ) (g : Guarded)
        → All (IsRead g.balance.machines) ids
        → let (lb, choice) = choose_from poll g.balance ids in
          choose_then_unlock json answers ids g
          ≡ some (ok choice, record { balance = lb; held = false })
    unfolding choose_then_unlock choose_from unlock
    choose_then_unlock-ok [] g r = refl
    choose_then_unlock-ok (first ∷ ids) g r = rw (update_each-ok (first ∷ ids) g r) refl

-- Where the status of every online machine is read without an exception, `SmartChoice` on a free
-- lock returns what `smart_choice` makes of the figures that were read, and leaves the lock free.
pub smart_choice_locked-eq :
    (json : StatusJson) (answers : Answers) (poll : Poll) (lb : LoadBalance)
    → All (IsRead json answers poll lb.machines) lb.online
    → let (lb', choice) = smart_choice poll lb in
      smart_choice_locked json answers (record { balance = lb; held = false })
      ≡ some (ok choice, record { balance = lb'; held = false })
unfolding smart_choice_locked smart_choice lock
smart_choice_locked-eq json answers poll lb r =
    choose_then_unlock-ok json answers poll lb.online (record { balance = lb; held = true }) r
