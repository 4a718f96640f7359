-- ===== src/Balance/Choice.antt =====
-- oj_server/oj_control.hpp, LoadBalance::SmartChoice: which machine it chooses.
use native.Mathlib.Nat.{le_trans}
use distributed_oj.Base.{
  ℕ, ◌≤◌, ◌≡◌, refl, sym, subst, ◌⊎◌, true, inl, inr, List, [], ◌∷◌, Option, none, some, arith, ltb,
  Bool-cases, All,
}
use distributed_oj.Balance.{
  Machine, LoadBalance, Poll, load_at, update_all, least, choose_from, smart_choice, contains,
}

-- The chosen one is the old best or among the ids, and none of them has a smaller load.
record IsLeast (machines : List Machine) (best : ℕ) (ids : List ℕ) (chosen : ℕ) : Type 0 where
  found : contains chosen (best ∷ ids) ≡ true
  least_best : load_at machines chosen ≤ load_at machines best
  least_ids : All (λ id. load_at machines chosen ≤ load_at machines id) ids

IsLeast-cons :
    (machines : List Machine) (best id now : ℕ) (ids : List ℕ) (chosen : ℕ)
    → (now ≡ best) ⊎ (now ≡ id)
    → load_at machines now ≤ load_at machines best
    → load_at machines now ≤ load_at machines id
    → IsLeast machines now ids chosen
    → IsLeast machines best (id ∷ ids) chosen
IsLeast-cons machines best id now ids chosen which p q l = record {
  found = here l.found;
  least_best = le_trans l.least_best p;
  least_ids = (le_trans l.least_best q, l.least_ids);
}
  where
    here : contains chosen (now ∷ ids) ≡ true → contains chosen (best ∷ id ∷ ids) ≡ true
    here f = ground arith

least_lem :
    (machines : List Machine) (best : ℕ) (ids : List ℕ)
    → IsLeast machines best ids (least machines (load_at machines best) best ids)
unfolding least
least_lem machines best [] = record {
  found = ground arith;
  least_best = omega arith;
  least_ids = tt;
}
least_lem machines best (id ∷ ids) =
    elim (Bool-cases (ltb (load_at machines id) (load_at machines best))) [
      | inl better ↦ subst (IsLeast machines best (id ∷ ids)) (sym (rw better)) (
          IsLeast-cons machines best id id ids _ (inr refl) (ground arith) (omega arith)
            (least_lem machines id ids))
      | inr worse ↦ subst (IsLeast machines best (id ∷ ids)) (sym (rw worse)) (
          IsLeast-cons machines best id best ids _ (inl refl) (omega arith) (ground arith)
            (least_lem machines best ids))
    ]

-- What a choice promises: where no machine is online there is none; otherwise it is a machine that
-- is online, with a load, as just updated, that no other online machine is below.
abbrev pub IsChoice : LoadBalance → Option ℕ → Type 0
IsChoice lb none = lb.online ≡ []
IsChoice lb (some chosen) =
    (contains chosen lb.online ≡ true)
    × All (λ id. load_at lb.machines chosen ≤ load_at lb.machines id) lb.online

choose_from-IsChoice :
    (poll : Poll) (lb : LoadBalance) (ids : List ℕ)
    → lb.online ≡ ids
    → let r = choose_from poll lb ids in IsChoice r.0 r.1
unfolding choose_from
choose_from-IsChoice poll lb [] e = e
choose_from-IsChoice poll lb (first ∷ ids) e =
    let machines = update_all poll (first ∷ ids) lb.machines in
    let l = least_lem machines first (first ∷ ids) in (rw e (ground arith), rw e l.least_ids)

-- `SmartChoice` fails only if no machine is online, and otherwise chooses an online machine of the
-- least load.
pub smart_choice-IsChoice :
    (poll : Poll) (lb : LoadBalance) → let r = smart_choice poll lb in IsChoice r.0 r.1
unfolding smart_choice
smart_choice-IsChoice poll lb = choose_from-IsChoice poll lb lb.online refl

choose_from-lists :
    (poll : Poll) (lb : LoadBalance) (ids : List ℕ)
    → ((choose_from poll lb ids).0.online ≡ lb.online)
      × ((choose_from poll lb ids).0.offline ≡ lb.offline)
unfolding choose_from
choose_from-lists poll lb [] = (refl, refl)
choose_from-lists poll lb (first ∷ ids) = (refl, refl)

-- A choice moves no machine.
pub smart_choice-lists :
    (poll : Poll) (lb : LoadBalance)
    → ((smart_choice poll lb).0.online ≡ lb.online)
      × ((smart_choice poll lb).0.offline ≡ lb.offline)
unfolding smart_choice
smart_choice-lists poll lb = choose_from-lists poll lb lb.online
