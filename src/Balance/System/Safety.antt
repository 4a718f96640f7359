-- ===== src/Balance/System/Safety.antt =====
-- Threads in the loop of Control::Judge, interleaved: the two lists of machines, and the machines
-- that the threads hold.
use mathlib.Core.List.Perm
use distributed_oj.Base.{
  ℕ, zero, suc, ◌<◌, ◌≡◌, refl, true, inl, inr, Bool-cases, ltb, arith, length-modify, List, [],
  ◌∷◌, ◌++◌, Option, Text, length, All,
}
use distributed_oj.Balance.{
  LoadBalance, Poll, no_machines, load_conf, online_machine, load_at, contains,
}
use distributed_oj.Balance.Partition.{
  IsPartition, inc_load_at-IsPartition, online_machine-IsPartition, load_conf-IsPartition,
}
use distributed_oj.Balance.System.Machines.{
  length-poll_at, length-inc_load_at, length-on_response, online_below,
}
use distributed_oj.Balance.Judge.{Next, stop, again, on_response}
use distributed_oj.Balance.Judge.Safety.{on_response-IsPartition, Holds}
use distributed_oj.Balance.System.{
  Stage, choosing, polling, comparing, chosen, posted, left, next_stage, entered, poll_at, compared,
  Network, Move, enter, poll, polled, compare, decide, increase, respond, Judging, Step, move,
  recover, Run, halt, later, waiting, any_network,
}

-- The machines that a thread knows are of `n`.
abbrev pub IsWithin : ℕ → Stage → Type 0
IsWithin n choosing = Unit
IsWithin n (polling first rest ids) = (first < n) × All (λ id. id < n) rest × All (λ id. id < n) ids
IsWithin n (comparing best min_load ids) = (best < n) × All (λ id. id < n) ids
IsWithin n (chosen id) = id < n
IsWithin n (posted id) = id < n
IsWithin n (left out) = Unit

-- Every machine is online or offline, and only once, and every thread holds one of them or none.
pub record IsSound (s : Judging) : Type 0 where
  pub partition : IsPartition s.balance
  pub threads : All (IsWithin (length s.balance.machines)) s.threads

module _ {ℓ κ} {A : Type ℓ} (P : A → Type κ) where
  pub All-at : (before : List A) (a : A) (after : List A) → All P (before ++ (a ∷ after)) → P a
  All-at [] a after h = h.0
  All-at (b ∷ before) a after h = All-at before a after h.1

  All-replace :
      (before : List A) (a b : A) (after : List A)
      → All P (before ++ (a ∷ after))
      → P b
      → All P (before ++ (b ∷ after))
  All-replace [] a b after h p = (p, h.1)
  All-replace (c ∷ before) a b after h p = (h.0, All-replace before a b after h.1 p)

next_stage-IsPartition :
    (n : Next) → Holds (λ lb out. IsPartition lb) IsPartition n → IsPartition (next_stage n).0
next_stage-IsPartition (stop lb out) h = h
next_stage-IsPartition (again lb) h = h

next_stage-IsWithin : (k : ℕ) (n : Next) → IsWithin k (next_stage n).1
next_stage-IsWithin k (stop lb out) = tt
next_stage-IsWithin k (again lb) = tt

online-IsWithin :
    (lb : LoadBalance) (ids : List ℕ)
    → IsPartition lb
    → ((id : ℕ) → contains id ids ≡ true → contains id lb.online ≡ true)
    → All (λ id. id < length lb.machines) ids
online-IsWithin lb [] h k = tt
online-IsWithin lb (i ∷ ids) h k = (
  online_below i lb h (k i (ground arith)),
  online-IsWithin lb ids h (λ id c. k id (ground arith)),
)

entered-IsWithin : (n : ℕ) (ids : List ℕ) → All (λ id. id < n) ids → IsWithin n (entered ids)
entered-IsWithin n [] h = tt
entered-IsWithin n (first ∷ rest) h = (h.0, h.1, h)

compared-IsWithin :
    (n : ℕ) (lb : LoadBalance) (best min_load id : ℕ) (ids : List ℕ)
    → IsWithin n (comparing best min_load (id ∷ ids))
    → IsWithin n (compared lb best min_load id ids)
unfolding compared
compared-IsWithin n lb best min_load id ids h =
    elim (Bool-cases (ltb (load_at lb.machines id) min_load)) [
      | inl better ↦ rw better h.1
      | inr worse ↦ rw worse (h.0, h.1.1)
    ]

poll_at-IsPartition :
    (answers : Poll) (id : ℕ) (lb : LoadBalance)
    → IsPartition lb
    → IsPartition (poll_at answers id lb)
unfolding poll_at
poll_at-IsPartition answers id lb h = rw (length-modify lb.machines id _) h

module _ {net : Network} where
  Move-IsPartition :
      {lb lb' : LoadBalance} {w w' : Stage}
      → Move net lb w lb' w'
      → IsPartition lb
      → IsPartition lb'
  Move-IsPartition enter h = h
  Move-IsPartition (poll answers p first rest id ids) h = poll_at-IsPartition answers id _ h
  Move-IsPartition (polled first rest) h = h
  Move-IsPartition (compare best min_load id ids) h = h
  Move-IsPartition (decide best min_load) h = h
  Move-IsPartition (increase id) h = inc_load_at-IsPartition id _ h
  Move-IsPartition (respond id response r) h =
      next_stage-IsPartition (on_response id _ response) (on_response-IsPartition id _ response h)

  pub length-Move :
      {lb lb' : LoadBalance} {w w' : Stage}
      → Move net lb w lb' w'
      → length lb'.machines ≡ length lb.machines
  length-Move enter = refl
  length-Move (poll answers p first rest id ids) = length-poll_at answers id _
  length-Move (polled first rest) = refl
  length-Move (compare best min_load id ids) = refl
  length-Move (decide best min_load) = refl
  length-Move (increase id) = length-inc_load_at id _
  length-Move (respond id response r) = length-on_response id _ response

  Move-IsWithin :
      {lb lb' : LoadBalance} {w w' : Stage}
      → Move net lb w lb' w'
      → IsPartition lb
      → IsWithin (length lb.machines) w
      → IsWithin (length lb.machines) w'
  Move-IsWithin {lb} enter h i =
      entered-IsWithin _ lb.online (online-IsWithin lb lb.online h (λ id c. c))
  Move-IsWithin (poll answers p first rest id ids) h i = (i.0, i.1, i.2.1)
  Move-IsWithin (polled first rest) h i = (i.0, (i.0, i.1))
  Move-IsWithin {lb} (compare best min_load id ids) h i =
      compared-IsWithin (length lb.machines) lb best min_load id ids i
  Move-IsWithin (decide best min_load) h i = i.0
  Move-IsWithin (increase id) h i = i
  Move-IsWithin (respond id response r) h i = next_stage-IsWithin _ (on_response id _ response)

  pub Step-IsSound : {s t : Judging} → Step net s t → IsSound s → IsSound t
  unfolding online_machine
  Step-IsSound (move before after {lb} {lb'} {w} {w'} m) h = record {
    partition = Move-IsPartition m h.partition;
    threads = rw (length-Move m) (
        All-replace (IsWithin (length lb.machines)) before w w' after h.threads (
          Move-IsWithin m h.partition
            (All-at (IsWithin (length lb.machines)) before w after h.threads)));
  }
  Step-IsSound (recover lb threads) h = record {
    partition = online_machine-IsPartition lb h.partition;
    threads = h.threads;
  }

  pub Run-IsSound : {s t : Judging} → Run net s t → IsSound s → IsSound t
  Run-IsSound halt h = h
  Run-IsSound (later r step) h = Step-IsSound step (Run-IsSound r h)

waiting-IsWithin : (k n : ℕ) → All (IsWithin k) (waiting n)
waiting-IsWithin k zero = tt
waiting-IsWithin k (suc n) = (tt, waiting-IsWithin k n)

-- `n` threads, after `LoadConf` has run on no machines
abbrev pub started : (Text → Text → List Text) → Option Text → ℕ → Judging
started split conf n = record {
  balance = (load_conf split conf no_machines).0;
  threads = waiting n;
}

pub started-IsSound :
    (split : Text → Text → List Text) (conf : Option Text) (n : ℕ) → IsSound (started split conf n)
started-IsSound split conf n = record {
  partition = load_conf-IsPartition split conf no_machines Perm.nil;
  threads = waiting-IsWithin _ n;
}

-- However `split` cuts the lines of the configuration, `n` threads judge submissions on the
-- machines that `LoadConf` makes of it, in any order of their steps, whatever the network answers
-- and whenever the machines are brought online again: every machine is online or offline, and only
-- once, and a thread that holds a machine holds one that is there.
pub Run-load_conf-IsSound :
    (split : Text → Text → List Text) (conf : Option Text) (n : ℕ) (s : Judging)
    → Run any_network (started split conf n) s
    → IsSound s
Run-load_conf-IsSound split conf n s r = Run-IsSound r (started-IsSound split conf n)
