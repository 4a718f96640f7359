-- ===== src/Balance/System.antt =====
-- oj_server/oj_control.hpp: several threads in the loop of Control::Judge at once, interleaved in
-- any order over one LoadBalance, while a signal may bring the machines online at any time.
pub mod Machines
pub mod Silent
pub mod Safety
pub mod Flight
pub mod Loads
pub mod Account
pub mod Choosing
mod Tests
use distributed_oj.Base.{
  ℕ, zero, suc, List, [], ◌∷◌, ◌++◌, Option, none, some, Text, ltb, if◌then◌else◌, modify,
}
use distributed_oj.Balance.{
  LoadBalance, Poll, load_at, update_status, offline_machine, online_machine, inc_load_at,
  dec_load_at,
}
use distributed_oj.Balance.Judge.{Next, stop, again, on_response}

-- Where a thread stands in the loop: before SmartChoice; in the first loop of it, with the ids that
-- were online and those of them still to be polled; in the second one, with the best id so far, its
-- load as it was read, and the ids still to be compared; between SmartChoice and IncLoad; between
-- IncLoad and the response; or behind the loop.
pub data Stage : Type 0 where
  choosing : Stage
  polling : ℕ → List ℕ → List ℕ → Stage
  comparing : ℕ → ℕ → List ℕ → Stage
  chosen : ℕ → Stage
  posted : ℕ → Stage
  left : Option Text → Stage

-- A branch of the loop, as where it leads
abbrev pub next_stage : Next → LoadBalance × Stage
next_stage (stop lb out) = (lb, left out)
next_stage (again lb) = (lb, choosing)

-- Past the test on `online_num`
abbrev pub entered : List ℕ → Stage
entered [] = left none
entered (first ∷ rest) = polling first rest (first ∷ rest)

-- `machines[online[i]].UpdateStatus()`
unfoldable pub poll_at : Poll → ℕ → LoadBalance → LoadBalance
poll_at poll id lb = record lb { machines = modify lb.machines id (λ m. (update_status poll m).0) }

-- `if (min_load > cur_load)`
unfoldable pub compared : LoadBalance → ℕ → ℕ → ℕ → List ℕ → Stage
compared lb best min_load id ids =
    let cur_load = load_at lb.machines id in
    if ltb cur_load min_load then comparing id cur_load ids else comparing best min_load ids

-- Which answers to /status, and which to a post, the network may give
pub record Network : Type 1 where
  pub Polls : Poll → Type 0
  pub Responses : Option (ℕ × Text) → Type 0

abbrev pub any_network : Network
any_network = record { Polls = λ poll. Unit; Responses = λ response. Unit }

-- What one thread may do next. IncLoad, DecLoad and Load hold the lock of one machine alone, so that
-- they come between the steps of SmartChoice in another thread. That SmartChoice and OfflineMachine
-- hold the lock of LoadBalance is left out: it takes runs away, and what holds of all runs here
-- holds of those that are left.
pub data Move (net : Network) (lb : LoadBalance) : Stage → LoadBalance → Stage → Type 0 where
  enter : Move net lb choosing lb (entered lb.online)
  poll :
      (answers : Poll)
      → net.Polls answers
      → (first : ℕ) (rest : List ℕ) (id : ℕ) (ids : List ℕ)
      → Move net lb (polling first rest (id ∷ ids)) (poll_at answers id lb) (polling first rest ids)
  polled :
      (first : ℕ) (rest : List ℕ)
      → Move net lb
          (polling first rest [])
          lb
          (comparing first (load_at lb.machines first) (first ∷ rest))
  compare :
      (best min_load id : ℕ) (ids : List ℕ)
      → Move net lb (comparing best min_load (id ∷ ids)) lb (compared lb best min_load id ids)
  decide : (best min_load : ℕ) → Move net lb (comparing best min_load []) lb (chosen best)
  increase : (id : ℕ) → Move net lb (chosen id) (inc_load_at id lb) (posted id)
  respond :
      (id : ℕ) (response : Option (ℕ × Text))
      → net.Responses response
      → Move net lb
          (posted id)
          (next_stage (on_response id lb response)).0
          (next_stage (on_response id lb response)).1

pub record Judging : Type 0 where
  pub balance : LoadBalance
  pub threads : List Stage

pub data Step (net : Network) : Judging → Judging → Type 0 where
  move :
      (before after : List Stage) {lb lb' : LoadBalance} {w w' : Stage}
      → Move net lb w lb' w'
      → Step net
          (record { balance = lb; threads = before ++ (w ∷ after) })
          (record { balance = lb'; threads = before ++ (w' ∷ after) })
  recover :
      (lb : LoadBalance) (threads : List Stage)
      → Step net
          (record { balance = lb; threads = threads })
          (record { balance = online_machine lb; threads = threads })

pub data Run (net : Network) (s : Judging) : Judging → Type 0 where
  halt : Run net s s
  later : {t u : Judging} → Run net s t → Step net t u → Run net s u

-- `n` threads at the head of the loop
abbrev pub waiting : ℕ → List Stage
waiting zero = []
waiting (suc n) = choosing ∷ waiting n
