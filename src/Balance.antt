-- ===== src/Balance.antt =====
-- oj_server/oj_control.hpp: Machine and LoadBalance. The locks of the source make each operation
-- one step; what happens between two of them is the matter of Balance/Race and Balance/System, and
-- Balance/Locked follows the calls with the lock itself.
pub mod Load
pub mod Partition
pub mod Choice
pub mod Race
pub mod Judge
pub mod System
pub mod Status
pub mod Locked
pub mod Polled
mod Tests
use distributed_oj.Base.{
  ℕ, zero, suc, ◌+◌, ◌-◌, ◌*◌, ◌/◌, ◌%◌, ◌^◌, Bool, true, false, ◌||◌, List, [], ◌∷◌, ◌++◌, Option,
  none, some, Text, text, ltb, ◌==◌, if◌then◌else◌, length, get_or, modify,
}
use distributed_oj.Comm.Int.{ℤ, pos, atoi}
use distributed_oj.Comm.Cookie.{pieces}

-- `mtx` points to a lock for every machine that `LoadConf` makes, and is left out.
pub record Machine : Type 0 where
  pub ip : Text
  pub port : ℤ
  pub load : ℕ

-- `Machine()`
abbrev pub no_machine : Machine
no_machine = record { ip = []; port = pos 0; load = 0 }

-- `load++` and `load--` on `uint64_t`
unfoldable pub inc_load : Machine → Machine
inc_load m = record m { load = (m.load + 1) % 2 ^ 64 }

unfoldable pub dec_load : Machine → Machine
dec_load m = record m { load = (m.load + 2 ^ 64 - 1) % 2 ^ 64 }

unfoldable pub reset_load : Machine → Machine
reset_load m = record m { load = 0 }

-- What /status reports: five whole numbers, and, in thousandths, the three load averages and the
-- response time.
pub record Metrics : Type 0 where
  pub cpu_usage : ℕ
  pub memory_usage : ℕ
  pub network_usage : ℕ
  pub disk_io_usage : ℕ
  pub active_connections : ℕ
  pub load_avg_1min : ℕ
  pub load_avg_5min : ℕ
  pub load_avg_15min : ℕ
  pub response_time : ℕ

-- The weighted sum of `UpdateStatus`, in exact arithmetic over the common denominator 60000, and
-- truncated as by the cast to `uint64_t`.
unfoldable pub total_load : Metrics → ℕ
total_load s =
    (24000 * s.cpu_usage
      + 12000 * s.memory_usage
      + 6000 * s.network_usage
      + 6000 * s.disk_io_usage
      + 3000 * s.active_connections
      + 2 * (s.load_avg_1min + s.load_avg_5min + s.load_avg_15min)
      + 3 * s.response_time)
    / 60000

-- What the hosts answer to /status: `none` where the request, its status or its body is bad.
abbrev pub Poll : Type 0
Poll = Text → ℤ → Option Metrics

-- `UpdateStatus`
unfoldable pub update_status : Poll → Machine → Machine × Bool
unfolding total_load
update_status poll m = elim (poll m.ip m.port) [
  | none ↦ (m, false)
  | some s ↦ (record m { load = total_load s % 2 ^ 64 }, true)
]

pub record LoadBalance : Type 0 where
  pub machines : List Machine
  pub online : List ℕ
  pub offline : List ℕ

abbrev pub no_machines : LoadBalance
no_machines = record { machines = []; online = []; offline = [] }

abbrev pub push_machine : LoadBalance → Text → Text → LoadBalance
push_machine lb ip port = record {
  machines = lb.machines ++ (record { ip = ip; port = atoi port; load = 0 } ∷ []);
  online = lb.online ++ (length lb.machines ∷ []);
  offline = lb.offline;
}

-- One line of the configuration, cut at ':'; a line that has not two parts is passed over.
unfoldable pub add_machine : LoadBalance → List Text → LoadBalance
add_machine lb (ip ∷ port ∷ []) = push_machine lb ip port
add_machine lb _ = lb

-- `split` is boost::split with token compression, on a text and its separators.
module _ (split : Text → Text → List Text) where
  unfoldable pub load_lines : List Text → LoadBalance → LoadBalance
  load_lines [] lb = lb
  load_lines (line ∷ lines) lb = load_lines lines (add_machine lb (split line (text ":")))

  -- `LoadConf`, on the content of the file, if it opens
  unfoldable pub load_conf : Option Text → LoadBalance → LoadBalance × Bool
  unfolding load_lines pieces
  load_conf none lb = (lb, false)
  load_conf (some content) lb = (load_lines (pieces b'\n' content) lb, true)

abbrev pub load_at : List Machine → ℕ → ℕ
load_at machines id = (get_or machines id no_machine).load

-- The first loop of `SmartChoice`
unfoldable pub update_all : Poll → List ℕ → List Machine → List Machine
update_all poll [] machines = machines
update_all poll (id ∷ ids) machines =
    update_all poll ids (modify machines id (λ m. (update_status poll m).0))

-- Its second loop: the least load so far, whose it is, and the ids still to be seen.
unfoldable pub least : List Machine → ℕ → ℕ → List ℕ → ℕ
least machines min_load best [] = best
least machines min_load best (id ∷ ids) =
    let cur_load = load_at machines id in
    let better = least machines cur_load id ids in
    let same = least machines min_load best ids in if ltb cur_load min_load then better else same

-- `SmartChoice`: the id of the chosen machine, `none` where it returns false.
unfoldable pub choose_from : Poll → LoadBalance → List ℕ → LoadBalance × Option ℕ
choose_from poll lb [] = (lb, none)
choose_from poll lb (first ∷ ids) =
    let machines = update_all poll (first ∷ ids) lb.machines in
    (
      record lb { machines = machines },
      some (least machines (load_at machines first) first (first ∷ ids)),
    )

unfoldable pub smart_choice : Poll → LoadBalance → LoadBalance × Option ℕ
smart_choice poll lb = choose_from poll lb lb.online

abbrev pub contains : ℕ → List ℕ → Bool
contains which [] = false
contains which (id ∷ ids) = id == which || contains which ids

-- `erase` of the first entry that is equal
abbrev pub erase : ℕ → List ℕ → List ℕ
erase which [] = []
erase which (id ∷ ids) = if id == which then ids else id ∷ erase which ids

-- `OfflineMachine`
unfoldable pub offline_machine : ℕ → LoadBalance → LoadBalance
offline_machine which lb =
    if contains which lb.online
    then record {
      machines = modify lb.machines which reset_load;
      online = erase which lb.online;
      offline = lb.offline ++ (which ∷ []);
    }
    else lb

-- `OnlineMachine`
unfoldable pub online_machine : LoadBalance → LoadBalance
online_machine lb = record lb { online = lb.online ++ lb.offline; offline = [] }

-- `m->IncLoad()` and `m->DecLoad()` through the pointer that `SmartChoice` gives
unfoldable pub inc_load_at : ℕ → LoadBalance → LoadBalance
inc_load_at id lb = record lb { machines = modify lb.machines id inc_load }

unfoldable pub dec_load_at : ℕ → LoadBalance → LoadBalance
dec_load_at id lb = record lb { machines = modify lb.machines id dec_load }
