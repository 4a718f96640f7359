-- ===== src/Balance/Locked/Tests.antt =====
-- Two machines under their lock, and a compile server whose report they read.
use distributed_oj.Base.{
  ℕ, ◌≡◌, ◌≢◌, refl, Bool, true, false, [], ◌∷◌, Option, none, some, Text, text, text_eq, All,
  arith, if◌then◌else◌, ◌==◌,
}
use distributed_oj.Base.Result.{Result, ok, throws, undefined}
use distributed_oj.Comm.Int.{pos, negsuc, to_string_nat}
use distributed_oj.Comm.Int.Sums.{◌+ℤ◌, ◌-ℤ◌, scale}
use distributed_oj.Comm.Cookie.{pieces}
use distributed_oj.Comm.HostStatus.{
  cpu_times, net_counters, disk_counters, get_cpu_usage, get_memory_usage, get_network_usage,
  get_disk_io_usage, get_active_connections, find_line,
}
use distributed_oj.CompileServer.Status.{Report, get_status}
use distributed_oj.Balance.{LoadBalance, Metrics, Poll, smart_choice}
use distributed_oj.Balance.Status.{StatusJson, Answers, read_value, read_response, status_of}
use distributed_oj.Balance.Locked.{Guarded, smart_choice_locked}
use distributed_oj.Balance.Locked.Agreement.{IsRead, status_at, smart_choice_locked-eq}
use distributed_oj.Balance.Locked.Stuck.{Operation, call, smart_choice_locked-stuck}
use distributed_oj.Balance.Locked.Reported.{get_status-stuck}
use distributed_oj.Balance.Locked.Samples.{
  reading, reading-IsWritten, received, sent, readings, eth0_line, before, after, grown_report,
}

abbrev pub grown_json : StatusJson
grown_json = reading grown_report

-- All of the 20 ticks were busy; 4098 bytes of the network and 4608 of the disk are 4 kilobytes
-- each.
abbrev grown_metrics : Metrics
grown_metrics = record {
  cpu_usage = 100;
  memory_usage = 60;
  network_usage = 4;
  disk_io_usage = 4;
  active_connections = 0;
  load_avg_1min = 0;
  load_avg_5min = 0;
  load_avg_15min = 0;
  response_time = 10000;
}

grown_status : get_status readings (before 0) ≡ ok (after, grown_report)
unfolding get_status get_cpu_usage get_network_usage get_disk_io_usage cpu_times pieces
    to_string_nat find_line net_counters disk_counters ◌+ℤ◌ scale ◌-ℤ◌ get_memory_usage
    get_active_connections
grown_status = refl

-- The interface has been set up anew: it had received 8000 bytes, and now 4096.
abbrev fallen_report : Report
fallen_report = record grown_report {
  network_usage = record { upper = negsuc 3901; lower = pos 1024 };
}

fallen_status : get_status readings (before 8000) ≡ ok (after, fallen_report)
unfolding get_status get_cpu_usage get_network_usage get_disk_io_usage cpu_times pieces
    to_string_nat find_line net_counters disk_counters ◌+ℤ◌ scale ◌-ℤ◌ get_memory_usage
    get_active_connections
fallen_status = refl

abbrev pub fallen_json : StatusJson
fallen_json = reading fallen_report

abbrev pub two_machines : LoadBalance
two_machines = record {
  machines =
      record { ip = text "a"; port = pos 8081; load = 3 }
      ∷ record { ip = text "b"; port = pos 8082; load = 5 }
      ∷ [];
  online = 0 ∷ 1 ∷ [];
  offline = [];
}

-- Only the second machine answers.
abbrev pub answers : Answers
answers ip port = if text_eq ip (text "b") then some (200, text "{}") else none

fallen_read :
    read_value fallen_json (some fallen_report) ≡ throws (text "double out of UInt64 range")
unfolding read_value get_memory_usage
fallen_read = refl

not_undefined :
    {A : Type 0} (b : Bool) (r : Result A) (a : A) {what : Text}
    → r ≡ throws what
    → (if b then r else ok a) ≢ undefined
not_undefined true r a e bad = cc
not_undefined false r a e bad = cc

pub reading-defined :
    (response : Option (ℕ × Text)) → read_response fallen_json response ≢ undefined
unfolding read_response
reading-defined none e = cc
reading-defined (some (status, body)) e =
    not_undefined (status == 200) (read_value fallen_json (some fallen_report)) none fallen_read e

pub fallen_at :
    status_at fallen_json answers two_machines.machines 1
    ≡ throws (text "double out of UInt64 range")
unfolding status_of read_response
fallen_at = fallen_read

-- What a call leaves where it has thrown: no other call returns.
abbrev IsStuck : Type 1
IsStuck =
    (why : Text) × (g : Guarded) × (smart_choice_locked fallen_json answers
        (record { balance = two_machines; held = false })
      ≡ some (throws why, g))
    × ((c : Operation) → call c g ≡ none)

smart_choice_locked-stuck_test : IsStuck
smart_choice_locked-stuck_test =
    smart_choice_locked-stuck fallen_json answers two_machines 1 (text "double out of UInt64 range")
      reading-defined refl fallen_at

get_status-stuck_example : IsStuck
get_status-stuck_example =
    get_status-stuck fallen_json answers two_machines 1 readings (before 8000) after fallen_report
      (text "{}") (text "eth0:") received sent 8000 0 fallen_status
      (refl, (refl, (refl, (refl, (refl, tt))))) eth0_line refl (omega arith)
      (reading-IsWritten fallen_report (text "{}")) reading-defined refl refl

-- The figures of a machine that only grow, as a poll
abbrev pub grown_poll : Poll
grown_poll ip port = if text_eq ip (text "b") then some grown_metrics else none

grown-IsRead : All (IsRead grown_json answers grown_poll two_machines.machines) two_machines.online
unfolding status_of read_response read_value get_memory_usage
grown-IsRead = (refl, (refl, tt))

smart_choice_locked-eq_test :
    let (lb, choice) = smart_choice grown_poll two_machines in
    smart_choice_locked grown_json answers (record { balance = two_machines; held = false })
    ≡ some (ok choice, record { balance = lb; held = false })
smart_choice_locked-eq_test =
    smart_choice_locked-eq grown_json answers grown_poll two_machines grown-IsRead
