-- ===== src/Balance/Tests.antt =====
-- Two machines, the configuration that names them, and the theorems about them.
use mathlib.Core.List.Perm
use distributed_oj.Base.{
  if◌then◌else◌, text_eq, ℕ, ◌≡◌, ◌≤◌, ◌-◌, ◌^◌, refl, List, [], ◌∷◌, none, some, Text, text, arith,
}
use distributed_oj.Comm.Int.{pos, atoi}
use distributed_oj.Comm.Cookie.{pieces}
use distributed_oj.Balance.{
  Machine, LoadBalance, Metrics, Poll, no_machines, total_load, load_conf, smart_choice,
  offline_machine, inc_load_at, dec_load_at, inc_load, dec_load, load_at, update_status,
  choose_from, update_all, least, add_machine,
}
use distributed_oj.Balance.Load.{total_load-bounds}
use distributed_oj.Balance.Partition.{
  IsPartition, offline_machine-IsPartition, load_conf-IsPartition,
}
use distributed_oj.Balance.Choice.{IsChoice, smart_choice-IsChoice}
use distributed_oj.Balance.Polled.{smart_choice-polled}
use distributed_oj.Balance.Race.{dec_load_at-offline, dec_load-inc_load}

abbrev first_machine : Machine
first_machine = record { ip = text "a"; port = pos 8081; load = 0 }

abbrev two_machines : LoadBalance
two_machines = record {
  machines = first_machine ∷ record { ip = text "b"; port = pos 8082; load = 0 } ∷ [];
  online = 0 ∷ 1 ∷ [];
  offline = [];
}

two_machines-IsPartition : IsPartition two_machines
two_machines-IsPartition = Perm.refl (0 ∷ 1 ∷ [])

abbrev split_colon : Text → Text → List Text
split_colon line separators = pieces b':' line

load_conf_test :
    (load_conf split_colon (some (text "a:8081\nb:8082\nbad\n")) no_machines).0 ≡ two_machines
unfolding load_conf pieces atoi add_machine
load_conf_test = refl

load_conf-IsPartition_test :
    IsPartition (load_conf split_colon (some (text "a:8081\nb:8082\nbad\n")) no_machines).0
load_conf-IsPartition_test =
    load_conf-IsPartition split_colon (some (text "a:8081\nb:8082\nbad\n")) no_machines
      (Perm.refl [])

offline_machine-IsPartition_test : IsPartition (offline_machine 0 two_machines)
offline_machine-IsPartition_test =
    offline_machine-IsPartition 0 two_machines two_machines-IsPartition

-- Every figure is 40, but the response takes a minute.
abbrev figures : ℕ → Metrics
figures time = record {
  cpu_usage = 40;
  memory_usage = 40;
  network_usage = 40;
  disk_io_usage = 40;
  active_connections = 40;
  load_avg_1min = 40000;
  load_avg_5min = 40000;
  load_avg_15min = 40000;
  response_time = time;
}

total_load-bounds_test : (40 ≤ total_load (figures 60000)) × (total_load (figures 60000) ≤ 60)
total_load-bounds_test = total_load-bounds 40 60 (figures 60000) (record {
  cpu_lo = omega arith;
  cpu_hi = omega arith;
  memory_lo = omega arith;
  memory_hi = omega arith;
  network_lo = omega arith;
  network_hi = omega arith;
  disk_lo = omega arith;
  disk_hi = omega arith;
  connections_lo = omega arith;
  connections_hi = omega arith;
  one_lo = omega arith;
  one_hi = omega arith;
  five_lo = omega arith;
  five_hi = omega arith;
  fifteen_lo = omega arith;
  fifteen_hi = omega arith;
  time_lo = omega arith;
  time_hi = omega arith;
})

-- The first machine does not answer, and the second reports figures.
abbrev only_second : Poll
only_second ip port = if text_eq ip (text "b") then some (figures 60000) else none

smart_choice-IsChoice_example :
    IsChoice (smart_choice only_second two_machines).0 (smart_choice only_second two_machines).1
smart_choice-IsChoice_example = smart_choice-IsChoice only_second two_machines

choice_test : (smart_choice only_second two_machines).1 ≡ some 0
unfolding smart_choice choose_from update_all least update_status
choice_test = refl

dec_load_at-offline_example :
    load_at
      (dec_load_at 0 (offline_machine 0 (inc_load_at 0 (inc_load_at 0 two_machines)))).machines
      0
    ≡ 2 ^ 64 - 1
dec_load_at-offline_example = dec_load_at-offline 0 two_machines (omega arith) refl

dec_load-inc_load_test : dec_load (inc_load first_machine) ≡ first_machine
dec_load-inc_load_test = dec_load-inc_load first_machine (omega arith)

-- A machine that has nothing to do
abbrev idle : Metrics
idle = record {
  cpu_usage = 0;
  memory_usage = 0;
  network_usage = 0;
  disk_io_usage = 0;
  active_connections = 0;
  load_avg_1min = 0;
  load_avg_5min = 0;
  load_avg_15min = 0;
  response_time = 0;
}

-- A submission is on the second machine, and another one asks for the loads.
smart_choice-polled_example :
    let lb = (smart_choice (λ ip port. some idle) (inc_load_at 1 two_machines)).0 in
    (load_at lb.machines 1 ≡ 0) × (load_at (dec_load_at 1 lb).machines 1 ≡ 2 ^ 64 - 1)
unfolding inc_load_at total_load
smart_choice-polled_example =
    smart_choice-polled (λ ip port. some idle) (inc_load_at 1 two_machines) 1 idle
      (Perm.refl (0 ∷ 1 ∷ [])) refl refl
