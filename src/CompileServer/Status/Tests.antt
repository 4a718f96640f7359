-- ===== src/CompileServer/Status/Tests.antt =====
-- GET /status on a host whose only interface is lo.
use distributed_oj.Base.{◌≡◌, refl, [], none, some, text}
use distributed_oj.Base.Result.{undefined}
use distributed_oj.Comm.Int.{pos, to_string_nat}
use distributed_oj.Comm.Int.Sums.{◌+ℤ◌, ◌-ℤ◌, scale}
use distributed_oj.Comm.Cookie.{pieces}
use distributed_oj.Comm.Streams.{has_text, starts_with}
use distributed_oj.Comm.HostStatus.{find_line, cpu_times, get_cpu_usage, get_network_usage}
use distributed_oj.Comm.HostStatus.Usage.{Ticks, cpu_line}
use distributed_oj.CompileServer.Status.{Readings, Statics, get_status}

abbrev ticks : Ticks
ticks = record { user = 10; nice = 0; system = 5; idle = 85 }

abbrev without_eth0 : Readings
without_eth0 = record {
  proc_stat = some (cpu_line ticks []);
  net_dev = some (text "lo: 1 2 3");
  diskstats = none;
  tcp = none;
  totalram = 100;
  freeram = 40;
  mem_unit = 1;
  load_1min = 0;
  load_5min = 0;
  load_15min = 0;
  pause = 10000;
}

abbrev started : Statics
started = record {
  cpu = record { prev_idle = pos 0; prev_total = pos 0 };
  net = record { first = pos 0; second = pos 0 };
  disk = record { first = pos 0; second = pos 0 };
}

get_status_test : get_status without_eth0 started ≡ undefined
unfolding get_status get_network_usage get_cpu_usage find_line has_text starts_with pieces
    to_string_nat cpu_times ◌+ℤ◌ ◌-ℤ◌ scale
get_status_test = refl
