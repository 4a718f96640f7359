-- ===== src/CompileServer/Status.antt =====
-- compile_server/compile_server.cc: the handler of /status, which reports what HostStatusUtil
-- finds.
mod Tests
use distributed_oj.Base.{ℕ, Option, Text, text}
use distributed_oj.Base.Result.{Result, ok, throws, undefined, ◌>>=◌}
use distributed_oj.Comm.HostStatus.{
  CpuState, Counters, Fraction, get_cpu_usage, get_memory_usage, get_network_usage,
  get_disk_io_usage, get_active_connections,
}

-- What one call reads of the operating system: the files of /proc, `sysinfo`, `getloadavg` in
-- thousandths, and how long the pause of `get_response_time` has lasted, in microseconds.
pub record Readings : Type 0 where
  pub proc_stat : Option Text
  pub net_dev : Option Text
  pub diskstats : Option Text
  pub tcp : Option Text
  pub totalram : ℕ
  pub freeram : ℕ
  pub mem_unit : ℕ
  pub load_1min : ℕ
  pub load_5min : ℕ
  pub load_15min : ℕ
  pub pause : ℕ

-- The static variables of HostStatusUtil
pub record Statics : Type 0 where
  pub cpu : CpuState
  pub net : Counters
  pub disk : Counters

-- The members of the answer
pub record Report : Type 0 where
  pub cpu_usage : Fraction
  pub memory_usage : Fraction
  pub network_usage : Fraction
  pub disk_io_usage : Fraction
  pub active_connections : ℕ
  pub load_1min : ℕ
  pub load_5min : ℕ
  pub load_15min : ℕ
  pub response_time : ℕ

-- GET /status
unfoldable pub get_status : Readings → Statics → Result (Statics × Report)
unfolding get_memory_usage get_active_connections
get_status r v = do
  (cpu, cpu_usage) ← get_cpu_usage r.proc_stat v.cpu
  let memory_usage = get_memory_usage r.totalram r.freeram r.mem_unit
  (net, network_usage) ← get_network_usage (text "eth0") r.net_dev v.net
  (disk, disk_io_usage) ← get_disk_io_usage r.diskstats v.disk
  ok (
    record { cpu = cpu; net = net; disk = disk },
    record {
      cpu_usage = cpu_usage;
      memory_usage = memory_usage;
      network_usage = network_usage;
      disk_io_usage = disk_io_usage;
      active_connections = get_active_connections r.tcp;
      load_1min = r.load_1min;
      load_5min = r.load_5min;
      load_15min = r.load_15min;
      response_time = r.pause;
    },
  )
