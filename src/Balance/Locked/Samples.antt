-- ===== src/Balance/Locked/Samples.antt =====
-- Two machines' worth of readings, and a jsoncpp for one report.
use distributed_oj.Base.{ℕ, ◌+◌, ◌/◌, ◌≡◌, refl, [], none, some, Text, text, text_eq, if◌then◌else◌}
use distributed_oj.Base.Result.{Result, ok, throws}
use distributed_oj.Comm.Int.{ℤ, pos, negsuc, to_string_nat}
use distributed_oj.Comm.Cookie.{pieces}
use distributed_oj.Comm.Streams.{has_text, starts_with}
use distributed_oj.Comm.HostStatus.{Fraction, find_line, lines_of}
use distributed_oj.Comm.HostStatus.Columns.{Received, Sent, net_line, DiskFigures, disk_line}
use distributed_oj.Comm.HostStatus.Usage.{Ticks, cpu_line, state_at, busy_share}
use distributed_oj.CompileServer.Status.{Readings, Statics, Report}
use distributed_oj.Balance.Status.{StatusJson}
use distributed_oj.Balance.Locked.Reported.{IsWritten}

-- A jsoncpp for one report: a figure that is negative throws.
abbrev pub as_uint64_of : ℤ → ℤ → Result ℕ
as_uint64_of (negsuc u) l = throws (text "double out of UInt64 range")
as_uint64_of (pos u) (pos l) = ok (u / l)
as_uint64_of (pos u) (negsuc l) = throws (text "double out of UInt64 range")

abbrev pub as_uint64 : Fraction → Result ℕ
as_uint64 f = as_uint64_of f.upper f.lower

abbrev pub uint64_at : Report → Text → Result ℕ
uint64_at v key =
    if text_eq key (text "cpu_usage")
    then as_uint64 v.cpu_usage
    else if text_eq key (text "memory_usage")
    then as_uint64 v.memory_usage
    else if text_eq key (text "network_usage")
    then as_uint64 v.network_usage
    else if text_eq key (text "disk_io_usage")
    then as_uint64 v.disk_io_usage
    else ok v.active_connections

abbrev pub average_at : Report → Text → Result ℕ
average_at v key =
    if text_eq key (text "1min")
    then ok v.load_1min
    else if text_eq key (text "5min")
    then ok v.load_5min
    else ok v.load_15min

abbrev pub reading : Report → StatusJson
reading report = record {
  Value = Report;
  parse = λ body. some report;
  get_uint64 = uint64_at;
  get_average = average_at;
  get_float = λ v key. ok v.response_time;
}

pub reading-IsWritten : (report : Report) (body : Text) → IsWritten (reading report) report body
reading-IsWritten report body = record {
  status = report;
  parsed = refl;
  negative = λ u l e h. (text "double out of UInt64 range", rw e refl);
}

abbrev pub ticks : ℕ → Ticks
ticks n = record { user = 10 + n; nice = 0; system = 5; idle = 85 }

abbrev pub received : Received
received = record {
  bytes = 4096;
  packets = 4;
  errs = 0;
  drop = 0;
  fifo = 0;
  frame = 0;
  compressed = 0;
  multicast = 2;
}

abbrev pub sent : Sent
sent = record {
  bytes = 2048;
  packets = 3;
  errs = 0;
  drop = 0;
  fifo = 0;
  colls = 0;
  carrier = 0;
  compressed = 0;
}

abbrev pub disk_figures : DiskFigures
disk_figures = record {
  reads = 3;
  reads_merged = 0;
  sectors_read = 8;
  ms_reading = 1;
  writes = 5;
  writes_merged = 1;
  sectors_written = 64;
  ms_writing = 2;
  in_progress = 0;
  ms_doing = 3;
  ms_weighted = 3;
}

abbrev pub readings : Readings
readings = record {
  proc_stat = some (cpu_line (ticks 20) []);
  net_dev = some (net_line (text "eth0:") received sent);
  diskstats = some (disk_line 8 0 (text "sda") disk_figures []);
  tcp = none;
  totalram = 100;
  freeram = 40;
  mem_unit = 1;
  load_1min = 0;
  load_5min = 0;
  load_15min = 0;
  pause = 10000;
}

pub eth0_line :
    find_line (text "eth0") (lines_of readings.net_dev)
    ≡ some (net_line (text "eth0:") received sent)
unfolding find_line has_text starts_with pieces to_string_nat
eth0_line = refl

-- What had been counted at the call before, with `n` bytes received, and what is counted now
abbrev pub before : ℕ → Statics
before n = record {
  cpu = state_at (ticks 0);
  net = record { first = pos n; second = pos 0 };
  disk = record { first = pos 0; second = pos 0 };
}

abbrev pub after : Statics
after = record {
  cpu = state_at (ticks 20);
  net = record { first = pos 4096; second = pos 2 };
  disk = record { first = pos 4096; second = pos 512 };
}

-- The report where the counters were 0 before
abbrev pub grown_report : Report
grown_report = record {
  cpu_usage = busy_share (ticks 0) (ticks 20);
  memory_usage = record { upper = pos 6000; lower = pos 100 };
  network_usage = record { upper = pos 4098; lower = pos 1024 };
  disk_io_usage = record { upper = pos 4608; lower = pos 1024 };
  active_connections = 0;
  load_1min = 0;
  load_5min = 0;
  load_15min = 0;
  response_time = 10000;
}
