-- ===== src/Comm/HostStatus/Tests.antt =====
-- The figures of HostStatusUtil on short texts in place of the files of /proc.
use distributed_oj.Base.{◌≡◌, refl, ◌↔◌, [], ◌∷◌, ◌++◌, some, Text, text, arith}
use distributed_oj.Base.Result.{ok, ◌>>=◌}
use distributed_oj.Comm.Int.{pos, to_string_nat}
use distributed_oj.Comm.Int.Sums.{◌≤ℤ◌, scale}
use distributed_oj.Comm.Cookie.{pieces}
use distributed_oj.Comm.Streams.{has_text, starts_with}
use distributed_oj.Comm.HostStatus.{
  Counters, find_line, lines_of, first_line, get_active_connections, count_lines, growth,
  get_network_usage, get_disk_io_usage, get_cpu_usage,
}
use distributed_oj.Comm.HostStatus.Columns.{
  Received, Sent, net_line, DiskFigures, disk_line, get_network_usage-net_line,
  get_disk_io_usage-disk_line,
}
use distributed_oj.Comm.HostStatus.Usage.{
  Ticks, cpu_line, Grows, state_at, busy_share, sum_of, get_cpu_usage-busy_share,
}

abbrev pub received : Received
received = record {
  bytes = 4096;
  packets = 4;
  errs = 0;
  drop = 0;
  fifo = 0;
  frame = 0;
  compressed = 0;
  multicast = 2;
}

abbrev pub sent : Sent
sent = record {
  bytes = 2048;
  packets = 3;
  errs = 0;
  drop = 0;
  fifo = 0;
  colls = 0;
  carrier = 0;
  compressed = 0;
}

abbrev pub eth0 : Text
eth0 = text "eth0:"

abbrev pub net_dev : Text
net_dev = text "lo: 1" ++ (b'\n' ∷ net_line eth0 received sent)

net_line_test :
    net_line eth0 received sent
    ≡ text "  eth0:    4096       4    0    0    0     0          0         2"
      ++ text "     2048       3    0    0    0     0       0          0"
unfolding to_string_nat
net_line_test = refl

abbrev no_counters : Counters
no_counters = record { first = pos 0; second = pos 0 }

find_line-net_dev :
    find_line (text "eth0") (lines_of (some net_dev)) ≡ some (net_line eth0 received sent)
unfolding find_line has_text starts_with pieces to_string_nat
find_line-net_dev = refl

get_network_usage-net_line_example :
    get_network_usage (text "eth0") (some net_dev) no_counters
    ≡ ok (growth (record { first = pos 4096; second = pos 2 }) no_counters)
get_network_usage-net_line_example =
    get_network_usage-net_line (text "eth0") eth0 (some net_dev) received sent no_counters
      (refl, (refl, (refl, (refl, (refl, tt))))) find_line-net_dev

abbrev written : DiskFigures
written = record {
  reads = 3;
  reads_merged = 0;
  sectors_read = 8;
  ms_reading = 1;
  writes = 5;
  writes_merged = 1;
  sectors_written = 64;
  ms_writing = 2;
  in_progress = 0;
  ms_doing = 3;
  ms_weighted = 3;
}

abbrev sda : Text
sda = disk_line 8 0 (text "sda") written (0 ∷ 0 ∷ 0 ∷ 0 ∷ [])

find_line-sda : find_line (text "sda") (lines_of (some sda)) ≡ some sda
unfolding find_line has_text starts_with pieces to_string_nat
find_line-sda = refl

get_disk_io_usage-disk_line_example :
    get_disk_io_usage (some sda) no_counters
    ≡ ok (growth (record { first = pos 4096; second = pos 512 }) no_counters)
get_disk_io_usage-disk_line_example =
    get_disk_io_usage-disk_line (some sda) 8 0 (text "sda") written (0 ∷ 0 ∷ 0 ∷ 0 ∷ []) no_counters
      (refl, (refl, (refl, tt))) find_line-sda

abbrev pub early : Ticks
early = record { user = 10; nice = 0; system = 5; idle = 85 }

abbrev later : Ticks
later = record { user = 30; nice = 0; system = 10; idle = 160 }

early_first : first_line (lines_of (some (cpu_line early (7 ∷ [])))) ≡ cpu_line early (7 ∷ [])
unfolding pieces to_string_nat
early_first = refl

later_first : first_line (lines_of (some (cpu_line later []))) ≡ cpu_line later []
unfolding pieces to_string_nat
later_first = refl

early-later : Grows early later
early-later = record {
  user = omega arith;
  nice = omega arith;
  system = omega arith;
  idle = omega arith;
}

get_cpu_usage-busy_share_example :
    let share = busy_share early later in
    ((get_cpu_usage
          (some (cpu_line early (7 ∷ [])))
          (record { prev_idle = pos 0; prev_total = pos 0 })
        >>= λ r. get_cpu_usage (some (cpu_line later [])) r.0)
      ≡ ok (state_at later, share))
    × (pos 0 ≤ℤ share.upper)
    × (share.upper ≤ℤ scale 100 share.lower)
    × ((share.lower ≡ pos 0) ↔ (sum_of later ≡ sum_of early))
get_cpu_usage-busy_share_example =
    get_cpu_usage-busy_share (some (cpu_line early (7 ∷ []))) (some (cpu_line later [])) early later
      (7 ∷ []) [] (record { prev_idle = pos 0; prev_total = pos 0 }) early_first later_first
      early-later

-- A quarter of the ticks between the two was busy, 25 of 100.
busy_share_test : busy_share early later ≡ record { upper = pos 2500; lower = pos 100 }
busy_share_test = refl

-- 0A in the address of a connection that is established counts it as well.
get_active_connections_test : get_active_connections (some (text "0: 0100000A:1F90 01")) ≡ 1
unfolding get_active_connections count_lines has_text starts_with pieces
get_active_connections_test = refl
