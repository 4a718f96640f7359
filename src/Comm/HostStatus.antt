-- ===== src/Comm/HostStatus.antt =====
-- comm/util.hpp, HostStatusUtil: the figures that a compile server reports. The texts of /proc are
-- arguments, and a static variable is an argument and a result. A float is an exact fraction, whose
-- lower part may be 0 (the source then has an infinity or NaN). Sums do not overflow.
pub mod Columns
pub mod Usage
mod Tests
use distributed_oj.Base.{
  ℕ, zero, suc, ◌+◌, ◌-◌, ◌*◌, Bool, true, false, List, [], ◌∷◌, Option, none, some, Text, text,
  if◌then◌else◌,
}
use distributed_oj.Base.Result.{Result, ok, throws, undefined, ◌>>=◌}
use distributed_oj.Comm.Int.{ℤ, pos}
use distributed_oj.Comm.Int.Sums.{◌+ℤ◌, ◌-ℤ◌, scale}
use distributed_oj.Comm.Cookie.{pieces}
use distributed_oj.Comm.Streams.{Stream, skip_word, read_long, has_text}

-- A `float` before it is rounded to 24 bits: what is stated of one is its sign, its bounds by whole
-- numbers, and what it is a quotient of.
pub record Fraction : Type 0 where
  pub upper : ℤ
  pub lower : ℤ

-- A variable that is read before anything has been written to it
abbrev pub value_of : Option ℤ → Result ℤ
value_of none = undefined
value_of (some v) = ok v

-- The lines of a file; one that does not open has none.
abbrev pub lines_of : Option Text → List Text
lines_of none = []
lines_of (some content) = pieces b'\n' content

-- `ss >> v` that many times, into one variable
unfoldable pub read_times : ℕ → Stream → Option ℤ → Stream × Option ℤ
unfolding read_long
read_times zero s v = (s, v)
read_times (suc n) s v = let (s', v') = read_long s v in read_times n s' v'

unfoldable pub skip_times : ℕ → Stream → Stream
unfolding skip_word
skip_times zero s = s
skip_times (suc n) s = skip_times n (skip_word s)

-- The first line that holds a text
unfoldable pub find_line : Text → List Text → Option Text
unfolding has_text
find_line pattern [] = none
find_line pattern (line ∷ lines) =
    if has_text pattern line then some line else find_line pattern lines

-- The four times of the first line of /proc/stat
abbrev pub Times : Type 0
Times = Option ℤ × Option ℤ × Option ℤ × Option ℤ

unfoldable pub cpu_times : Text → Times
unfolding skip_word read_long
cpu_times line =
    let s0 = skip_word (some line) in
    let (s1, user) = read_long s0 none in
    let (s2, nice) = read_long s1 none in
    let (s3, system) = read_long s2 none in
    let (s4, idle) = read_long s3 none in (user, nice, system, idle)

-- What `static long prev_idle` and `prev_total` hold between two calls
pub record CpuState : Type 0 where
  pub prev_idle : ℤ
  pub prev_total : ℤ

unfoldable pub cpu_usage_of : ℤ → ℤ → ℤ → ℤ → CpuState → CpuState × Fraction
cpu_usage_of user nice system idle prev =
    let total = user +ℤ nice +ℤ system +ℤ idle in
    let totald = total -ℤ prev.prev_total in
    let idled = idle -ℤ prev.prev_idle in
    (
      record { prev_idle = idle; prev_total = total },
      record { upper = scale 100 (totald -ℤ idled); lower = totald },
    )

abbrev pub first_line : List Text → Text
first_line [] = []
first_line (line ∷ lines) = line

-- `get_cpu_usage`, in percent
unfoldable pub get_cpu_usage : Option Text → CpuState → Result (CpuState × Fraction)
unfolding cpu_usage_of
get_cpu_usage proc_stat prev = do
  let (user, nice, system, idle) = cpu_times (first_line (lines_of proc_stat))
  u ← value_of user
  n ← value_of nice
  s ← value_of system
  i ← value_of idle
  ok (cpu_usage_of u n s i prev)

-- `get_memory_usage`, in percent, of what `sysinfo` has filled in; no more is free than there is.
unfoldable pub get_memory_usage : ℕ → ℕ → ℕ → Fraction
get_memory_usage totalram freeram mem_unit = record {
  upper = pos ((totalram - freeram) * mem_unit * 100);
  lower = pos (totalram * mem_unit);
}

-- What two static counters of bytes hold between two calls
pub record Counters : Type 0 where
  pub first : ℤ
  pub second : ℤ

-- The difference to the last call, over 1024, and the counters of this one
unfoldable pub growth : Counters → Counters → Counters × Fraction
growth now prev = (
  now,
  record { upper = (now.first -ℤ prev.first) +ℤ (now.second -ℤ prev.second); lower = pos 1024 },
)

-- `rx_bytes` and `tx_bytes`, as the line of the interface sets them
unfoldable pub net_counters : Text → Option ℤ × Option ℤ
unfolding skip_word read_long read_times
net_counters line =
    let s0 = skip_word (some line) in
    let (s1, rx_bytes) = read_long s0 none in
    let (s2, tx_bytes) = read_times 7 s1 none in (rx_bytes, tx_bytes)

abbrev pub of_line : Option Text → Option ℤ × Option ℤ
of_line none = (none, none)
of_line (some line) = net_counters line

-- `get_network_usage`; without a line of the interface the two counters are never written to.
unfoldable pub get_network_usage : Text → Option Text → Counters → Result (Counters × Fraction)
unfolding growth
get_network_usage iface net_dev prev = do
  let (rx_bytes, tx_bytes) = of_line (find_line iface (lines_of net_dev))
  rx ← value_of rx_bytes
  tx ← value_of tx_bytes
  ok (growth (record { first = rx; second = tx }) prev)

-- `read_bytes` and `write_bytes`, as the line of the disk sets them
unfoldable pub disk_counters : Text → Result Counters
unfolding skip_times read_long
disk_counters line = do
  let s0 = skip_times 5 (some line)
  let (s1, reads) = read_long s0 none
  let s2 = skip_times 2 s1
  let (s3, write_bytes) = read_long s2 (some (pos 0))
  r ← value_of reads
  w ← value_of write_bytes
  ok (record { first = scale 512 r; second = scale 512 w })

abbrev pub of_disk_line : Option Text → Result Counters
of_disk_line none = ok (record { first = pos 0; second = pos 0 })
of_disk_line (some line) = disk_counters line

-- `get_disk_io_usage`; without a line of the disk the counters are 0.
unfoldable pub get_disk_io_usage : Option Text → Counters → Result (Counters × Fraction)
unfolding growth
get_disk_io_usage diskstats prev = do
  now ← of_disk_line (find_line (text "sda") (lines_of diskstats))
  ok (growth now prev)

unfoldable pub count_lines : Text → List Text → ℕ
unfolding has_text
count_lines pattern [] = 0
count_lines pattern (line ∷ lines) =
    if has_text pattern line then count_lines pattern lines + 1 else count_lines pattern lines

-- `get_active_connections`
unfoldable pub get_active_connections : Option Text → ℕ
unfolding count_lines
get_active_connections tcp = count_lines (text "0A") (lines_of tcp)
