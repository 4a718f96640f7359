-- ===== src/Comm/HostStatus/Columns.antt =====
-- comm/util.hpp, HostStatusUtil: which columns of /proc/net/dev and /proc/diskstats are counted.
use distributed_oj.Base.{
  length, ◌-◌, ℕ, ◌*◌, ◌≡◌, refl, ◌∙◌, ap, false, List, [], ◌∷◌, ◌++◌, Option, some, Text, text,
  All,
}
use distributed_oj.Base.Result.{ok}
use distributed_oj.Comm.Int.{pos, is_space, skip_spaces}
use distributed_oj.Comm.Int.Sums.{scale-pos}
use distributed_oj.Comm.Streams.{skip_word, drop_word}
use distributed_oj.Comm.Streams.Columns.{
  spaces, right, padded, IsCut, columns, read_long-columns, read_long-padded, skip_word-columns,
  skip_word-spaces, skip_word-blank, skip_word-right, drop_word-IsCut, columns-IsCut, padded-IsCut,
}
use distributed_oj.Comm.HostStatus.{
  Counters, growth, net_counters, read_times, skip_times, disk_counters, find_line, lines_of,
  get_network_usage, get_disk_io_usage,
}

-- A name as /proc writes it: not empty, and without blanks.
abbrev pub IsName : Text → Type 0
IsName [] = ⊥
IsName (c ∷ s) = All (λ d. is_space d ≡ false) (c ∷ s)

drop_word-append :
    (name rest : Text)
    → All (λ d. is_space d ≡ false) name
    → drop_word (name ++ rest) ≡ drop_word rest
unfolding drop_word
drop_word-append [] rest h = refl
drop_word-append (c ∷ s) rest (p, h) = rw p (drop_word-append s rest h)

skip_spaces-name : (c : ℕ) (s : Text) → is_space c ≡ false → skip_spaces (c ∷ s) ≡ c ∷ s
unfolding skip_spaces
skip_spaces-name c s h = rw h refl

skip_word-name :
    (name rest : Text) → IsName name → IsCut rest → skip_word (some (name ++ rest)) ≡ some rest
unfolding skip_word
skip_word-name [] rest h cut = absurd h
skip_word-name (c ∷ s) rest h cut =
    rw (skip_spaces-name c (s ++ rest) h.0)
      (ap some (drop_word-append (c ∷ s) rest h ∙ drop_word-IsCut rest cut))

-- A line of /proc/net/dev: the eight figures of what an interface has received, the eight of what
-- it has sent.
pub record Received : Type 0 where
  pub bytes : ℕ
  pub packets : ℕ
  pub errs : ℕ
  pub drop : ℕ
  pub fifo : ℕ
  pub frame : ℕ
  pub compressed : ℕ
  pub multicast : ℕ

pub record Sent : Type 0 where
  pub bytes : ℕ
  pub packets : ℕ
  pub errs : ℕ
  pub drop : ℕ
  pub fifo : ℕ
  pub colls : ℕ
  pub carrier : ℕ
  pub compressed : ℕ

-- The widths are those of the kernel: "%6s: %7llu %7llu %4llu %4llu %4llu %5llu %10llu %9llu", for
-- what it has received, and " %8llu %7llu %4llu %4llu %4llu %5llu %7llu %10llu" for what it has
-- sent. The name here includes its colon.
abbrev pub net_line : Text → Received → Sent → Text
net_line name r s = spaces (7 - length name) (
    name
    ++ padded (
        (7, r.bytes)
        ∷ (7, r.packets)
        ∷ (4, r.errs)
        ∷ (4, r.drop)
        ∷ (4, r.fifo)
        ∷ (5, r.frame)
        ∷ (10, r.compressed)
        ∷ (9, r.multicast)
        ∷ (8, s.bytes)
        ∷ (7, s.packets)
        ∷ (4, s.errs)
        ∷ (4, s.drop)
        ∷ (4, s.fifo)
        ∷ (5, s.colls)
        ∷ (7, s.carrier)
        ∷ (10, s.compressed)
        ∷ []))

net_counters-net_line :
    (name : Text) (r : Received) (s : Sent)
    → IsName name
    → net_counters (net_line name r s) ≡ (some (pos r.bytes), some (pos r.multicast))
unfolding net_counters read_times
net_counters-net_line name r s h =
    let cs : List (ℕ × ℕ) =
      (7, r.bytes)
      ∷ (7, r.packets)
      ∷ (4, r.errs)
      ∷ (4, r.drop)
      ∷ (4, r.fifo)
      ∷ (5, r.frame)
      ∷ (10, r.compressed)
      ∷ (9, r.multicast)
      ∷ (8, s.bytes)
      ∷ (7, s.packets)
      ∷ (4, s.errs)
      ∷ (4, s.drop)
      ∷ (4, s.fifo)
      ∷ (5, s.colls)
      ∷ (7, s.carrier)
      ∷ (10, s.compressed)
      ∷ [] in
    simp (
      skip_word-spaces (7 - length name) (name ++ padded cs),
      skip_word-name name (padded cs) h (padded-IsCut cs),
      read_long-padded,
    )

-- Where the first line that holds the name of the interface is one as the kernel prints it, its
-- sixteen figures in their widths, the bytes received are counted, but in place of the bytes sent
-- the multicast frames received: what an interface sends never counts.
pub get_network_usage-net_line :
    (iface name : Text) (net_dev : Option Text) (r : Received) (s : Sent) (prev : Counters)
    → IsName name
    → find_line iface (lines_of net_dev) ≡ some (net_line name r s)
    → get_network_usage iface net_dev prev
      ≡ ok (growth (record { first = pos r.bytes; second = pos r.multicast }) prev)
unfolding get_network_usage
get_network_usage-net_line iface name net_dev r s prev h found =
    rw (found, net_counters-net_line name r s h) refl

-- A line of /proc/diskstats: device numbers and name, the first eleven figures, and what newer
-- kernels print behind them.
pub record DiskFigures : Type 0 where
  pub reads : ℕ
  pub reads_merged : ℕ
  pub sectors_read : ℕ
  pub ms_reading : ℕ
  pub writes : ℕ
  pub writes_merged : ℕ
  pub sectors_written : ℕ
  pub ms_writing : ℕ
  pub in_progress : ℕ
  pub ms_doing : ℕ
  pub ms_weighted : ℕ

abbrev figures : DiskFigures → List ℕ → List ℕ
figures d more =
    d.reads ∷ d.reads_merged ∷ d.sectors_read ∷ d.ms_reading ∷ d.writes ∷ d.writes_merged
    ∷ d.sectors_written ∷ d.ms_writing ∷ d.in_progress ∷ d.ms_doing ∷ d.ms_weighted ∷ more

-- "%4d %7d %s %lu %lu …"
abbrev pub disk_line : ℕ → ℕ → Text → DiskFigures → List ℕ → Text
disk_line major minor name d more =
    let named = b' ' ∷ (name ++ columns (figures d more)) in
    right 4 major (b' ' ∷ right 7 minor named)

disk_counters-disk_line :
    (major minor : ℕ) (name : Text) (d : DiskFigures) (more : List ℕ)
    → IsName name
    → disk_counters (disk_line major minor name d more)
      ≡ ok (record { first = pos (512 * d.sectors_read); second = pos (512 * d.writes_merged) })
unfolding disk_counters skip_times
disk_counters-disk_line major minor name d more h =
    let named = b' ' ∷ (name ++ columns (figures d more)) in
    simp (
      skip_word-right 4 major (b' ' ∷ right 7 minor named) refl,
      skip_word-blank (right 7 minor named),
      skip_word-right 7 minor named refl,
      skip_word-blank (name ++ columns (figures d more)),
      skip_word-name name (columns (figures d more)) h (columns-IsCut (figures d more)),
      skip_word-columns,
      read_long-columns,
      scale-pos,
    )

-- Where the first line that holds "sda" is one as the kernel prints it, `get_disk_io_usage` counts
-- 512 bytes for each sector read, but in place of the sectors written it counts the write requests
-- that were merged.
pub get_disk_io_usage-disk_line :
    (diskstats : Option Text) (major minor : ℕ) (name : Text) (d : DiskFigures) (more : List ℕ)
    (prev : Counters)
    → IsName name
    → find_line (text "sda") (lines_of diskstats) ≡ some (disk_line major minor name d more)
    → get_disk_io_usage diskstats prev
      ≡ ok (
          growth
            (record { first = pos (512 * d.sectors_read); second = pos (512 * d.writes_merged) })
            prev)
unfolding get_disk_io_usage
get_disk_io_usage-disk_line diskstats major minor name d more prev h found =
    rw (found, disk_counters-disk_line major minor name d more h) refl
