-- ===== src/Comm/HostStatus/Usage.antt =====
-- comm/util.hpp, HostStatusUtil::get_cpu_usage: between which bounds its figure lies.
use distributed_oj.Base.{
  ◌↔◌, ℕ, ◌+◌, ◌-◌, ◌*◌, ◌≤◌, ◌≡◌, refl, ◌∙◌, ap, List, ◌∷◌, ◌++◌, Option, some, Text, text, arith,
}
use distributed_oj.Base.Result.{ok, ◌>>=◌}
use distributed_oj.Comm.Int.{ℤ, pos, pos_injective, skip_spaces}
use distributed_oj.Comm.Int.Sums.{◌≤ℤ◌, scale, +ℤ_pos, -ℤ_pos, scale-pos}
use distributed_oj.Comm.Streams.{read_long}
use distributed_oj.Comm.Streams.Columns.{columns, read_long-columns}
use distributed_oj.Comm.HostStatus.{
  CpuState, Fraction, cpu_times, cpu_usage_of, first_line, lines_of, get_cpu_usage,
}

-- The times of the first line of /proc/stat, in ticks
pub record Ticks : Type 0 where
  pub user : ℕ
  pub nice : ℕ
  pub system : ℕ
  pub idle : ℕ

-- That line, with two blanks behind its name; further columns follow.
abbrev pub cpu_line : Ticks → List ℕ → Text
cpu_line t more = text "cpu " ++ columns (t.user ∷ t.nice ∷ t.system ∷ t.idle ∷ more)

abbrev pub sum_of : Ticks → ℕ
sum_of t = t.user + t.nice + t.system + t.idle

-- The counters only grow.
pub record Grows (before now : Ticks) : Type 0 where
  pub user : before.user ≤ now.user
  pub nice : before.nice ≤ now.nice
  pub system : before.system ≤ now.system
  pub idle : before.idle ≤ now.idle

-- The first number stands behind two blanks.
read_long-blank :
    (n : ℕ) (ns : List ℕ) (v : Option ℤ)
    → read_long (some (b' ' ∷ columns (n ∷ ns))) v ≡ (some (columns ns), some (pos n))
unfolding read_long skip_spaces
read_long-blank n ns v = read_long-columns n ns v

cpu_times-cpu_line :
    (t : Ticks) (more : List ℕ)
    → cpu_times (cpu_line t more)
      ≡ (some (pos t.user), some (pos t.nice), some (pos t.system), some (pos t.idle))
unfolding cpu_times
cpu_times-cpu_line t more = simp (read_long-blank)

pub get_cpu_usage-cpu_line :
    (proc_stat : Option Text) (t : Ticks) (more : List ℕ) (prev : CpuState)
    → first_line (lines_of proc_stat) ≡ cpu_line t more
    → get_cpu_usage proc_stat prev
      ≡ ok (cpu_usage_of (pos t.user) (pos t.nice) (pos t.system) (pos t.idle) prev)
unfolding get_cpu_usage
get_cpu_usage-cpu_line proc_stat t more prev e = rw (e, cpu_times-cpu_line t more) refl

abbrev pub state_at : Ticks → CpuState
state_at t = record { prev_idle = pos t.idle; prev_total = pos (sum_of t) }

cpu_usage_of-state_at :
    (t : Ticks) (prev : CpuState)
    → (cpu_usage_of (pos t.user) (pos t.nice) (pos t.system) (pos t.idle) prev).0 ≡ state_at t
unfolding cpu_usage_of
cpu_usage_of-state_at t prev = simp +ℤ_pos

-- The share of the ticks of the interval that were not idle
abbrev pub busy_share : Ticks → Ticks → Fraction
busy_share before now = record {
  upper = pos (100 * ((sum_of now - sum_of before) - (now.idle - before.idle)));
  lower = pos (sum_of now - sum_of before);
}

pub cpu_usage_of-busy_share :
    (before now : Ticks)
    → Grows before now
    → cpu_usage_of (pos now.user) (pos now.nice) (pos now.system) (pos now.idle) (state_at before)
      ≡ (state_at now, busy_share before now)
unfolding cpu_usage_of
cpu_usage_of-busy_share before now g =
    rw (+ℤ_pos, +ℤ_pos, +ℤ_pos)
      (rw
        (
          -ℤ_pos (sum_of now) (sum_of before) (omega arith),
          -ℤ_pos now.idle before.idle g.idle,
          -ℤ_pos (sum_of now - sum_of before) (now.idle - before.idle) (omega arith),
          scale-pos,
        )
        refl)

-- Where /proc/stat begins with "cpu", two blanks and figures, which only grow, a call that follows
-- another returns the share of the ticks in between that were not idle: its upper part is at least
-- 0 and at most 100 times its lower part, which is 0 exactly where the counters stand still.
pub get_cpu_usage-busy_share :
    (stat0 stat1 : Option Text) (before now : Ticks) (more0 more1 : List ℕ) (prev : CpuState)
    → first_line (lines_of stat0) ≡ cpu_line before more0
    → first_line (lines_of stat1) ≡ cpu_line now more1
    → Grows before now
    → let share = busy_share before now in
      ((get_cpu_usage stat0 prev >>= λ r. get_cpu_usage stat1 r.0) ≡ ok (state_at now, share))
      × (pos 0 ≤ℤ share.upper)
      × (share.upper ≤ℤ scale 100 share.lower)
      × ((share.lower ≡ pos 0) ↔ (sum_of now ≡ sum_of before))
get_cpu_usage-busy_share stat0 stat1 before now more0 more1 prev e0 e1 g = (
  rw (get_cpu_usage-cpu_line stat0 before more0 prev e0, cpu_usage_of-state_at before prev)
      (get_cpu_usage-cpu_line stat1 now more1 (state_at before) e1
        ∙ ap ok (cpu_usage_of-busy_share before now g)),
  omega arith,
  rw (scale-pos 100 (sum_of now - sum_of before)) (omega arith),
  ((λ e. no_growth (pos_injective _ _ e)), λ e. ap pos (omega arith)),
)
  where
    no_growth : sum_of now - sum_of before ≡ 0 → sum_of now ≡ sum_of before
    no_growth e = omega arith
