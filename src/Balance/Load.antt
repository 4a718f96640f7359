-- ===== src/Balance/Load.antt =====
-- oj_server/oj_control.hpp, Machine::UpdateStatus: the load that it computes.
use distributed_oj.Base.{ℕ, ◌*◌, ◌≤◌, arith}
use distributed_oj.Balance.{Metrics, total_load}

-- Every figure lies between the two bounds.
pub record IsWithin (lo hi : ℕ) (s : Metrics) : Type 0 where
  pub cpu_lo : lo ≤ s.cpu_usage
  pub cpu_hi : s.cpu_usage ≤ hi
  pub memory_lo : lo ≤ s.memory_usage
  pub memory_hi : s.memory_usage ≤ hi
  pub network_lo : lo ≤ s.network_usage
  pub network_hi : s.network_usage ≤ hi
  pub disk_lo : lo ≤ s.disk_io_usage
  pub disk_hi : s.disk_io_usage ≤ hi
  pub connections_lo : lo ≤ s.active_connections
  pub connections_hi : s.active_connections ≤ hi
  pub one_lo : 1000 * lo ≤ s.load_avg_1min
  pub one_hi : s.load_avg_1min ≤ 1000 * hi
  pub five_lo : 1000 * lo ≤ s.load_avg_5min
  pub five_hi : s.load_avg_5min ≤ 1000 * hi
  pub fifteen_lo : 1000 * lo ≤ s.load_avg_15min
  pub fifteen_hi : s.load_avg_15min ≤ 1000 * hi
  pub time_lo : 1000 * lo ≤ s.response_time
  pub time_hi : s.response_time ≤ 1000 * hi

-- The weights add up to one: if every figure of a machine lies between `lo` and `hi`, then so does
-- its load. The load averages and the response time are in thousandths.
pub total_load-bounds :
    (lo hi : ℕ) (s : Metrics) → IsWithin lo hi s → (lo ≤ total_load s) × (total_load s ≤ hi)
unfolding total_load
total_load-bounds lo hi s w = omega arith
