-- ===== src/Balance/Status.antt =====
-- oj_server/oj_control.hpp, Machine::UpdateStatus: what is made of the answer to GET /status. The
-- conversions of jsoncpp throw on a member of the wrong kind and on a figure out of range.
use distributed_oj.Base.{ℕ, Bool, Option, none, some, Text, text, ◌==◌, if◌then◌else◌}
use distributed_oj.Base.Result.{Result, ok, ◌>>=◌}
use distributed_oj.Comm.Int.{ℤ}
use distributed_oj.Balance.{Machine, Metrics, update_status}

-- What `UpdateStatus` uses of jsoncpp, which is not part of the repository: `parseFromStream`, and
-- for a key `v[key].asUInt64()`, `v["load_average"][key].asDouble()` and `v[key].asFloat()`, the
-- last two in thousandths. Negative averages and response times are left out.
pub record StatusJson : Type 1 where
  pub Value : Type 0
  pub parse : Text → Option Value
  pub get_uint64 : Value → Text → Result ℕ
  pub get_average : Value → Text → Result ℕ
  pub get_float : Value → Text → Result ℕ

-- What the hosts answer to GET /status: `none` where there is no response, and otherwise its status
-- and body.
abbrev pub Answers : Type 0
Answers = Text → ℤ → Option (ℕ × Text)

module _ (json : StatusJson) where
  -- The nine conversions, in their order
  unfoldable pub read_metrics : json.Value → Result Metrics
  read_metrics status = do
    cpu_usage ← json.get_uint64 status (text "cpu_usage")
    memory_usage ← json.get_uint64 status (text "memory_usage")
    network_usage ← json.get_uint64 status (text "network_usage")
    disk_io_usage ← json.get_uint64 status (text "disk_io_usage")
    active_connections ← json.get_uint64 status (text "active_connections")
    load_avg_1min ← json.get_average status (text "1min")
    load_avg_5min ← json.get_average status (text "5min")
    load_avg_15min ← json.get_average status (text "15min")
    response_time ← json.get_float status (text "response_time")
    ok (record {
      cpu_usage = cpu_usage;
      memory_usage = memory_usage;
      network_usage = network_usage;
      disk_io_usage = disk_io_usage;
      active_connections = active_connections;
      load_avg_1min = load_avg_1min;
      load_avg_5min = load_avg_5min;
      load_avg_15min = load_avg_15min;
      response_time = response_time;
    })

  unfoldable pub read_value : Option json.Value → Result (Option Metrics)
  unfolding read_metrics
  read_value none = ok none
  read_value (some status) = do s ← read_metrics status; ok (some s)

  -- The two tests before the conversions
  unfoldable pub read_response : Option (ℕ × Text) → Result (Option Metrics)
  unfolding read_value
  read_response none = ok none
  read_response (some (status, body)) =
      if status == 200 then read_value (json.parse body) else ok none

  unfoldable pub status_of : Answers → Machine → Result (Option Metrics)
  unfolding read_response
  status_of answers m = read_response (answers m.ip m.port)

  -- `UpdateStatus`: the load is set only behind the last conversion.
  unfoldable pub update_status_from : Answers → Machine → Result (Machine × Bool)
  unfolding status_of
  update_status_from answers m = do s ← status_of answers m; ok (update_status (λ ip port. s) m)
