-- ===== src/Comm/Clock.antt =====
-- comm/util.hpp, TimeUtil: the times as texts, of the seconds and microseconds that `gettimeofday`
-- gives.
use distributed_oj.Base.{ℕ, ◌+◌, ◌*◌, ◌/◌, ◌≡◌, refl, Text, text}
use distributed_oj.Comm.Int.{to_string_nat}

-- `GetTimeStamp`
unfoldable pub get_time_stamp : ℕ → Text
unfolding to_string_nat
get_time_stamp tv_sec = to_string_nat tv_sec

-- `GetTimeMs`
unfoldable pub get_time_ms : ℕ → ℕ → Text
unfolding to_string_nat
get_time_ms tv_sec tv_usec = to_string_nat (tv_sec * 1000 + tv_usec / 1000)

get_time_ms_test : get_time_ms 12 34567 ≡ text "12034"
unfolding get_time_ms
get_time_ms_test = refl
