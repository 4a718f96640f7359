-- ===== src/Comm/Log.antt =====
-- comm/log.hpp: the head of a line of the log; what a caller appends to the stream follows it.
use distributed_oj.Base.{ℕ, ◌++◌, Text, text, ◌≡◌, refl}
use distributed_oj.Comm.Clock.{get_time_stamp}
use distributed_oj.Comm.Int.{ℤ, to_string}

abbrev pub bracketed : Text → Text
bracketed s = text "[" ++ (s ++ text "]")

-- `Log`, at a number of seconds since the epoch
unfoldable pub log : Text → Text → ℤ → ℕ → Text
log level file_name line seconds =
    bracketed level
    ++ (bracketed file_name ++ (bracketed (to_string line) ++ bracketed (get_time_stamp seconds)))

log_test : log (text "INFO") (text "a.cc") (ℤ.pos 7) 99 ≡ text "[INFO][a.cc][7][99]"
unfolding log get_time_stamp to_string
log_test = refl
