-- ===== src/Server/Threads/Schedules.antt =====
-- oj_server/oj_server.cc: what the schedules of handlers start from and give to each.
use distributed_oj.Base.{ℕ, ◌+◌, List, [], ◌∷◌, ◌==◌, if◌then◌else◌}
use distributed_oj.Server.Threads.{
  Entries, Handler, logging_in, logging_out, looking, trusting, arrived, Threads,
}

-- A handler that neither logs in nor out
abbrev pub Reads : Handler → Type 0
Reads (logging_in username) = ⊥
Reads logging_out = ⊥
Reads looking = Unit
Reads trusting = Unit

-- All threads before their first step, on a map
abbrev pub arriving : Entries → Threads
arriving entries = record { entries = entries; progress = λ i. arrived }

-- How many turns a schedule gives to a thread
abbrev pub turns_of : ℕ → List ℕ → ℕ
turns_of i [] = 0
turns_of i (j ∷ schedule) = if j == i then turns_of i schedule + 1 else turns_of i schedule
