-- ===== src/Server/Threads/Tests.antt =====
-- Threads with requests of the sessions A1 and B2.
use distributed_oj.Base.{ℕ, zero, suc, ◌≡◌, refl, [], ◌∷◌, none, some, Text, text, arith}
use distributed_oj.Server.Threads.{
  Entries, find_entry, Handler, logging_in, logging_out, trusting, crashed, thread_turns,
}
use distributed_oj.Server.Threads.Schedules.{arriving}
use distributed_oj.Server.Threads.Dangling.{thread_turns-dangling}

abbrev two_sessions : Entries
two_sessions = some (text "A1", text "ann") ∷ some (text "B2", text "bob") ∷ []

-- Thread 0 judges a submission, thread 1 logs out, and all others log in.
abbrev handler : ℕ → Handler
handler zero = trusting
handler (suc zero) = logging_out
handler (suc (suc i)) = logging_in (text "cat")

first : find_entry (text "A1") two_sessions ≡ some 0
unfolding find_entry
first = refl

-- The thread 1 logs A1 out, and the thread 0 still uses what it has found.
abbrev same_session : ℕ → Text
same_session i = text "A1"

thread_turns-dangling_example :
    (thread_turns handler same_session
        (0 ∷ 1 ∷ 1 ∷ 1 ∷ 2 ∷ 0 ∷ [])
        (arriving two_sessions)).progress
      0
    ≡ crashed
thread_turns-dangling_example =
    thread_turns-dangling handler same_session (text "A1") (text "ann") 0 two_sessions 1 0
      (2 ∷ 0 ∷ []) first refl (omega arith) refl refl refl tt (omega arith)

abbrev one_session : Entries
one_session = none ∷ some (text "A1", text "ann") ∷ []
