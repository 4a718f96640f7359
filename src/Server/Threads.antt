-- ===== src/Server/Threads.antt =====
-- oj_server/oj_server.cc: several handlers at once on `sessions`, which the threads of the HTTP
-- server share without a lock. Each call on the map is taken for one step. Calls at once are a data
-- race, and undefined; what is followed here is the least that can go wrong, where none overlap:
-- what stands between a handler's `find` and its use of the iterator is up to the others.
pub mod Entries
pub mod Schedules
pub mod Dangling
pub mod Alone
mod Tests
use distributed_oj.Base.{
  ℕ, zero, suc, List, [], ◌∷◌, Option, none, some, Text, text_eq, ◌==◌, if◌then◌else◌, modify,
  get_or,
}

-- The nodes of the map, `none` for one that has been erased; a node stands where it has been made,
-- and an iterator is that place.
abbrev pub Entries : Type 0
Entries = List (Option (Text × Text))

abbrev pub next_place : Option ℕ → Option ℕ
next_place none = none
next_place (some n) = some (suc n)

-- `sessions.find(session_id)`
unfoldable pub find_entry : Text → Entries → Option ℕ
find_entry session_id [] = none
find_entry session_id (none ∷ rest) = next_place (find_entry session_id rest)
find_entry session_id (some (id, username) ∷ rest) =
    if text_eq id session_id then some 0 else next_place (find_entry session_id rest)

-- `*it`
abbrev pub entry_at : Entries → ℕ → Option (Text × Text)
entry_at entries it = get_or entries it none

-- `sessions.erase(it)`
abbrev pub erase_entry : ℕ → Entries → Entries
erase_entry it entries = modify entries it (λ _. none)

-- `sessions[session_id] = username`
unfoldable pub assign_entry : Text → Text → Entries → Entries
assign_entry session_id username [] = some (session_id, username) ∷ []
assign_entry session_id username (none ∷ rest) = none ∷ assign_entry session_id username rest
assign_entry session_id username (some (id, old) ∷ rest) =
    if text_eq id session_id
    then some (id, username) ∷ rest
    else some (id, old) ∷ assign_entry session_id username rest

-- What a handler does with `sessions`: /login stores a user name, /logout erases, most look a name
-- up, and three of them do so without a test against `end()`.
pub data Handler : Type 0 where
  logging_in : Text → Handler
  logging_out : Handler
  looking : Handler
  trusting : Handler

-- How far a handler has come: before its first call on the map, with the iterator of `find` (`none`
-- for `end()`), as a logout that has printed the name, behind its last call with the name that it
-- has seen, or in undefined behaviour.
pub data Progress : Type 0 where
  arrived : Progress
  holding : Option ℕ → Progress
  printed : ℕ → Text → Progress
  through : Option Text → Progress
  crashed : Progress

-- With an iterator to a node
abbrev pub read_entry : Handler → ℕ → Option (Text × Text) → Progress
read_entry h it none = crashed
read_entry logging_out it (some (id, username)) = printed it username
read_entry (logging_in _) it (some (id, username)) = through (some username)
read_entry looking it (some (id, username)) = through (some username)
read_entry trusting it (some (id, username)) = through (some username)

-- With the iterator `end()`
abbrev pub at_end : Handler → Progress
at_end trusting = crashed
at_end _ = through none

abbrev pub first_call : Handler → Text → Entries → Entries × Progress
first_call (logging_in username) id entries =
    (assign_entry id username entries, through (some username))
first_call _ id entries = (entries, holding (find_entry id entries))

abbrev pub last_call : ℕ → Text → Option (Text × Text) → Entries → Entries × Progress
last_call it username none entries = (entries, crashed)
last_call it username (some _) entries = (erase_entry it entries, through (some username))

-- The next call on the map
unfoldable pub advance : Handler → Text → Entries → Progress → Entries × Progress
unfolding find_entry assign_entry
advance h id entries arrived = first_call h id entries
advance h id entries (holding none) = (entries, at_end h)
advance h id entries (holding (some it)) = (entries, read_entry h it (entry_at entries it))
advance h id entries (printed it username) = last_call it username (entry_at entries it) entries
advance h id entries (through seen) = (entries, through seen)
advance h id entries crashed = (entries, crashed)

-- The map, and how far each thread has come
pub record Threads : Type 0 where
  pub entries : Entries
  pub progress : ℕ → Progress

-- The handler that each thread runs, and the session id of its request, or of its login
module _ (handler : ℕ → Handler) (session : ℕ → Text) where
  unfoldable pub thread_turn : ℕ → Threads → Threads
  unfolding advance
  thread_turn i s =
      let (entries, next) = advance (handler i) (session i) s.entries (s.progress i) in
      record { entries = entries; progress = λ j. if i == j then next else s.progress j }

  -- The turns of a schedule, in its order
  unfoldable pub thread_turns : List ℕ → Threads → Threads
  unfolding thread_turn
  thread_turns [] s = s
  thread_turns (i ∷ schedule) s = thread_turns schedule (thread_turn i s)
