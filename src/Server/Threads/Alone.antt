-- ===== src/Server/Threads/Alone.antt =====
-- oj_server/oj_server.cc: a handler that makes its calls on `sessions` with no other in between
-- does what the handlers of Server do with a list of ids and names.
use distributed_oj.Base.{
  ℕ, ◌≡◌, refl, sym, inl, inr, [], ◌∷◌, Option, none, some, Text, arith, Option-cases,
}
use distributed_oj.Server.{Request, Site, Sessions, find, erase, session_of, user_of_session}
use distributed_oj.Server.Accounts.{post_logout}
use distributed_oj.Server.Threads.{
  Entries, entry_at, erase_entry, Handler, logging_out, looking, trusting, Progress, arrived,
  through, crashed, advance,
}

-- The ids and names of the nodes that are there
abbrev pub sessions_of : Entries → Sessions
sessions_of [] = []
sessions_of (none ∷ m) = sessions_of m
sessions_of (some e ∷ m) = e ∷ sessions_of m

abbrev name_of : Option (Text × Text) → Option Text
name_of none = none
name_of (some (id, username)) = some username

-- The name at an iterator
abbrev name_at : Entries → Option ℕ → Option Text
name_at m none = none
name_at m (some n) = name_of (entry_at m n)

-- To erase at an iterator, or nothing at `end()`
abbrev erase_at : Option ℕ → Entries → Entries
erase_at none m = m
erase_at (some n) m = erase_entry n m

-- The calls of a handler, one after another: there are three at most.
unfoldable pub run_alone : Handler → Text → Entries → Entries × Progress
unfolding advance
run_alone h id entries =
    let (m1, p1) = advance h id entries arrived in
    let (m2, p2) = advance h id m1 p1 in advance h id m2 p2

-- What a handler that does not test for `end()` comes to
abbrev pub trusted : Option Text → Progress
trusted none = crashed
trusted (some username) = through (some username)

-- What the three kinds of handlers that look for a session see and leave, as functions of the map
record Sees (k : Text) (m : Entries) : Type 0 where
  logout_seen : (run_alone logging_out k m).1 ≡ through (find k (sessions_of m))
  logout_left : sessions_of (run_alone logging_out k m).0 ≡ erase k (sessions_of m)
  look : run_alone looking k m ≡ (m, through (find k (sessions_of m)))
  trust : run_alone trusting k m ≡ (m, trusted (find k (sessions_of m)))

erase-missing : (k : Text) (m : Sessions) → find k m ≡ none → erase k m ≡ m
unfolding find erase
erase-missing k [] e = refl
erase-missing k ((j, v) ∷ m) e = ground (arith, erase-missing k m)

pub post_logout-sessions :
    (req : Request) (site : Site)
    → (post_logout req site).0.sessions ≡ erase (session_of req) site.sessions
unfolding post_logout
post_logout-sessions req site = elim (Option-cases (user_of_session req site)) [
  | inl missing ↦
      rw (missing, post_logout) (sym (erase-missing (session_of req) site.sessions missing))
  | inr (u, found) ↦ rw (found, post_logout) refl
]
