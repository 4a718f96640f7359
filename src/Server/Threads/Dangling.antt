-- ===== src/Server/Threads/Dangling.antt =====
-- oj_server/oj_server.cc: a logout between the `find` of another handler and its use of the
-- iterator.
use distributed_oj.Base.{
  ℕ, zero, suc, ◌≤◌, ◌<◌, ◌≡◌, ◌≢◌, refl, sym, subst, ◌∙◌, ap, false, inl, inr, List, [], ◌∷◌,
  Option, none, some, Text, arith, Bool-cases, ◌==◌, ==_iff, length,
}
use distributed_oj.Server.Threads.{
  Entries, find_entry, entry_at, erase_entry, assign_entry, Handler, logging_in, logging_out,
  looking, trusting, Progress, arrived, holding, printed, through, crashed, advance, last_call,
  Threads, thread_turn, thread_turns,
}
use distributed_oj.Server.Threads.Schedules.{arriving, turns_of}

-- A node that has been there and is erased
abbrev pub IsErased : Entries → ℕ → Type 0
IsErased entries n = (n < length entries) × (entry_at entries n ≡ none)

erase_entry-IsErased :
    (entries : Entries) (i n : ℕ) → IsErased entries n → IsErased (erase_entry i entries) n
erase_entry-IsErased [] i n (h, e) = (h, e)
erase_entry-IsErased (o ∷ m) zero zero (h, e) = (h, refl)
erase_entry-IsErased (o ∷ m) zero (suc n) (h, e) = (h, e)
erase_entry-IsErased (o ∷ m) (suc i) zero (h, e) = (omega arith, e)
erase_entry-IsErased (o ∷ m) (suc i) (suc n) (h, e) =
    let (h', e') = erase_entry-IsErased m i n (omega arith, e) in (omega arith, e')

-- A node that is made stands behind all others.
assign_entry-IsErased :
    (k u : Text) (entries : Entries) (n : ℕ)
    → IsErased entries n
    → IsErased (assign_entry k u entries) n
unfolding assign_entry
assign_entry-IsErased k u [] n (h, e) = absurd (omega arith)
assign_entry-IsErased k u (none ∷ m) zero (h, e) = (omega arith, refl)
assign_entry-IsErased k u (none ∷ m) (suc n) (h, e) =
    let (h', e') = assign_entry-IsErased k u m n (omega arith, e) in (omega arith, e')
assign_entry-IsErased k u (some (j, v) ∷ m) zero (h, e) = cc
assign_entry-IsErased k u (some (j, v) ∷ m) (suc n) (h, e) =
    ground (arith, assign_entry-IsErased k u m n)

-- What is erased is never there again.
advance-IsErased :
    (h : Handler) (id : Text) (entries : Entries) (p : Progress) (n : ℕ)
    → IsErased entries n
    → IsErased (advance h id entries p).0 n
unfolding advance
advance-IsErased (logging_in u) id entries arrived n e = assign_entry-IsErased id u entries n e
advance-IsErased logging_out id entries arrived n e = e
advance-IsErased looking id entries arrived n e = e
advance-IsErased trusting id entries arrived n e = e
advance-IsErased h id entries (holding none) n e = e
advance-IsErased h id entries (holding (some it)) n e = e
advance-IsErased h id entries (printed it u) n e = last (entry_at entries it)
  where
    last : (o : Option (Text × Text)) → IsErased (last_call it u o entries).0 n
    last none = e
    last (some x) = erase_entry-IsErased entries it n e
advance-IsErased h id entries (through seen) n e = e
advance-IsErased h id entries crashed n e = e

module _ (handler : ℕ → Handler) (session : ℕ → Text) where
  progress_self :
      (i : ℕ) (s : Threads)
      → (thread_turn handler session i s).progress i
        ≡ (advance (handler i) (session i) s.entries (s.progress i)).1
  unfolding thread_turn
  progress_self i s = rw ((==_iff i i).1 refl) refl

  progress_other :
      (i j : ℕ) (s : Threads) → i ≢ j → (thread_turn handler session i s).progress j ≡ s.progress j
  unfolding thread_turn
  progress_other i j s ne = rw (ne_test i j ne) refl
    where
      ne_test : (i j : ℕ) → i ≢ j → (i == j) ≡ false
      ne_test i j ne = ground arith

  entries_turn :
      (i : ℕ) (s : Threads)
      → (thread_turn handler session i s).entries
        ≡ (advance (handler i) (session i) s.entries (s.progress i)).0
  unfolding thread_turn
  entries_turn i s = refl

  crashed_stays :
      (schedule : List ℕ) (j : ℕ) (s : Threads)
      → s.progress j ≡ crashed
      → (thread_turns handler session schedule s).progress j ≡ crashed
  unfolding thread_turns advance
  crashed_stays [] j s e = e
  crashed_stays (i ∷ schedule) j s e =
      crashed_stays schedule j (thread_turn handler session i s) (elim (Bool-cases (i == j)) [
        | inl same ↦
            subst (λ l. (thread_turn handler session l s).progress j ≡ crashed)
              (sym ((==_iff i j).0 same)) (progress_self j s ∙ rw e refl)
        | inr other ↦ progress_other i j s (λ d. ground arith) ∙ e
      ])

  crash :
      (schedule : List ℕ) (j n : ℕ) (s : Threads)
      → IsErased s.entries n
      → s.progress j ≡ holding (some n)
      → 1 ≤ turns_of j schedule
      → (thread_turns handler session schedule s).progress j ≡ crashed
  unfolding thread_turns advance
  crash [] j n s gone e turn = absurd (omega arith)
  crash (i ∷ schedule) j n s gone e turn = elim (Bool-cases (i == j)) [
    | inl same ↦ crashed_stays schedule j (thread_turn handler session i s) (
        subst (λ l. (thread_turn handler session l s).progress j ≡ crashed)
          (sym ((==_iff i j).0 same)) (progress_self j s ∙ rw (e, gone.1) refl))
    | inr other ↦
        crash schedule j n (thread_turn handler session i s)
          (subst (λ m. IsErased m n) (sym (entries_turn i s))
            (advance-IsErased (handler i) (session i) s.entries (s.progress i) n gone))
          (progress_other i j s (λ d. ground arith) ∙ e) (ground arith)
  ]

-- A handler that looks for its session first
abbrev pub Finds : Handler → Type 0
Finds (logging_in u) = ⊥
Finds _ = Unit

advance_arrived :
    (h : Handler) (k : Text) (entries : Entries)
    → Finds h
    → advance h k entries arrived ≡ (entries, holding (find_entry k entries))
unfolding advance
advance_arrived (logging_in u) k entries f = absurd f
advance_arrived logging_out k entries f = refl
advance_arrived looking k entries f = refl
advance_arrived trusting k entries f = refl

erase_entry-IsErased_self :
    (entries : Entries) (n : ℕ) {e : Text × Text}
    → entry_at entries n ≡ some e
    → IsErased (erase_entry n entries) n
erase_entry-IsErased_self [] n h = cc
erase_entry-IsErased_self (o ∷ m) zero h = (omega arith, refl)
erase_entry-IsErased_self (o ∷ m) (suc n) h =
    let (l, e) = erase_entry-IsErased_self m n h in (omega arith, e)

module _ (handler : ℕ → Handler) (session : ℕ → Text) (k u : Text) (n : ℕ) where
  -- Thread `i` has made a turn that leaves the map.
  abbrev Reaches : ℕ → Threads → Entries → Progress → Type 0
  Reaches i s entries p =
      ((thread_turn handler session i s).entries ≡ entries)
      × ((thread_turn handler session i s).progress i ≡ p)

  find_turn :
      (i : ℕ) (s : Threads)
      → session i ≡ k
      → Finds (handler i)
      → s.progress i ≡ arrived
      → find_entry k s.entries ≡ some n
      → Reaches i s s.entries (holding (some n))
  find_turn i s mine finds at found =
      let step = advance_arrived (handler i) k s.entries finds in
      (
        entries_turn handler session i s ∙ rw (mine, at, step) refl,
        progress_self handler session i s ∙ rw (mine, at, step) (ap holding found),
      )

  print_turn :
      (i : ℕ) (s : Threads)
      → handler i ≡ logging_out
      → s.progress i ≡ holding (some n)
      → entry_at s.entries n ≡ some (k, u)
      → Reaches i s s.entries (printed n u)
  unfolding advance
  print_turn i s out at node = (
    entries_turn handler session i s ∙ rw (out, at) refl,
    progress_self handler session i s ∙ rw (out, at, node) refl,
  )

  erase_turn :
      (i : ℕ) (s : Threads)
      → s.progress i ≡ printed n u
      → entry_at s.entries n ≡ some (k, u)
      → (thread_turn handler session i s).entries ≡ erase_entry n s.entries
  unfolding advance
  erase_turn i s at node = entries_turn handler session i s ∙ rw (at, node) refl

  -- The state behind the three turns of a logout
  abbrev after_logout : ℕ → Threads → Threads
  after_logout i s =
      thread_turn handler session i
        (thread_turn handler session i (thread_turn handler session i s))

  entries-after_logout :
      (i : ℕ) (s : Threads)
      → session i ≡ k
      → handler i ≡ logging_out
      → s.progress i ≡ arrived
      → find_entry k s.entries ≡ some n
      → entry_at s.entries n ≡ some (k, u)
      → (after_logout i s).entries ≡ erase_entry n s.entries
  entries-after_logout i s mine out at found node =
      let s1 = thread_turn handler session i s in
      let s2 = thread_turn handler session i s1 in
      let (e1, p1) = find_turn i s mine (subst Finds (sym out) tt) at found in
      let (e2, p2) = print_turn i s1 out p1 (rw e1 node) in
      erase_turn i s2 p2 (rw (e2, e1) node) ∙ rw (e2, e1) refl

  progress-after_logout :
      (i j : ℕ) (s : Threads) → i ≢ j → (after_logout i s).progress j ≡ s.progress j
  progress-after_logout i j s ne =
      let s1 = thread_turn handler session i s in
      progress_other handler session i j (thread_turn handler session i s1) ne
      ∙ (progress_other handler session i j s1 ne ∙ progress_other handler session i j s ne)

-- Where a session is stored, one thread has a request of it that logs out, and another one a
-- request of it that does not log in: if the other calls `find`, then the logout makes its three
-- calls, and then any turns follow, with one of the other among them, then the other comes to
-- undefined behaviour.
pub thread_turns-dangling :
    (handler : ℕ → Handler) (session : ℕ → Text) (k u : Text) (n : ℕ) (entries : Entries) (i j : ℕ)
    (schedule : List ℕ)
    → find_entry k entries ≡ some n
    → entry_at entries n ≡ some (k, u)
    → i ≢ j
    → session i ≡ k
    → session j ≡ k
    → handler i ≡ logging_out
    → Finds (handler j)
    → 1 ≤ turns_of j schedule
    → (thread_turns handler session (j ∷ i ∷ i ∷ i ∷ schedule) (arriving entries)).progress j
      ≡ crashed
unfolding thread_turns
thread_turns-dangling handler session k u n entries i j schedule found node ne si sj out finds
      turn =
    let s = thread_turn handler session j (arriving entries) in
    let (e, held) = find_turn handler session k u n j (arriving entries) sj finds refl found in
    let at : s.progress i ≡ arrived =
      progress_other handler session j i (arriving entries) (λ p. ne (sym p)) in
    let erased =
      entries-after_logout handler session k u n i s si out at (rw e found) (rw e node) in
    crash handler session schedule j n (after_logout handler session k u n i s)
      (subst (λ m. IsErased m n) (sym (erased ∙ ap (erase_entry n) e))
        (erase_entry-IsErased_self entries n node))
      (progress-after_logout handler session k u n i j s ne ∙ held) turn
