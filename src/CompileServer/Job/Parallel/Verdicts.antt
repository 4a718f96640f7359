-- ===== src/CompileServer/Job/Parallel/Verdicts.antt =====
-- compile_server/compile_run.hpp: the answers to submissions that are compiled and run at once.
use distributed_oj.Base.{
  subst, ap, ℕ, suc, ◌≤◌, ◌≡◌, ◌≢◌, refl, ◌∙◌, sym, false, inl, inr, Bool-cases, List, [], ◌∷◌,
  Text, arith, ◌==◌, ==_iff, if◌then◌else◌, All,
}
use distributed_oj.Comm.Files.{Disk, file_name_of}
use distributed_oj.CompileServer.Runner.{Host, System}
use distributed_oj.CompileServer.Job.{Submission, is_empty}
use distributed_oj.CompileServer.Job.Steps.{IsHealthy, IsConfined, IsFresh}
use distributed_oj.CompileServer.Job.Outcome.{verdict}
use distributed_oj.CompileServer.Job.Parallel.{Phase, begun, gone, go_on, Calls, turn, take_turns}
use distributed_oj.CompileServer.Job.Parallel.Names.{is_temp_apart, file_name_of-no_dots}
use distributed_oj.CompileServer.Job.Parallel.Local.{Agree}
use distributed_oj.CompileServer.Job.Parallel.Seen.{Same, go_on-Same, go_on-keeps}
use distributed_oj.CompileServer.Job.Parallel.Alone.{alone, alone-verdict}

-- How many of the turns are those of call `i`
abbrev pub turns : ℕ → List ℕ → ℕ
turns i [] = 0
turns i (j ∷ schedule) = let rest = turns i schedule in if j == i then suc rest else rest

-- All calls are at their beginning.
abbrev pub all_begun : System → Calls
all_begun s = record { system = s; phase = λ i. begun }

module _ (host : Host) (name : ℕ → Text) (q : ℕ → Submission) (healthy : IsHealthy host)
    (confined : IsConfined host) (i : ℕ) (no_dots : (j : ℕ) → All (λ c. c ≢ b'.') (name j))
    (different : (j : ℕ) → j ≢ i → name i ≢ name j) where
  turn_mine :
      (c : Calls) (r : System × Phase)
      → Agree (name i) c.system.disk r.0.disk
      → c.phase i ≡ r.1
      → Same Phase
          (name i)
          ((turn host name q i c).system, (turn host name q i c).phase i)
          (go_on host (name i) (q i) r.0 r.1)
  unfolding turn
  turn_mine c r same e =
      let k = go_on-Same host healthy confined (name i) c.system r.0 same (q i) (c.phase i) in
      rw (← e) (record { files = k.files; value = rw ((==_iff i i).1 refl) k.value })

  turn_other :
      (j : ℕ) (c : Calls)
      → (j == i) ≡ false
      → ((turn host name q j c).phase i ≡ c.phase i)
        × Agree (name i) (turn host name q j c).system.disk c.system.disk
  unfolding turn
  turn_other j c other = (
    rw other refl,
    λ p own.
        go_on-keeps host (name j) p (q j) c.system (c.phase j)
          (λ program input limits d.
            ap (λ (k : Disk). k p) (confined.writes_nothing program input limits d))
          (is_temp_apart (name i) (name j) p (no_dots i) (no_dots j)
            (different j (λ e. ground arith)) own),
  )

  -- Among the others a call goes as far as alone.
  turns-alone :
      (schedule : List ℕ) (c : Calls) (r : System × Phase)
      → Agree (name i) c.system.disk r.0.disk
      → c.phase i ≡ r.1
      → (take_turns host name q schedule c).phase i
        ≡ (alone host (name i) (q i) (turns i schedule) r).1
  unfolding take_turns turn alone
  turns-alone [] c r same e = e
  turns-alone (j ∷ schedule) c r same e = elim (Bool-cases (j == i)) [
    | inl mine ↦
        let here = turn_mine c r same e in
        let rest = turns-alone schedule (turn host name q i c) _ here.files here.value in
        rw mine (
          subst
            (λ k.
              (take_turns host name q schedule (turn host name q k c)).phase i
              ≡ (alone host (name i) (q i) (turns i schedule)
                  (go_on host (name i) (q i) r.0 r.1)).1)
            (sym ((==_iff j i).0 mine)) rest)
    | inr other ↦
        let (stays, there) = turn_other j c other in
        rw other (
          turns-alone schedule (turn host name q j c) r (λ p own. there p own ∙ same p own)
            (stays ∙ e))
  ]

-- Calls of `Start` at once, on a host where every system call succeeds and programs find and change
-- no files. Each has a name that UniqFileName has made of a time and a value of the counter. In
-- whatever order their steps follow one another: a call whose name no other call has got, whose
-- submission is not empty, whose files were not there at first, and which has had six turns or
-- more has answered with the verdict on its own submission.
pub take_turns-verdict :
    (host : Host) (times ids : ℕ → ℕ) (q : ℕ → Submission) (s : System) (schedule : List ℕ) (i : ℕ)
    → let name = λ (j : ℕ). file_name_of (times j) (ids j) in
      IsHealthy host
      → IsConfined host
      → ((j : ℕ) → j ≢ i → name i ≢ name j)
      → IsFresh (name i) s.disk
      → is_empty (q i).code ≡ false
      → 6 ≤ turns i schedule
      → (take_turns host name q schedule (all_begun s)).phase i ≡ gone (verdict host (name i) (q i))
take_turns-verdict host times ids q s schedule i healthy confined own fresh code enough =
    let name = λ (j : ℕ). file_name_of (times j) (ids j) in
    turns-alone host name q healthy confined i (λ k. file_name_of-no_dots (times k) (ids k)) own
      schedule (all_begun s) (s, begun) (λ p mine. refl) refl
    ∙ alone-verdict host (name i) (q i) healthy confined s (turns i schedule) fresh enough
    ∙ rw code refl
