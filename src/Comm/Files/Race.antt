-- ===== src/Comm/Files/Race.antt =====
-- UniqFileName on two threads. The counter is atomic, but `id++` and the later read of `id` are two
-- accesses, and another thread may come between them.
use distributed_oj.Base.{ℕ, ◌≡◌, refl, List, [], ◌∷◌, Text}
use distributed_oj.Comm.Files.{next_id, file_name_of}

-- One access: `id++`, or the reads of the clock and of `id` that make the name.
pub data Access : Type 0 where
  bumps : Access
  reads : ℕ → Access

-- The names that come out of a schedule of accesses by any threads, in order.
unfoldable pub run_accesses : List Access → ℕ → List Text
run_accesses [] id = []
run_accesses (bumps ∷ rest) id = run_accesses rest (next_id id)
run_accesses (reads ms ∷ rest) id = file_name_of ms id ∷ run_accesses rest id

-- If a second thread passes `id++` before the first has read the counter, and both read within the
-- same millisecond, the two submissions get the same file name, at any value of the counter.
pub run_accesses_race :
    (ms id : ℕ)
    → run_accesses (bumps ∷ bumps ∷ reads ms ∷ reads ms ∷ []) id
      ≡ file_name_of ms (next_id (next_id id)) ∷ file_name_of ms (next_id (next_id id)) ∷ []
unfolding run_accesses
run_accesses_race ms id = refl
