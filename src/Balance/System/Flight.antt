-- ===== src/Balance/System/Flight.antt =====
-- Threads in the loop of Control::Judge, interleaved: how many are between IncLoad and a response.
use distributed_oj.Base.{
  ℕ, zero, suc, ◌+◌, ◌≤◌, ◌≡◌, refl, List, [], ◌∷◌, ◌++◌, Option, none, some, Text, arith, ◌==◌,
  length, if◌then◌else◌,
}
use distributed_oj.Comm.Int.{ℤ}
use distributed_oj.Balance.System.{
  Stage, choosing, polling, comparing, chosen, posted, left, Network, Judging, Step, move, recover,
  waiting,
}

-- Whether a thread is between IncLoad and the response of a machine, and how many are
abbrev pub flying : ℕ → Stage → ℕ
flying id (posted i) = if i == id then 1 else 0
flying id _ = 0

abbrev pub in_flight : ℕ → List Stage → ℕ
in_flight id [] = 0
in_flight id (w ∷ threads) = flying id w + in_flight id threads

abbrev pub IsAnswered : Option (ℕ × Text) → Type 0
IsAnswered none = ⊥
IsAnswered (some response) = Unit

-- No host answers to /status, and every post is answered, with whatever status.
abbrev pub calm : Network
calm = record {
  Polls = λ poll. (ip : Text) (port : ℤ) → poll ip port ≡ none;
  Responses = IsAnswered;
}

flying_most : (id : ℕ) (w : Stage) → flying id w ≤ 1
flying_most id choosing = omega arith
flying_most id (polling first rest ids) = omega arith
flying_most id (comparing best min_load ids) = omega arith
flying_most id (chosen i) = omega arith
flying_most id (posted i) = ground arith
flying_most id (left out) = omega arith

pub in_flight_most : (id : ℕ) (threads : List Stage) → in_flight id threads ≤ length threads
in_flight_most id [] = omega arith
in_flight_most id (w ∷ threads) = omega (arith, in_flight_most id threads, flying_most id w)

pub in_flight-at :
    (id : ℕ) (before : List Stage) (w : Stage) (after : List Stage)
    → in_flight id (before ++ (w ∷ after))
      ≡ (in_flight id before + in_flight id after) + flying id w
in_flight-at id [] w after = omega arith
in_flight-at id (v ∷ before) w after = omega (arith, in_flight-at id before w after)

pub in_flight-waiting : (id n : ℕ) → in_flight id (waiting n) ≡ 0
in_flight-waiting id zero = refl
in_flight-waiting id (suc n) = omega (arith, in_flight-waiting id n)

pub length-waiting : (n : ℕ) → length (waiting n) ≡ n
length-waiting zero = refl
length-waiting (suc n) = omega (arith, length-waiting n)

length-at :
    (before : List Stage) (w v : Stage) (after : List Stage)
    → length (before ++ (w ∷ after)) ≡ length (before ++ (v ∷ after))
length-at [] w v after = refl
length-at (u ∷ before) w v after = omega (arith, length-at before w v after)

pub length-Step : {s t : Judging} → Step calm s t → length t.threads ≡ length s.threads
length-Step (move before after {w = w} {w' = w'} m) = length-at before w' w after
length-Step (recover lb threads) = refl
