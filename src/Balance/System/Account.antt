-- ===== src/Balance/System/Account.antt =====
-- Threads in the loop of Control::Judge, interleaved: what the load of a machine counts.
use distributed_oj.Base.{
  ℕ, zero, suc, ◌+◌, ◌<◌, ◌^◌, ◌≡◌, refl, ◌∙◌, sym, List, [], ◌∷◌, Option, none, some, Text, text,
  arith, length, length-append, All, All-append,
}
use distributed_oj.Comm.Cookie.{pieces}
use distributed_oj.Balance.{
  LoadBalance, Machine, no_machines, load_conf, load_lines, add_machine, online_machine, load_at,
}
use distributed_oj.Balance.System.{Judging, Step, move, recover, Run, halt, later}
use distributed_oj.Balance.System.Safety.{
  IsWithin, IsSound, started, started-IsSound, Step-IsSound, All-at,
}
use distributed_oj.Balance.System.Flight.{
  in_flight, calm, in_flight_most, in_flight-at, in_flight-waiting, length-waiting, length-Step,
}
use distributed_oj.Balance.System.Loads.{Move-load_at}

-- The load of every machine is the number of the threads between IncLoad and its response.
abbrev pub IsAccounted : Judging → Type 0
IsAccounted s = (id : ℕ) → load_at s.balance.machines id ≡ in_flight id s.threads

Step-IsAccounted :
    {s t : Judging}
    → Step calm s t
    → IsSound s
    → length s.threads < 2 ^ 64
    → IsAccounted s
    → IsAccounted t
unfolding online_machine
Step-IsAccounted (move before after {lb} {lb'} {w} {w'} m) sound few e id =
    Move-load_at (λ j. in_flight j before + in_flight j after) fits m
      (All-at (IsWithin (length lb.machines)) before w after sound.threads)
      (λ j. e j ∙ in_flight-at j before w after) id
    ∙ sym (in_flight-at id before w' after)
  where
    fits : (j : ℕ) → in_flight j before + in_flight j after + 1 < 2 ^ 64
    fits j = omega (
      arith,
      few,
      in_flight_most j before,
      in_flight_most j after,
      length-append before (w ∷ after),
    )
Step-IsAccounted (recover lb threads) sound few e id = e id

record IsBooked (n : ℕ) (s : Judging) : Type 0 where
  sound : IsSound s
  count : length s.threads ≡ n
  loads : IsAccounted s

Run-IsBooked : (n : ℕ) {s t : Judging} → n < 2 ^ 64 → Run calm s t → IsBooked n s → IsBooked n t
Run-IsBooked n few halt h = h
Run-IsBooked n few (later r step) h =
    let k = Run-IsBooked n few r h in
    record {
      sound = Step-IsSound step k.sound;
      count = length-Step step ∙ k.count;
      loads = Step-IsAccounted step k.sound (omega (arith, k.count)) k.loads;
    }

abbrev IsIdle : LoadBalance → Type 0
IsIdle lb = All (λ (m : Machine). m.load ≡ 0) lb.machines

add_machine-IsIdle :
    (lb : LoadBalance) (tokens : List Text) → IsIdle lb → IsIdle (add_machine lb tokens)
unfolding add_machine
add_machine-IsIdle lb [] h = h
add_machine-IsIdle lb (ip ∷ []) h = h
add_machine-IsIdle lb (ip ∷ port ∷ []) h = All-append _ lb.machines _ h (refl, tt)
add_machine-IsIdle lb (ip ∷ port ∷ third ∷ tokens) h = h

load_lines-IsIdle :
    (split : Text → Text → List Text) (lines : List Text) (lb : LoadBalance)
    → IsIdle lb
    → IsIdle (load_lines split lines lb)
unfolding load_lines
load_lines-IsIdle split [] lb h = h
load_lines-IsIdle split (line ∷ lines) lb h =
    load_lines-IsIdle split lines (add_machine lb (split line (text ":")))
      (add_machine-IsIdle lb (split line (text ":")) h)

load_conf-IsIdle :
    (split : Text → Text → List Text) (conf : Option Text)
    → IsIdle (load_conf split conf no_machines).0
unfolding load_conf
load_conf-IsIdle split none = tt
load_conf-IsIdle split (some content) =
    load_lines-IsIdle split (pieces b'\n' content) no_machines tt

load_at-idle :
    (machines : List Machine) (id : ℕ)
    → All (λ (m : Machine). m.load ≡ 0) machines
    → load_at machines id ≡ 0
load_at-idle [] id h = refl
load_at-idle (m ∷ machines) zero h = h.0
load_at-idle (m ∷ machines) (suc id) h = load_at-idle machines id h.1

-- Fewer than 2^64 threads judge submissions on the machines that `LoadConf` gives, in any order of
-- their steps. As long as every post is answered, with whatever status, and no host answers to
-- /status, the load of a machine is at all times the number of the threads between IncLoad and its
-- response.
pub Run-load_at :
    (split : Text → Text → List Text) (conf : Option Text) (n : ℕ) (s : Judging)
    → n < 2 ^ 64
    → Run calm (started split conf n) s
    → (id : ℕ) → load_at s.balance.machines id ≡ in_flight id s.threads
Run-load_at split conf n s few r =
    (Run-IsBooked n few r (record {
      sound = started-IsSound split conf n;
      count = length-waiting n;
      loads = λ id.
          load_at-idle (load_conf split conf no_machines).0.machines id
            (load_conf-IsIdle split conf)
          ∙ sym (in_flight-waiting id n);
    })).loads
