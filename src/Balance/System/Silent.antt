-- ===== src/Balance/System/Silent.antt =====
-- oj_server/oj_control.hpp, Machine::UpdateStatus, where no host answers to /status.
use distributed_oj.Base.{ℕ, zero, suc, ◌≡◌, refl, ap, List, [], ◌∷◌, none, Text, modify}
use distributed_oj.Comm.Int.{ℤ}
use distributed_oj.Balance.System.{poll_at}
use distributed_oj.Balance.{LoadBalance, Machine, Poll, update_status}

-- A poll without an answer leaves every machine as it is.
modify_same :
    (machines : List Machine) (id : ℕ) (f : Machine → Machine)
    → ((m : Machine) → f m ≡ m)
    → modify machines id f ≡ machines
modify_same [] id f h = refl
modify_same (m ∷ machines) zero f h = rw (h m) refl
modify_same (m ∷ machines) (suc id) f h = ap (λ ms. m ∷ ms) (modify_same machines id f h)

module _ (poll : Poll) (silent : (ip : Text) (port : ℤ) → poll ip port ≡ none) where
  update_status_silent : (m : Machine) → (update_status poll m).0 ≡ m
  unfolding update_status
  update_status_silent m = rw (update_status, silent m.ip m.port) refl

  pub poll_at_silent : (id : ℕ) (lb : LoadBalance) → (poll_at poll id lb).machines ≡ lb.machines
  unfolding poll_at
  poll_at_silent id lb = modify_same lb.machines id _ update_status_silent
