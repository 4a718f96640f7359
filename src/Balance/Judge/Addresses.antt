-- ===== src/Balance/Judge/Addresses.antt =====
-- oj_server/oj_control.hpp, Control::Judge: the machines that a submission is posted to.
use distributed_oj.Base.{
  ℕ, zero, suc, ◌≡◌, refl, ◌∙◌, true, inl, inr, List, [], ◌∷◌, Option, none, some, Text, ◌==◌,
  ==_iff, Bool-cases, get_or, modify, arith,
}
use distributed_oj.Balance.{
  LoadBalance, Machine, no_machine, Poll, update_status, update_all, choose_from, smart_choice,
  contains, erase, offline_machine, inc_load, dec_load, reset_load, inc_load_at, dec_load_at,
}
use distributed_oj.Balance.Choice.{IsChoice, smart_choice-IsChoice}
use distributed_oj.Balance.Judge.{
  Round, machine_at, on_response, judge_with, judge_round, judge_loop,
}
use distributed_oj.Balance.Judge.Safety.{Holds, Returns, judge_loop-Returns}

-- The host and port of each machine are the same.
abbrev SameAddress : Machine → Machine → Type 0
SameAddress m n = (m.ip ≡ n.ip) × (m.port ≡ n.port)

abbrev SameAddresses : List Machine → List Machine → Type 0
SameAddresses ms ns = (id : ℕ) → SameAddress (get_or ms id no_machine) (get_or ns id no_machine)

SameAddresses-trans :
    (a b c : List Machine) → SameAddresses a b → SameAddresses b c → SameAddresses a c
SameAddresses-trans a b c h k id = ((h id).0 ∙ (k id).0, (h id).1 ∙ (k id).1)

modify-SameAddresses :
    (ms : List Machine) (i : ℕ) (f : Machine → Machine)
    → ((m : Machine) → SameAddress (f m) m)
    → SameAddresses (modify ms i f) ms
modify-SameAddresses [] i f h id = (refl, refl)
modify-SameAddresses (m ∷ ms) zero f h zero = h m
modify-SameAddresses (m ∷ ms) zero f h (suc id) = (refl, refl)
modify-SameAddresses (m ∷ ms) (suc i) f h zero = (refl, refl)
modify-SameAddresses (m ∷ ms) (suc i) f h (suc id) = modify-SameAddresses ms i f h id

update_status-SameAddress : (poll : Poll) (m : Machine) → SameAddress (update_status poll m).0 m
unfolding update_status
update_status-SameAddress poll m = ground arith

update_all-SameAddresses :
    (poll : Poll) (ids : List ℕ) (ms : List Machine) → SameAddresses (update_all poll ids ms) ms
unfolding update_all
update_all-SameAddresses poll [] ms = λ id. (refl, refl)
update_all-SameAddresses poll (i ∷ ids) ms =
    SameAddresses-trans _ _ ms (update_all-SameAddresses poll ids _)
      (modify-SameAddresses ms i _ (update_status-SameAddress poll))

contains-erase :
    (id which : ℕ) (ids : List ℕ) → contains id (erase which ids) ≡ true → contains id ids ≡ true
contains-erase id which [] h = h
contains-erase id which (i ∷ ids) h = ground (arith, contains-erase id which ids)

-- What has become of the machines `first` in some rounds: they are where they were, and no other is
-- online.
record IsLater (first lb : LoadBalance) : Type 0 where
  same : SameAddresses lb.machines first.machines
  online : (id : ℕ) → contains id lb.online ≡ true → contains id first.online ≡ true

IsLater-modify :
    (first lb : LoadBalance) (which : ℕ) (f : Machine → Machine)
    → ((m : Machine) → SameAddress (f m) m)
    → IsLater first lb
    → IsLater first (record lb { machines = modify lb.machines which f })
IsLater-modify first lb which f h l = record {
  same = SameAddresses-trans _ lb.machines _ (modify-SameAddresses lb.machines which f h) l.same;
  online = l.online;
}

offline_machine-IsLater :
    (first lb : LoadBalance) (which : ℕ)
    → IsLater first lb
    → IsLater first (offline_machine which lb)
unfolding offline_machine reset_load
offline_machine-IsLater first lb which l = elim (Bool-cases (contains which lb.online)) [
  | inl there ↦ rw there (record {
    same =
        SameAddresses-trans _ lb.machines _
          (modify-SameAddresses lb.machines which _ (λ m. (refl, refl))) l.same;
    online = λ id h. l.online id (contains-erase id which lb.online h);
  })
  | inr missing ↦ rw missing l
]

smart_choice-IsLater :
    (poll : Poll) (first lb : LoadBalance)
    → IsLater first lb
    → IsLater first (smart_choice poll lb).0
unfolding smart_choice choose_from
smart_choice-IsLater poll first lb l = kept lb.online
  where
    kept : (ids : List ℕ) → IsLater first (choose_from poll lb ids).0
    kept [] = l
    kept (i ∷ ids) = record {
      same =
          SameAddresses-trans _ lb.machines _ (update_all-SameAddresses poll (i ∷ ids) lb.machines)
            l.same;
      online = l.online;
    }

-- Where an answer comes from: a machine that was online at first has sent it, in answer to the very
-- text, with the status 200; there is none only where no machine is online any more.
abbrev pub IsFrom : (ℕ → Round) → Text → LoadBalance → LoadBalance → Option Text → Type 0
IsFrom net code first lb none = lb.online ≡ []
IsFrom net code first lb (some body) =
    (t : ℕ) × (id : ℕ) × (contains id first.online ≡ true)
    × ((net t).post (machine_at first id).ip (machine_at first id).port code ≡ some (200, body))

module _ (net : ℕ → Round) (code : Text) (first : LoadBalance) where
  on_response-IsFrom :
      (t id : ℕ) (lb : LoadBalance) (response : Option (ℕ × Text))
      → IsLater first lb
      → contains id first.online ≡ true
      → (net t).post (machine_at first id).ip (machine_at first id).port code ≡ response
      → Holds (IsFrom net code first) (IsLater first) (on_response id lb response)
  unfolding on_response dec_load_at dec_load
  on_response-IsFrom t id lb none l c e = offline_machine-IsLater first lb id l
  on_response-IsFrom t id lb (some (status, body)) l c e = elim (Bool-cases (status == 200)) [
    | inl fine ↦ rw fine (t, id, c, rw (← (==_iff status 200).0 fine) e)
    | inr bad ↦ rw bad (IsLater-modify first lb id _ (λ m. (refl, refl)) l)
  ]

  judge_with-IsFrom :
      (t : ℕ) (lb : LoadBalance) (choice : Option ℕ)
      → IsLater first lb
      → IsChoice lb choice
      → Holds (IsFrom net code first) (IsLater first) (judge_with (net t) code lb choice)
  unfolding judge_with inc_load_at inc_load
  judge_with-IsFrom t lb none l c = c
  judge_with-IsFrom t lb (some id) l c =
      let (ip, port) = l.same id in
      on_response-IsFrom t id _ ((net t).post (machine_at lb id).ip (machine_at lb id).port code)
        (IsLater-modify first lb id _ (λ m. (refl, refl)) l) (l.online id c.0) (rw (ip, port) refl)

  judge_round-IsFrom :
      (t : ℕ) (lb : LoadBalance)
      → IsLater first lb
      → Holds (IsFrom net code first) (IsLater first) (judge_round (net t) code lb)
  unfolding judge_round
  judge_round-IsFrom t lb l =
      judge_with-IsFrom t _ _ (smart_choice-IsLater (net t).poll first lb l)
        (smart_choice-IsChoice (net t).poll lb)

  pub judge_loop-IsFrom :
      (fuel t : ℕ) → Returns (IsFrom net code first) (judge_loop net code fuel t first)
  judge_loop-IsFrom fuel t =
      judge_loop-Returns net code (IsFrom net code first) (IsLater first) judge_round-IsFrom fuel t
        first (record { same = λ id. (refl, refl); online = λ id h. h })
