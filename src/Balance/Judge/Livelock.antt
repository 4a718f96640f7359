-- ===== src/Balance/Judge/Livelock.antt =====
-- oj_server/oj_control.hpp, the loop of Control::Judge, where the machines answer with an error.
use distributed_oj.Base.{
  ℕ, zero, suc, ◌≡◌, ◌≢◌, refl, ◌∙◌, sym, subst, inl, inr, Option, none, some, [], List, Text, ◌==◌,
  ==_iff, Bool-cases,
}
use distributed_oj.Comm.Int.{ℤ}
use distributed_oj.Balance.{LoadBalance, smart_choice, inc_load_at, dec_load_at}
use distributed_oj.Balance.Choice.{IsChoice, smart_choice-IsChoice, smart_choice-lists}
use distributed_oj.Balance.Judge.{
  Round, machine_at, on_response, judge_with, judge_round, judge_loop,
}
use distributed_oj.Balance.Judge.Safety.{Holds, Next-cases}

-- Every post gets a response, and its status is not 200.
abbrev pub IsFailing : Round → Text → Type 0
IsFailing round code =
    (ip : Text) (port : ℤ)
    → (status : ℕ) × (body : Text) × (round.post ip port code ≡ some (status, body))
      × (status ≢ 200)

abbrev Again : List ℕ → LoadBalance → Type 0
Again online lb = lb.online ≡ online

judge_with-Again :
    (round : Round) (code : Text) (lb : LoadBalance) (choice : Option ℕ)
    → IsChoice lb choice
    → lb.online ≢ []
    → IsFailing round code
    → Holds (λ lb' out. ⊥) (Again lb.online) (judge_with round code lb choice)
unfolding judge_with on_response dec_load_at inc_load_at
judge_with-Again round code lb none c some_online f = some_online c
judge_with-Again round code lb (some id) c some_online f =
    let m = machine_at lb id in
    let (status, body, e, bad) = f m.ip m.port in
    elim (Bool-cases (status == 200)) [
      | inl fine ↦ absurd (bad ((==_iff status 200).0 fine))
      | inr failed ↦ rw (e, on_response) (rw failed refl)
    ]

judge_round-Again :
    (round : Round) (code : Text) (lb : LoadBalance)
    → lb.online ≢ []
    → IsFailing round code
    → Holds (λ lb' out. ⊥) (Again lb.online) (judge_round round code lb)
unfolding judge_round
judge_round-Again round code lb some_online f =
    let (lb', choice) = smart_choice round.poll lb in
    let e : lb'.online ≡ lb.online = (smart_choice-lists round.poll lb).0 in
    subst (λ ids. Holds (λ _ _. ⊥) (Again ids) (judge_with round code lb' choice)) e
      (judge_with-Again round code lb' choice (smart_choice-IsChoice round.poll lb)
        (λ none_online. some_online (sym e ∙ none_online)) f)

-- While a machine is online and every post is answered with another status than 200, the loop
-- never ends, however many rounds it is given.
pub judge_loop_spins :
    (net : ℕ → Round) (code : Text)
    → ((t : ℕ) → IsFailing (net t) code)
    → (fuel t : ℕ) (lb : LoadBalance) → lb.online ≢ []
    → judge_loop net code fuel t lb ≡ none
unfolding judge_loop
judge_loop_spins net code f zero t lb some_online = refl
judge_loop_spins net code f (suc fuel) t lb some_online =
    elim (Next-cases (judge_round (net t) code lb)) [
      | inl (lb1, out1, s) ↦ absurd (rw s at (judge_round-Again (net t) code lb some_online (f t)))
      | inr (lb1, s) ↦
          let same : lb1.online ≡ lb.online =
            rw s at (judge_round-Again (net t) code lb some_online (f t)) in
          rw (s, judge_loop)
            (judge_loop_spins net code f fuel (suc t) lb1
              (λ none_online. some_online (sym same ∙ none_online)))
    ]
