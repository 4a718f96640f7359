-- ===== src/Balance/Polled.antt =====
-- oj_server/oj_control.hpp, Machine::UpdateStatus in LoadBalance::SmartChoice: whose loads are
-- fresh.
use distributed_oj.Base.{
  ℕ, ◌+◌, ◌-◌, ◌<◌, ◌%◌, ◌^◌, ◌≡◌, refl, sym, ◌∙◌, ap, subst, ◌⊎◌, inl, inr, true, false, List, [],
  ◌∷◌, some, arith, ◌==◌, ==_iff, Bool-cases, length, length-modify, modify, get_or,
  get_or-modify_self, get_or-modify_ne,
}
use distributed_oj.Balance.{
  Machine, no_machine, LoadBalance, Metrics, Poll, total_load, update_status, update_all,
  choose_from, smart_choice, contains, load_at, dec_load_at, dec_load,
}
use distributed_oj.Balance.Partition.{IsPartition}
use distributed_oj.Balance.System.Machines.{online_below, length-smart_choice}

module _ (poll : Poll) (id : ℕ) (s : Metrics) where
  -- The machine answers with `s`, and it is still to be asked or has the load already.
  record IsReady (ids : List ℕ) (m : Machine) : Type 0 where
    answers : poll m.ip m.port ≡ some s
    asked : (contains id ids ≡ true) ⊎ (m.load ≡ total_load s % 2 ^ 64)

  update_status-IsReady :
      (ids : List ℕ) (m : Machine)
      → poll m.ip m.port ≡ some s
      → IsReady ids (update_status poll m).0
  unfolding update_status
  update_status-IsReady ids m e = rw (update_status, e) (record { answers = e; asked = inr refl })

  still_asked :
      (j : ℕ) (ids : List ℕ) (m : Machine) → (j == id) ≡ false → IsReady (j ∷ ids) m → IsReady ids m
  still_asked j ids m other r = record {
    answers = r.answers;
    asked = elim r.asked [ inl here ↦ inl (ground arith) | inr done ↦ inr done ];
  }

  load_at-update_all :
      (ids : List ℕ) (machines : List Machine)
      → id < length machines
      → IsReady ids (get_or machines id no_machine)
      → load_at (update_all poll ids machines) id ≡ total_load s % 2 ^ 64
  unfolding update_all
  load_at-update_all [] machines h r = elim r.asked [ inl here ↦ cc | inr done ↦ done ]
  load_at-update_all (j ∷ ids) machines h r =
      let f = λ (m : Machine). (update_status poll m).0 in
      load_at-update_all ids (modify machines j f) (omega (arith, length-modify machines j f))
        (elim (Bool-cases (j == id)) [
          | inl same ↦
              subst (IsReady ids)
                (sym (
                  subst
                    (λ k.
                      get_or (modify machines k f) id no_machine
                      ≡ f (get_or machines id no_machine))
                    (sym ((==_iff j id).0 same)) (get_or-modify_self machines id f no_machine h)))
                (update_status-IsReady ids (get_or machines id no_machine) r.answers)
          | inr other ↦
              subst (IsReady ids)
                (sym (get_or-modify_ne machines j id f no_machine (λ e. ground arith)))
                (still_asked j ids (get_or machines id no_machine) other r)
        ])

  choose_from-polled :
      (lb : LoadBalance) (ids : List ℕ)
      → id < length lb.machines
      → contains id ids ≡ true
      → poll (get_or lb.machines id no_machine).ip (get_or lb.machines id no_machine).port ≡ some s
      → load_at (choose_from poll lb ids).0.machines id ≡ total_load s % 2 ^ 64
  unfolding choose_from
  choose_from-polled lb [] h here e = cc
  choose_from-polled lb (first ∷ ids) h here e =
      load_at-update_all (first ∷ ids) lb.machines h (record { answers = e; asked = inl here })

-- Where every machine is online or offline, and only once: after `SmartChoice` the load of an
-- online machine that has answered with the figures `s` is their weighted sum alone, whatever
-- IncLoad has counted before. So a response that arrives later lowers a load in which its post does
-- not count, and where the sum is 0, `DecLoad` takes the load to 2^64 - 1.
pub smart_choice-polled :
    (poll : Poll) (lb : LoadBalance) (id : ℕ) (s : Metrics)
    → IsPartition lb
    → contains id lb.online ≡ true
    → poll (get_or lb.machines id no_machine).ip (get_or lb.machines id no_machine).port ≡ some s
    → let lb' = (smart_choice poll lb).0 in
      (load_at lb'.machines id ≡ total_load s % 2 ^ 64)
      × (load_at (dec_load_at id lb').machines id ≡ (total_load s % 2 ^ 64 + 2 ^ 64 - 1) % 2 ^ 64)
unfolding smart_choice dec_load_at dec_load
smart_choice-polled poll lb id s parted online e = (polled, lowered)
  where
    small : id < length lb.machines
    small = online_below id lb parted online

    polled : load_at (smart_choice poll lb).0.machines id ≡ total_load s % 2 ^ 64
    polled = choose_from-polled poll id s lb lb.online small online e

    lowered :
        load_at (dec_load_at id (smart_choice poll lb).0).machines id
        ≡ (total_load s % 2 ^ 64 + 2 ^ 64 - 1) % 2 ^ 64
    lowered =
        ap (λ (m : Machine). m.load)
          (get_or-modify_self (smart_choice poll lb).0.machines id dec_load no_machine
            (subst (λ n. id < n) (sym (length-smart_choice poll lb)) small))
        ∙ ap (λ n. (n + 2 ^ 64 - 1) % 2 ^ 64) polled
