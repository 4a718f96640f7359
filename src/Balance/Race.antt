-- ===== src/Balance/Race.antt =====
-- Two submissions on one machine at a time. Each operation takes the lock, but a submission keeps
-- its machine between IncLoad and DecLoad, and nothing keeps another one from resetting the load or
-- from writing a freshly polled load in between.
use distributed_oj.Base.{
  ℕ, ◌-◌, ◌<◌, ◌^◌, ◌≡◌, ◌∙◌, ap, true, arith, length, modify, length-modify, get_or-modify_self,
}
use distributed_oj.Balance.{
  Machine, LoadBalance, load_at, no_machine, contains, offline_machine, inc_load_at, dec_load_at,
  inc_load, dec_load, reset_load,
}

-- Submissions A and B are on the same online machine. The post of B fails, so that the machine goes
-- offline and its load to 0; when the answer to A then arrives, `DecLoad` takes the load of the
-- machine from 0 to 2^64 - 1, whatever it was before.
pub dec_load_at-offline :
    (id : ℕ) (lb : LoadBalance)
    → id < length lb.machines
    → contains id lb.online ≡ true
    → let raced = dec_load_at id (offline_machine id (inc_load_at id (inc_load_at id lb))) in
      load_at raced.machines id ≡ 2 ^ 64 - 1
unfolding dec_load_at offline_machine inc_load_at dec_load reset_load
dec_load_at-offline id lb h online =
    let ms = modify (modify lb.machines id inc_load) id inc_load in
    let long : id < length ms = omega (
      arith,
      length-modify (modify lb.machines id inc_load) id inc_load,
      length-modify lb.machines id inc_load,
    ) in
    rw online (
      ap (λ (m : Machine). m.load)
        (get_or-modify_self (modify ms id reset_load) id dec_load no_machine
          (omega (arith, length-modify ms id reset_load)))
      ∙ ap (λ (m : Machine). (dec_load m).load)
          (get_or-modify_self ms id reset_load no_machine long))

-- On a load below 2^64, `IncLoad` and then `DecLoad` give back the same machine.
pub dec_load-inc_load : (m : Machine) → m.load < 2 ^ 64 → dec_load (inc_load m) ≡ m
unfolding dec_load inc_load
dec_load-inc_load m h = ground arith
