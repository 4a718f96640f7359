-- ===== src/Balance/Judge.antt =====
-- oj_server/oj_control.hpp: the loop of Control::Judge that posts a submission to one machine after
-- another.
pub mod Safety
pub mod Termination
pub mod Livelock
pub mod Addresses
mod Tests
use distributed_oj.Base.{
  ℕ, zero, suc, Bool, true, false, List, [], ◌∷◌, Option, none, some, Text, ◌==◌, if◌then◌else◌,
  get_or, length,
}
use distributed_oj.Comm.Int.{ℤ}
use distributed_oj.Balance.{
  LoadBalance, Machine, no_machine, Poll, smart_choice, offline_machine, inc_load_at, dec_load_at,
}

-- What the network does in one round: the answers to /status, and to a post of a body to a host,
-- `none` where there is no response, and otherwise its status and body.
pub record Round : Type 0 where
  pub poll : Poll
  pub post : Text → ℤ → Text → Option (ℕ × Text)

abbrev pub machine_at : LoadBalance → ℕ → Machine
machine_at lb id = get_or lb.machines id no_machine

-- How one round ends: out of the loop, with the answer if there is one, or into the next round.
pub data Next : Type 0 where
  stop : LoadBalance → Option Text → Next
  again : LoadBalance → Next

-- The branches on the response of the machine `id`
unfoldable pub on_response : ℕ → LoadBalance → Option (ℕ × Text) → Next
on_response id lb none = again (offline_machine id lb)
on_response id lb (some (status, body)) =
    if status == 200 then stop (dec_load_at id lb) (some body) else again (dec_load_at id lb)

unfoldable pub judge_with : Round → Text → LoadBalance → Option ℕ → Next
unfolding on_response inc_load_at
judge_with round compile_string lb none = stop lb none
judge_with round compile_string lb (some id) =
    let m = machine_at lb id in
    on_response id (inc_load_at id lb) (round.post m.ip m.port compile_string)

-- One round of `while (true)`
unfoldable pub judge_round : Round → Text → LoadBalance → Next
unfolding judge_with
judge_round round compile_string lb =
    let (lb', choice) = smart_choice round.poll lb in judge_with round compile_string lb' choice

-- The loop, on fuel, through the rounds numbered from `t`; `none` means that the fuel has run out.
-- The text is what `*out_json` is set to, if it is.
unfoldable pub judge_loop :
    (ℕ → Round) → Text → ℕ → ℕ → LoadBalance → Option (LoadBalance × Option Text)
judge_loop net compile_string zero t lb = none
judge_loop net compile_string (suc fuel) t lb = elim (judge_round (net t) compile_string lb) [
  | stop lb' out ↦ some (lb', out)
  | again lb' ↦ judge_loop net compile_string fuel (suc t) lb'
]
