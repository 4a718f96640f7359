-- ===== src/Balance/System/Tests.antt =====
-- Two threads on the one machine of a configuration.
use distributed_oj.Base.{◌≡◌, refl, List, [], ◌∷◌, Option, none, some, Text, text, arith}
use distributed_oj.Comm.Cookie.{pieces}
use distributed_oj.Balance.{
  LoadBalance, Poll, no_machines, load_conf, load_lines, add_machine, update_status, inc_load,
  inc_load_at, load_at, offline_machine, online_machine,
}
use distributed_oj.Balance.Judge.{on_response}
use distributed_oj.Balance.System.{
  Stage, choosing, chosen, posted, Network, any_network, poll_at, compared, enter, poll, polled,
  compare, decide, increase, respond, Judging, move, recover, Run, halt, later,
}
use distributed_oj.Balance.System.Flight.{calm}
use distributed_oj.Balance.System.Safety.{IsSound, started, Run-load_conf-IsSound}
use distributed_oj.Balance.System.Account.{Run-load_at}

abbrev split_colon : Text → Text → List Text
split_colon line separators = pieces b':' line

abbrev conf : Option Text
conf = some (text "a:81")

abbrev silent : Poll
silent ip port = none

abbrev start_balance : LoadBalance
start_balance = (load_conf split_colon conf no_machines).0

-- Two threads, and where the first one stands
abbrev first_at : LoadBalance → Stage → Judging
first_at lb w = record { balance = lb; threads = w ∷ choosing ∷ [] }

abbrev polled_balance : LoadBalance
polled_balance = poll_at silent 0 start_balance

-- The first thread goes through SmartChoice.
chosen-Run :
    (net : Network)
    → net.Polls silent
    → Run net (started split_colon conf 2) (first_at polled_balance (chosen 0))
unfolding load_conf load_lines add_machine pieces compared poll_at update_status
chosen-Run net p =
    let lb = polled_balance in
    let others = choosing ∷ [] in
    let polls =
      later (later halt (move [] others enter)) (move [] others (poll silent p 0 [] 0 [])) in
    later (later (later polls (move [] others (polled 0 []))) (move [] others (compare 0 0 0 [])))
      (move [] others (decide 0 0))

-- One thread has posted its submission to the machine, the other one has not chosen.
abbrev busy : Judging
busy = first_at (inc_load_at 0 polled_balance) (posted 0)

busy-Run : (net : Network) → net.Polls silent → Run net (started split_colon conf 2) busy
busy-Run net p = later (chosen-Run net p) (move [] (choosing ∷ []) (increase 0))

Run-load_at_example : load_at busy.balance.machines 0 ≡ 1
unfolding poll_at load_conf load_lines add_machine pieces update_status inc_load_at inc_load
Run-load_at_example =
    Run-load_at split_colon conf 2 busy (omega arith) (busy-Run calm (λ ip port. refl)) 0

-- The post of the first thread gets no response, and a signal brings the machine online again.
abbrev recovered : Judging
recovered = first_at (online_machine (offline_machine 0 busy.balance)) choosing

recovered-Run : Run any_network (started split_colon conf 2) recovered
unfolding on_response
recovered-Run =
    later (later (busy-Run any_network tt) (move [] (choosing ∷ []) (respond 0 none tt)))
      (recover (offline_machine 0 busy.balance) (choosing ∷ choosing ∷ []))

Run-load_conf-IsSound_example : IsSound recovered
Run-load_conf-IsSound_example = Run-load_conf-IsSound split_colon conf 2 recovered recovered-Run
