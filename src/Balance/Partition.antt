-- ===== src/Balance/Partition.antt =====
-- oj_server/oj_control.hpp, LoadBalance: the two lists of machines.
use mathlib.Core.List.{perm_append_singleton, perm_middle}
use mathlib.Core.List.Perm
use distributed_oj.Base.{
  ℕ, zero, suc, ◌≡◌, refl, ◌∙◌, subst, true, inl, inr, List, [], ◌∷◌, ◌++◌, Text, Option, none,
  some, Perm, append_assoc, append-nil, arith, ◌==◌, ==_iff, Bool-cases, length, length-append,
  length-modify, text,
}
use distributed_oj.Comm.Cookie.{pieces}
use distributed_oj.Balance.{
  Machine, LoadBalance, Poll, push_machine, add_machine, load_lines, load_conf, update_all,
  choose_from, smart_choice, contains, erase, offline_machine, online_machine, inc_load_at,
  dec_load_at, reset_load,
}

-- 0, 1, … below `n`
abbrev pub indices : ℕ → List ℕ
indices zero = []
indices (suc n) = indices n ++ (n ∷ [])

abbrev pub IsPartition : LoadBalance → Type 0
IsPartition lb = Perm (lb.online ++ lb.offline) (indices (length lb.machines))

erase-perm :
    (which : ℕ) (ids : List ℕ) → contains which ids ≡ true → Perm (which ∷ erase which ids) ids
erase-perm which [] h = cc
erase-perm which (id ∷ ids) h = elim (Bool-cases (id == which)) [
  | inl same ↦
      let e : id ≡ which = (==_iff id which).0 same in
      rw same (subst (λ w. Perm (w ∷ ids) (id ∷ ids)) e (Perm.refl (id ∷ ids)))
  | inr other ↦ rw other (
      Perm.trans (Perm.swap id which (erase which ids))
        (Perm.cons id (erase-perm which ids (ground arith))))
]

offline-perm :
    (which : ℕ) (online offline : List ℕ)
    → contains which online ≡ true
    → Perm (erase which online ++ (offline ++ (which ∷ []))) (online ++ offline)
offline-perm which online offline h =
    rw (← append_assoc (erase which online) offline (which ∷ [])) (
      Perm.trans (perm_append_singleton which (erase which online ++ offline))
        (Perm.append_right offline (erase-perm which online h)))

-- Taking a machine offline, whichever id is given, leaves every machine online or offline, and only
-- once, if it was so before.
pub offline_machine-IsPartition :
    (which : ℕ) (lb : LoadBalance) → IsPartition lb → IsPartition (offline_machine which lb)
unfolding offline_machine
offline_machine-IsPartition which lb h = elim (Bool-cases (contains which lb.online)) [
  | inl found ↦
      rw (found, length-modify lb.machines which reset_load)
        (Perm.trans (offline-perm which lb.online lb.offline found) h)
  | inr missing ↦ rw missing h
]

pub online_machine-IsPartition :
    (lb : LoadBalance) → IsPartition lb → IsPartition (online_machine lb)
unfolding online_machine
online_machine-IsPartition lb h = rw (append-nil (lb.online ++ lb.offline)) h

push_machine-IsPartition :
    (lb : LoadBalance) (ip port : Text) → IsPartition lb → IsPartition (push_machine lb ip port)
push_machine-IsPartition lb ip port h =
    let n = length lb.machines in
    let e : length (push_machine lb ip port).machines ≡ suc n =
      length-append lb.machines _ ∙ omega arith in
    rw (e, append_assoc lb.online (n ∷ []) lb.offline)
      (Perm.trans (perm_middle lb.online lb.offline) (
        Perm.trans (Perm.symm (perm_append_singleton n (lb.online ++ lb.offline)))
          (Perm.append_right (n ∷ []) h)))

add_machine-IsPartition :
    (lb : LoadBalance) (tokens : List Text) → IsPartition lb → IsPartition (add_machine lb tokens)
unfolding add_machine
add_machine-IsPartition lb [] h = h
add_machine-IsPartition lb (ip ∷ []) h = h
add_machine-IsPartition lb (ip ∷ port ∷ []) h = push_machine-IsPartition lb ip port h
add_machine-IsPartition lb (ip ∷ port ∷ third ∷ tokens) h = h

load_lines-IsPartition :
    (split : Text → Text → List Text) (lines : List Text) (lb : LoadBalance)
    → IsPartition lb
    → IsPartition (load_lines split lines lb)
unfolding load_lines
load_lines-IsPartition split [] lb h = h
load_lines-IsPartition split (line ∷ lines) lb h =
    load_lines-IsPartition split lines (add_machine lb (split line (text ":")))
      (add_machine-IsPartition lb (split line (text ":")) h)

-- However `split` cuts the lines of the configuration, after `LoadConf` every machine is online or
-- offline, and only once, if it was so before.
pub load_conf-IsPartition :
    (split : Text → Text → List Text) (conf : Option Text) (lb : LoadBalance)
    → IsPartition lb
    → IsPartition (load_conf split conf lb).0
unfolding load_conf
load_conf-IsPartition split none lb h = h
load_conf-IsPartition split (some content) lb h =
    load_lines-IsPartition split (pieces b'\n' content) lb h

pub length-update_all :
    (poll : Poll) (ids : List ℕ) (machines : List Machine)
    → length (update_all poll ids machines) ≡ length machines
unfolding update_all
length-update_all poll [] machines = refl
length-update_all poll (id ∷ ids) machines =
    length-update_all poll ids _ ∙ length-modify machines id _

choose_from-IsPartition :
    (poll : Poll) (lb : LoadBalance) (ids : List ℕ)
    → IsPartition lb
    → IsPartition (choose_from poll lb ids).0
unfolding choose_from
choose_from-IsPartition poll lb [] h = h
choose_from-IsPartition poll lb (first ∷ ids) h =
    rw (length-update_all poll (first ∷ ids) lb.machines) h

pub smart_choice-IsPartition :
    (poll : Poll) (lb : LoadBalance) → IsPartition lb → IsPartition (smart_choice poll lb).0
unfolding smart_choice
smart_choice-IsPartition poll lb h = choose_from-IsPartition poll lb lb.online h

pub inc_load_at-IsPartition :
    (id : ℕ) (lb : LoadBalance) → IsPartition lb → IsPartition (inc_load_at id lb)
unfolding inc_load_at
inc_load_at-IsPartition id lb h = rw (length-modify lb.machines id _) h

pub dec_load_at-IsPartition :
    (id : ℕ) (lb : LoadBalance) → IsPartition lb → IsPartition (dec_load_at id lb)
unfolding dec_load_at
dec_load_at-IsPartition id lb h = rw (length-modify lb.machines id _) h
