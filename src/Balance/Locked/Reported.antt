-- ===== src/Balance/Locked/Reported.antt =====
-- Both servers together: what /status of compile_server/compile_server.cc reports, as
-- Machine::UpdateStatus of oj_server/oj_control.hpp reads it.
use distributed_oj.Base.{
  ℕ, ◌+◌, ◌-◌, ◌⊎◌, ◌<◌, ◌≡◌, ◌≢◌, refl, sym, ◌∙◌, ap, true, false, inl, inr, Option, some, Text,
  text, none, arith, get_or,
}
use distributed_oj.Base.Result.{Result, ok, throws, undefined, ◌>>=◌}
use distributed_oj.Comm.Int.{pos, negsuc}
use distributed_oj.Comm.Int.Sums.{◌+ℤ◌, ◌-ℤ◌}
use distributed_oj.Comm.HostStatus.{Counters, Fraction, growth, find_line, lines_of}
use distributed_oj.Comm.HostStatus.Columns.{
  IsName, Received, Sent, net_line, get_network_usage-net_line,
}
use distributed_oj.CompileServer.Status.{Readings, Statics, Report, get_status}
use distributed_oj.Balance.{LoadBalance, no_machine, contains}
use distributed_oj.Balance.Status.{
  StatusJson, Answers, read_metrics, read_value, read_response, status_of,
}
use distributed_oj.Balance.Locked.{Guarded, smart_choice_locked}
use distributed_oj.Balance.Locked.Stuck.{Operation, call, smart_choice_locked-stuck}

-- `body` is a text as jsoncpp writes a report: it parses, and where the figure of the network is
-- negative, which the rounding to a float leaves it, `asUInt64()` throws on it as out of range.
pub record IsWritten (json : StatusJson) (report : Report) (body : Text) : Type 0 where
  pub status : json.Value
  pub parsed : json.parse body ≡ some status
  pub negative :
      (u l : ℕ)
      → report.network_usage ≡ record { upper = negsuc u; lower = pos l }
      → 0 < l
      → (what : Text) × (json.get_uint64 status (text "network_usage") ≡ throws what)

-- The counters have fallen since the last call, taken together.
growth-negative :
    (a b c d : ℕ)
    → a + b < c + d
    → (u : ℕ) × ((growth
          (record { first = pos a; second = pos b })
          (record { first = pos c; second = pos d })).1
        ≡ record { upper = negsuc u; lower = pos 1024 })
unfolding growth ◌+ℤ◌ ◌-ℤ◌
growth-negative a b c d h = ((c + d) - (a + b) - 1, ground arith)

third_throws :
    {A : Type 0} (a b c : Result ℕ) (rest : ℕ → ℕ → ℕ → Result A) {why : Text}
    → c ≡ throws why
    → let r = a >>= λ x. (b >>= λ y. (c >>= λ z. rest x y z)) in
      (r ≡ undefined) ⊎ ((what : Text) × (r ≡ throws what))
third_throws (ok x) (ok y) c rest {why} e = inr (why, rw e refl)
third_throws (ok x) (throws what) c rest e = inr (what, refl)
third_throws (ok x) undefined c rest e = inl refl
third_throws (throws what) b c rest e = inr (what, refl)
third_throws undefined b c rest e = inl refl

-- A chain of three that has returned: what the second one returned.
second_of :
    {A B C D : Type 0} (a : Result A) (b : Result B) (c : Result C) (f : A → B → C → D) {d : D}
    → (a >>= λ x. (b >>= λ y. (c >>= λ z. ok (f x y z)))) ≡ ok d
    → (x : A) × (y : B) × (z : C) × (b ≡ ok y) × (d ≡ f x y z)
second_of (ok x) (ok y) (ok z) f e = (x, y, z, refl, cc)
second_of (ok x) (ok y) (throws what) f e = cc
second_of (ok x) (ok y) undefined f e = cc
second_of (ok x) (throws what) c f e = cc
second_of (ok x) undefined c f e = cc
second_of (throws what) b c f e = cc
second_of undefined b c f e = cc

ok_injective : {A : Type 0} {a b : A} → ok a ≡ ok b → a ≡ b
ok_injective e = cc

module _ (json : StatusJson) where
  read_metrics-throws :
      (status : json.Value) {why : Text}
      → json.get_uint64 status (text "network_usage") ≡ throws why
      → (read_metrics json status ≡ undefined)
        ⊎ ((what : Text) × (read_metrics json status ≡ throws what))
  unfolding read_metrics
  read_metrics-throws status e = third_throws _ _ _ _ e

  read_response-throws :
      (body : Text) (status : json.Value) {why : Text}
      → json.parse body ≡ some status
      → json.get_uint64 status (text "network_usage") ≡ throws why
      → read_response json (some (200, body)) ≢ undefined
      → (what : Text) × (read_response json (some (200, body)) ≡ throws what)
  unfolding read_response read_value
  read_response-throws body status parsed e defined = elim (read_metrics-throws status e) [
    | inl bad ↦ absurd (defined (rw (parsed, bad) refl))
    | inr (what, thrown) ↦ (what, rw (parsed, thrown) refl)
  ]

-- The figure of the network where its counters have fallen
network_usage-fallen :
    (r : Readings) (v v' : Statics) (report : Report) (name : Text) (received : Received)
    (sent : Sent) (a b : ℕ)
    → get_status r v ≡ ok (v', report)
    → IsName name
    → find_line (text "eth0") (lines_of r.net_dev) ≡ some (net_line name received sent)
    → v.net ≡ record { first = pos a; second = pos b }
    → received.bytes + received.multicast < a + b
    → (u : ℕ) × (report.network_usage ≡ record { upper = negsuc u; lower = pos 1024 })
unfolding get_status
network_usage-fallen r v v' report name received sent a b done named found before fallen =
    let (cpu, net, disk, e, reported) = second_of _ _ _ _ done in
    let line =
      get_network_usage-net_line (text "eth0") name r.net_dev received sent v.net named found in
    let (u, negative) = growth-negative received.bytes received.multicast a b fallen in
    (
      u,
      ap (λ (p : Statics × Report). p.1.network_usage) reported
          ∙ (ap (λ (p : Counters × Fraction). p.1) (ok_injective (sym e ∙ line))
              ∙ rw before negative),
    )

-- A compile server whose counters of received bytes and multicast frames have fallen, taken
-- together, since its last /status, and whose first line with "eth0" in /proc/net/dev is one as the
-- kernel prints it, reports a negative figure for its network. Where jsoncpp throws on a negative
-- figure that it reads as unsigned, and its conversions return or throw, `SmartChoice` of the web
-- server with that machine online throws, and no call on the machines ever returns again.
pub get_status-stuck :
    (json : StatusJson) (answers : Answers) (lb : LoadBalance) (id : ℕ) (r : Readings)
    (v v' : Statics) (report : Report) (body name : Text) (received : Received) (sent : Sent)
    (a b : ℕ)
    → get_status r v ≡ ok (v', report)
    → IsName name
    → find_line (text "eth0") (lines_of r.net_dev) ≡ some (net_line name received sent)
    → v.net ≡ record { first = pos a; second = pos b }
    → received.bytes + received.multicast < a + b
    → IsWritten json report body
    → ((response : Option (ℕ × Text)) → read_response json response ≢ undefined)
    → contains id lb.online ≡ true
    → let m = get_or lb.machines id no_machine in
      answers m.ip m.port ≡ some (200, body)
      → (why : Text) × (g : Guarded) × (smart_choice_locked json answers
            (record { balance = lb; held = false })
          ≡ some (throws why, g))
        × ((c : Operation) → call c g ≡ none)
unfolding status_of
get_status-stuck json answers lb id r v v' report body name received sent a b done named found
      before fallen w defined online answered =
    let (u, e) =
      network_usage-fallen r v v' report name received sent a b done named found before fallen in
    let (why, thrown) = w.negative u 1024 e (omega arith) in
    let (what, unread) =
      read_response-throws json body w.status w.parsed thrown (defined (some (200, body))) in
    smart_choice_locked-stuck json answers lb id what defined online (rw answered unread)
