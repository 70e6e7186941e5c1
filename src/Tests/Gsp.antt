-- ===== src/Tests/Gsp.antt =====
-- ecommerce_super/easyecom/api/gsp_circuit.py: tests.
use ecommerce_super.Base.{
  ℕ, ◌+◌, ◌≤◌, ◌≡◌, refl, true, false, Option, none, some, List, [], ◌∷◌, arith, All,
}
use ecommerce_super.Gsp.Circuit.{
  CircuitState, closed, opened, half_open, Row, Circuit, read_state, record_inbound_result,
}
use ecommerce_super.Gsp.Circuit.Traces.{
  late_polls, Event, poll, result, trace, polls, allowed, IsStranded, polls-opened,
  polls-IsStranded,
}
use ecommerce_super.Gsp.Circuit.Recovery.{few_failures, recovery}
use ecommerce_super.Gsp.Circuit.Window.{slow_failures}

abbrev in_state : CircuitState → Option ℕ → Circuit
in_state s at = record {
  row = some (record { circuit_state = some s; circuit_opened_at = at });
  successes = none;
  failures = none;
}

abbrev probing : Circuit
probing = in_state half_open (some 1000)

abbrev tripped : Circuit
tripped = in_state opened (some 1000)

-- The first poll after the cooldown passes, the next does not.
one_probe : allowed (trace (polls (1500 ∷ 1900 ∷ 1901 ∷ [])) tripped).1 ≡ 1
unfolding trace ecommerce_super.Gsp.Circuit.should_allow_poll
    ecommerce_super.Gsp.Circuit.cooldown_expired
one_probe = refl

polls-opened_test :
    (allowed (trace (polls (1500 ∷ 1900 ∷ 1901 ∷ [])) tripped).1 ≤ 1)
    × (allowed (trace (polls (1500 ∷ 1900 ∷ 1901 ∷ [])) tripped).1
        ≤ late_polls 1000 (1500 ∷ 1900 ∷ 1901 ∷ []))
polls-opened_test = polls-opened (1500 ∷ 1900 ∷ 1901 ∷ []) tripped 1000 (record {
  row = record { circuit_state = some opened; circuit_opened_at = some 1000 };
  kept = refl;
  in_state = refl;
  at_time = refl;
})

abbrev events : List Event
events = result 10 false ∷ poll 20 ∷ result 30 true ∷ result 40 false ∷ poll 50 ∷ []

few_failures_test :
    (read_state (trace events (in_state closed none)).0.row ≡ closed)
    × All (λ answer. answer ≡ true) (trace events (in_state closed none)).1
unfolding read_state ecommerce_super.Gsp.Circuit.read_counter
few_failures_test =
    few_failures events (in_state closed none) 0
      (record { in_state = refl; counted = λ now. omega arith }) (omega arith)

recovery_test :
    let d = record_inbound_result 2000 true probing in
    (read_state (trace events d).0.row ≡ closed) × All (λ answer. answer ≡ true) (trace events d).1
unfolding read_state
recovery_test = recovery 2000 events probing refl (omega arith)

slow_failures_test :
    read_state
      (record_inbound_result (0 + 599 + 599) false (
        record_inbound_result
          (0 + 599)
          false
          (record_inbound_result 0 false (in_state closed none)))).row
    ≡ opened
unfolding read_state
slow_failures_test =
    slow_failures 0 599 599 (in_state closed none)
      (record {
        row = record { circuit_state = some closed; circuit_opened_at = none };
        known = refl;
        in_state = refl;
        no_success = refl;
        counted = refl;
      })
      (omega arith) (omega arith)

polls-IsStranded_example :
    (allowed (trace (polls (1500 ∷ 1900 ∷ 1901 ∷ [])) tripped).1 ≡ 1)
    × IsStranded (trace (polls (1500 ∷ 1900 ∷ 1901 ∷ [])) tripped).0
polls-IsStranded_example =
    polls-IsStranded (1500 ∷ 1900 ∷ 1901 ∷ []) tripped 1000
      (record { row = _; kept = refl; in_state = refl; at_time = refl }) (omega arith)
