-- ===== src/Gsp/Circuit.antt =====
-- ecommerce_super/easyecom/api/gsp_circuit.py: the circuit breaker of the outbound polling, for one
-- account: its row, and its two counters in the cache. The clock is an argument, in seconds. The
-- failure rate is compared without floats: a quotient above one half is a failure count above half
-- the total. A database or cache that raises inside `record_inbound_result` is not modelled.
pub mod Traces
pub mod Recovery
pub mod Window
use ecommerce_super.Base.{
  ℕ, ◌+◌, ◌*◌, Bool, true, false, Option, none, some, ltb, leb, ◌==◌, if◌then◌else◌, or_else,
}

abbrev pub window_seconds : ℕ
window_seconds = 600

abbrev pub open_duration_seconds : ℕ
open_duration_seconds = 900

abbrev pub failure_min_absolute : ℕ
failure_min_absolute = 3

pub data CircuitState : Type 0 where
  closed opened half_open : CircuitState

-- The two fields of the account's row; an empty state is `none`.
pub record Row : Type 0 where
  pub circuit_state : Option CircuitState
  pub circuit_opened_at : Option ℕ

-- A cached number with the time at which it expires.
pub record Counter : Type 0 where
  pub count : ℕ
  pub expires : ℕ

-- An account that does not exist has no row.
pub record Circuit : Type 0 where
  pub row : Option Row
  pub successes : Option Counter
  pub failures : Option Counter

unfoldable pub read_state : Option Row → CircuitState
read_state none = closed
read_state (some r) = or_else r.circuit_state closed

-- `circuit_opened_at` after a transition: stamped on the way into Open, cleared on the way to Closed.
abbrev pub opened_at_after : ℕ → CircuitState → Option ℕ → Option ℕ
opened_at_after now opened old = some now
opened_at_after now closed old = none
opened_at_after now half_open old = old

unfoldable pub transition_to : ℕ → CircuitState → Circuit → Circuit
transition_to now s c = record c {
  row = elim c.row [
    | none ↦ none
    | some r ↦ some (record {
      circuit_state = some s;
      circuit_opened_at = opened_at_after now s r.circuit_opened_at;
    })
  ];
}

unfoldable pub cooldown_expired : ℕ → Option ℕ → Bool
cooldown_expired now none = true
cooldown_expired now (some t) = leb (t + open_duration_seconds) now

unfoldable pub read_counter : ℕ → Option Counter → ℕ
read_counter now none = 0
read_counter now (some c) = if ltb now c.expires then c.count else 0

unfoldable pub should_trip : ℕ → Circuit → Bool
unfolding read_counter
should_trip now c =
    let success = read_counter now c.successes in
    let failure = read_counter now c.failures in
    if ltb failure failure_min_absolute
    then false
    else if success + failure == 0
    then false
    else ltb (success + failure) (2 * failure)

abbrev pub counted_up : ℕ → Option Counter → Option Counter
counted_up now c = some (record { count = read_counter now c + 1; expires = now + window_seconds })

unfoldable pub increment_counter : ℕ → Bool → Circuit → Circuit
unfolding read_counter
increment_counter now true c = record c { successes = counted_up now c.successes }
increment_counter now false c = record c { failures = counted_up now c.failures }

unfoldable pub reset_counters : Circuit → Circuit
reset_counters c = record c { successes = none; failures = none }

-- A poll, by the state that was read.
unfoldable pub poll_in : CircuitState → ℕ → Circuit → Circuit × Bool
unfolding transition_to
poll_in closed now c = (c, true)
poll_in half_open now c = (c, false)
poll_in opened now c =
    if cooldown_expired now (elim c.row [ none ↦ none | some r ↦ r.circuit_opened_at ])
    then (transition_to now half_open c, true)
    else (c, false)

-- `readable` is whether the database answered; a fault lets the poll pass.
unfoldable pub should_allow_poll : Bool → ℕ → Circuit → Circuit × Bool
unfolding poll_in read_state
should_allow_poll true now c = poll_in (read_state c.row) now c
should_allow_poll false now c = (c, true)

unfoldable pub trip_if : Bool → ℕ → Circuit → Circuit
unfolding transition_to
trip_if true now c = transition_to now opened c
trip_if false now c = c

-- What a result does in the state that was read, after it was counted.
unfoldable pub result_in : CircuitState → Bool → ℕ → Circuit → Circuit
unfolding transition_to reset_counters trip_if
result_in half_open true now c = reset_counters (transition_to now closed c)
result_in half_open false now c = transition_to now opened c
result_in closed success now c = trip_if (should_trip now c) now c
result_in opened success now c = c

unfoldable pub record_inbound_result : ℕ → Bool → Circuit → Circuit
unfolding increment_counter result_in read_state
record_inbound_result now success c =
    let counted = increment_counter now success c in
    result_in (read_state counted.row) success now counted
