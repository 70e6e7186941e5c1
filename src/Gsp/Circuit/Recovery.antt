-- ===== src/Gsp/Circuit/Recovery.antt =====
-- ecommerce_super/easyecom/api/gsp_circuit.py: how long a Closed circuit stays Closed.
use ecommerce_super.Base.{
  ℕ, suc, ◌+◌, ◌≤◌, ◌≡◌, refl, true, false, Option, none, some, List, [], ◌∷◌, arith, ltb, All,
}
use ecommerce_super.Gsp.Circuit.{
  closed, half_open, Row, Counter, Circuit, read_state, transition_to, read_counter, should_trip,
  increment_counter, poll_in, should_allow_poll, trip_if, result_in, record_inbound_result,
  counted_up, reset_counters,
}
use ecommerce_super.Gsp.Circuit.Traces.{
  Event, poll, result, trace, trace_none, trace-poll, trace-result, failures_of,
}

-- Closed, with at most `n` failures counted.
pub record IsQuiet (n : ℕ) (c : Circuit) : Type 0 where
  pub in_state : read_state c.row ≡ closed
  pub counted : (now : ℕ) → read_counter now c.failures ≤ n

no_trip : (now : ℕ) (c : Circuit) → read_counter now c.failures ≤ 2 → should_trip now c ≡ false
unfolding should_trip
no_trip now c h = let few : ltb (read_counter now c.failures) 3 ≡ true = ground arith in rw few refl

IsQuiet-success :
    (n now : ℕ) (c : Circuit) → n ≤ 2 → IsQuiet n c → IsQuiet n (record_inbound_result now true c)
unfolding record_inbound_result result_in increment_counter trip_if
IsQuiet-success n now c le q =
    let few : read_counter now c.failures ≤ 2 = omega (arith, q.counted now) in
    rw (q.in_state, no_trip now (increment_counter now true c) few)
      (record { in_state = q.in_state; counted = q.counted })

counted_up-le :
    (n now at : ℕ) (o : Option Counter)
    → read_counter now o ≤ n
    → read_counter at (counted_up now o) ≤ suc n
unfolding read_counter
counted_up-le n now at o h = ground arith

IsQuiet-failure :
    (n now : ℕ) (c : Circuit)
    → suc n ≤ 2
    → IsQuiet n c
    → IsQuiet (suc n) (record_inbound_result now false c)
unfolding record_inbound_result result_in increment_counter trip_if
IsQuiet-failure n now c le q =
    let counted : (at : ℕ) → read_counter at (counted_up now c.failures) ≤ suc n =
      λ at. counted_up-le n now at c.failures (q.counted now) in
    let few : read_counter now (counted_up now c.failures) ≤ 2 = omega (arith, counted now) in
    rw (q.in_state, no_trip now (increment_counter now false c) few)
      (record { in_state = q.in_state; counted = counted })

quiet_poll : (n now : ℕ) (c : Circuit) → IsQuiet n c → should_allow_poll true now c ≡ (c, true)
unfolding should_allow_poll poll_in
quiet_poll n now c q = rw q.in_state refl

-- Whatever the order and the times of polls and results, a Closed circuit with at most `n` failures
-- counted stays Closed and allows every poll, as long as `n` and the failures among the results
-- make two at most.
pub few_failures :
    (es : List Event) (c : Circuit) (n : ℕ)
    → IsQuiet n c
    → n + failures_of es ≤ 2
    → (read_state (trace es c).0.row ≡ closed) × All (λ answer. answer ≡ true) (trace es c).1
few_failures [] c n q le = rw (trace_none c) (q.in_state, tt)
few_failures (poll now ∷ es) c n q le =
    let (state, answers) = few_failures es c n q le in
    rw (trace-poll now es c c true (quiet_poll n now c q)) (state, (refl, answers))
few_failures (result now true ∷ es) c n q le =
    rw (trace-result now true es c)
      (few_failures es _ n (IsQuiet-success n now c (omega arith) q) le)
few_failures (result now false ∷ es) c n q le =
    rw (trace-result now false es c)
      (few_failures es _ (suc n) (IsQuiet-failure n now c (omega arith) q) (omega arith))

closes : (now : ℕ) (c : Circuit) → read_state (transition_to now closed c).row ≡ closed
unfolding transition_to read_state
closes now c = by_row c.row
  where
    by_row :
        (o : Option Row)
        → read_state (elim o [
          | none ↦ none
          | some r ↦ some (record { circuit_state = some closed; circuit_opened_at = none })
        ])
          ≡ closed
    by_row none = refl
    by_row (some r) = refl

-- A success in Half-Open closes the circuit with no failure counted.
recovered :
    (now : ℕ) (c : Circuit)
    → read_state c.row ≡ half_open
    → IsQuiet 0 (record_inbound_result now true c)
unfolding record_inbound_result result_in increment_counter read_counter reset_counters
recovered now c h =
    rw h
      (record { in_state = closes now (increment_counter now true c); counted = λ at. omega arith })

-- After a success in Half-Open, the circuit is Closed and allows every poll through any sequence of
-- polls and results with at most two failures.
pub recovery :
    (now : ℕ) (es : List Event) (c : Circuit)
    → read_state c.row ≡ half_open
    → failures_of es ≤ 2
    → let d = record_inbound_result now true c in
      (read_state (trace es d).0.row ≡ closed) × All (λ answer. answer ≡ true) (trace es d).1
recovery now es c h le = few_failures es _ 0 (recovered now c h) (omega (arith, le))
