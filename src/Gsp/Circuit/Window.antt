-- ===== src/Gsp/Circuit/Window.antt =====
-- ecommerce_super/easyecom/api/gsp_circuit.py: how far apart the failures that open the circuit may lie.
use ecommerce_super.Base.{
  ℕ, ◌+◌, ◌<◌, ◌≡◌, refl, ap, ◌∙◌, true, false, not, Option, none, some, arith, ltb,
}
use ecommerce_super.Gsp.Circuit.{
  closed, opened, Row, Counter, Circuit, read_state, transition_to, read_counter, should_trip,
  increment_counter, trip_if, result_in, record_inbound_result, window_seconds,
}

-- A Closed circuit of a known account that counts failures only.
pub record IsFailing (c : Circuit) (o : Option Counter) : Type 0 where
  pub row : Row
  pub known : c.row ≡ some row
  pub in_state : read_state c.row ≡ closed
  pub no_success : c.successes ≡ none
  pub counted : c.failures ≡ o

abbrev counter : ℕ → ℕ → Option Counter
counter n now = some (record { count = n; expires = now + window_seconds })

trips :
    (now : ℕ) (c : Circuit) (n : ℕ)
    → read_counter now c.successes ≡ 0
    → read_counter now c.failures ≡ n
    → should_trip now c ≡ not (ltb n 3)
unfolding should_trip
trips now c n s f = ground (arith, s, f)

fresh : (now : ℕ) (o : Option Counter) → o ≡ none → read_counter now o ≡ 0
unfolding read_counter
fresh now o h = rw h refl

live : (now n : ℕ) → read_counter now (counter n now) ≡ n
unfolding read_counter
live now n = ground arith

still_live :
    (at now n : ℕ) (o : Option Counter)
    → now < at + window_seconds
    → o ≡ counter n at
    → read_counter now o ≡ n
unfolding read_counter
still_live at now n o h e =
    rw e (let early : ltb now (at + 600) ≡ true = ground arith in rw early refl)

fail_more :
    (now n : ℕ) (c : Circuit) (o : Option Counter)
    → IsFailing c o
    → read_counter now c.failures ≡ n
    → ltb (n + 1) 3 ≡ true
    → IsFailing (record_inbound_result now false c) (counter (n + 1) now)
unfolding record_inbound_result result_in increment_counter trip_if
fail_more now n c o f e few =
    let same : counter (read_counter now c.failures + 1) now ≡ counter (n + 1) now = rw e refl in
    let no : should_trip now (increment_counter now false c) ≡ false =
      trips now (increment_counter now false c) (n + 1) (fresh now c.successes f.no_success)
        (ap (read_counter now) same ∙ live now (n + 1))
      ∙ ap not few in
    rw (f.in_state, no)
      (record {
        row = f.row;
        known = f.known;
        in_state = f.in_state;
        no_success = f.no_success;
        counted = same;
      })

fail_last :
    (now n : ℕ) (c : Circuit) (o : Option Counter)
    → IsFailing c o
    → read_counter now c.failures ≡ n
    → ltb (n + 1) 3 ≡ false
    → read_state (record_inbound_result now false c).row ≡ opened
unfolding record_inbound_result result_in increment_counter trip_if transition_to read_state
fail_last now n c o f e many =
    let same : counter (read_counter now c.failures + 1) now ≡ counter (n + 1) now = rw e refl in
    let yes : should_trip now (increment_counter now false c) ≡ true =
      trips now (increment_counter now false c) (n + 1) (fresh now c.successes f.no_success)
        (ap (read_counter now) same ∙ live now (n + 1))
      ∙ ap not many in
    rw (f.in_state, yes, f.known) refl

-- Three failures open a Closed circuit of a known account that has counted nothing, whenever each
-- comes within the window of the one before; the first and the last may lie almost two windows apart.
pub slow_failures :
    (t gap1 gap2 : ℕ) (c : Circuit)
    → IsFailing c none
    → gap1 < window_seconds
    → gap2 < window_seconds
    → read_state
        (record_inbound_result
          (t + gap1 + gap2)
          false
          (record_inbound_result (t + gap1) false (record_inbound_result t false c))).row
      ≡ opened
slow_failures t gap1 gap2 c f h1 h2 =
    let one = fail_more t 0 c none f (fresh t c.failures f.counted) refl in
    let two =
      fail_more (t + gap1) 1 _ (counter 1 t) one
        (still_live t (t + gap1) 1 _ (omega (arith, h1)) one.counted) refl in
    fail_last (t + gap1 + gap2) 2 _ (counter 2 (t + gap1)) two
      (still_live (t + gap1) (t + gap1 + gap2) 2 _ (omega (arith, h2)) two.counted) refl
