-- ===== src/Gsp/Circuit/Traces.antt =====
-- ecommerce_super/easyecom/api/gsp_circuit.py: sequences of polls and results.
use mathlib.Core.Path.{subst}
use ecommerce_super.Base.{
  ℕ, suc, ◌+◌, ◌≤◌, ◌≡◌, refl, sym, ap, inl, inr, Bool, true, false, some, List, [], ◌∷◌, ◌++◌,
  arith, leb, if◌then◌else◌, Bool-cases,
}
use ecommerce_super.Gsp.Circuit.{
  opened, half_open, Row, Circuit, read_state, transition_to, cooldown_expired, poll_in,
  should_allow_poll, record_inbound_result, open_duration_seconds,
}

-- A poll that asks, or a result of the inbound handler, with its time.
pub data Event : Type 0 where
  poll : ℕ → Event
  result : ℕ → Bool → Event

-- What follows an event: the circuit, and the answer if it was a poll.
abbrev pub after : Event → Circuit → Circuit × List Bool
after (poll now) c = let (d, allowed) = should_allow_poll true now c in (d, allowed ∷ [])
after (result now success) c = (record_inbound_result now success c, [])

unfoldable pub trace : List Event → Circuit → Circuit × List Bool
trace [] c = (c, [])
trace (e ∷ es) c =
    let (d, answers) = after e c in let (last, more) = trace es d in (last, answers ++ more)

abbrev pub polls : List ℕ → List Event
polls [] = []
polls (now ∷ times) = poll now ∷ polls times

abbrev pub failures_of : List Event → ℕ
failures_of [] = 0
failures_of (result now false ∷ es) = suc (failures_of es)
failures_of (_ ∷ es) = failures_of es

-- The number of polls that were allowed.
abbrev pub allowed : List Bool → ℕ
allowed [] = 0
allowed (true ∷ answers) = suc (allowed answers)
allowed (false ∷ answers) = allowed answers

pub trace-poll :
    (now : ℕ) (es : List Event) (c d : Circuit) (answer : Bool)
    → should_allow_poll true now c ≡ (d, answer)
    → trace (poll now ∷ es) c ≡ ((trace es d).0, answer ∷ (trace es d).1)
unfolding trace
trace-poll now es c d answer h = ap (λ r. ((trace es r.0).0, r.1 ∷ (trace es r.0).1)) h

pub trace_none : (c : Circuit) → trace [] c ≡ (c, [])
unfolding trace
trace_none c = refl

pub trace-result :
    (now : ℕ) (success : Bool) (es : List Event) (c : Circuit)
    → trace (result now success ∷ es) c ≡ trace es (record_inbound_result now success c)
unfolding trace
trace-result now success es c = refl

poll-half_open :
    (now : ℕ) (c : Circuit)
    → read_state c.row ≡ half_open
    → should_allow_poll true now c ≡ (c, false)
unfolding should_allow_poll poll_in
poll-half_open now c h = rw h refl

-- While no result comes in, a Half-Open circuit refuses every poll, however late, and stays Half-Open.
polls-half_open :
    (times : List ℕ) (c : Circuit)
    → read_state c.row ≡ half_open
    → ((trace (polls times) c).0 ≡ c) × (allowed (trace (polls times) c).1 ≡ 0)
polls-half_open [] c h = rw (trace_none c) (refl, refl)
polls-half_open (now ∷ times) c h =
    rw (trace-poll now (polls times) c c false (poll-half_open now c h)) (polls-half_open times c h)

-- The row of a circuit that was opened at a time.
pub record IsOpened (c : Circuit) (since : ℕ) : Type 0 where
  pub row : Row
  pub kept : c.row ≡ some row
  pub in_state : row.circuit_state ≡ some opened
  pub at_time : row.circuit_opened_at ≡ some since

poll-late :
    (now since : ℕ) (c : Circuit)
    → IsOpened c since
    → leb (since + open_duration_seconds) now ≡ true
    → should_allow_poll true now c ≡ (transition_to now half_open c, true)
unfolding should_allow_poll poll_in read_state cooldown_expired
poll-late now since c o late = rw (o.kept, o.in_state, o.at_time, late) refl

poll-early :
    (now since : ℕ) (c : Circuit)
    → IsOpened c since
    → leb (since + open_duration_seconds) now ≡ false
    → should_allow_poll true now c ≡ (c, false)
unfolding should_allow_poll poll_in read_state cooldown_expired
poll-early now since c o early = rw (o.kept, o.in_state, o.at_time, early) refl

probing :
    (now since : ℕ) (c : Circuit)
    → IsOpened c since
    → read_state (transition_to now half_open c).row ≡ half_open
unfolding transition_to read_state
probing now since c o = rw o.kept refl

-- The polls that come when the cooldown is over.
abbrev pub late_polls : ℕ → List ℕ → ℕ
late_polls since [] = 0
late_polls since (now ∷ times) =
    let rest = late_polls since times in
    if leb (since + open_duration_seconds) now then suc rest else rest

-- From a circuit opened at a time, any sequence of polls with no result between them is allowed
-- once at most, and no more often than polls of it come after the cooldown.
pub polls-opened :
    (times : List ℕ) (c : Circuit) (since : ℕ)
    → IsOpened c since
    → (allowed (trace (polls times) c).1 ≤ 1)
      × (allowed (trace (polls times) c).1 ≤ late_polls since times)
polls-opened [] c since o = rw (trace_none c) (omega arith, omega arith)
polls-opened (now ∷ times) c since o = elim (Bool-cases (leb (since + open_duration_seconds) now)) [
  | inl late ↦
      let (same, none_more) =
        polls-half_open times (transition_to now half_open c) (probing now since c o) in
      rw (trace-poll now (polls times) c _ true (poll-late now since c o late), late)
        (omega (arith, none_more), omega (arith, none_more))
  | inr early ↦
      let (once, few) = polls-opened times c since o in
      rw (trace-poll now (polls times) c c false (poll-early now since c o early), early)
        (once, few)
]

-- What polls leave of a circuit that stays Half-Open for good while no result comes in.
abbrev pub IsStranded : Circuit → Type 0
IsStranded c =
    (read_state c.row ≡ half_open)
    × ((more : List ℕ) → ((trace (polls more) c).0 ≡ c) × (allowed (trace (polls more) c).1 ≡ 0))

stranded : (c : Circuit) → read_state c.row ≡ half_open → IsStranded c
stranded c h = (h, λ more. polls-half_open more c h)

-- From a circuit opened at a time, when polls come with no result between them and one of them comes after the cooldown,
-- exactly one of them is allowed, and the circuit that they leave is Half-Open, where every later poll is refused, however
-- late, while no result comes in.
pub polls-IsStranded :
    (times : List ℕ) (c : Circuit) (since : ℕ)
    → IsOpened c since
    → 1 ≤ late_polls since times
    → (allowed (trace (polls times) c).1 ≡ 1) × IsStranded (trace (polls times) c).0
polls-IsStranded [] c since o some_late = elim (none_late some_late) [ ]
  where
    none_late : 1 ≤ 0 → ⊥
    none_late h = omega (arith, h)
polls-IsStranded (now ∷ times) c since o some_late =
    elim (Bool-cases (leb (since + open_duration_seconds) now)) [
      | inl late ↦
          let d = transition_to now half_open c in
          let is_probing = probing now since c o in
          let (same, none_more) = polls-half_open times d is_probing in
          rw (trace-poll now (polls times) c d true (poll-late now since c o late))
            (omega (arith, none_more), subst IsStranded (sym same) (stranded d is_probing))
      | inr early ↦
          let later : 1 ≤ late_polls since times = rw early at some_late in
          rw (trace-poll now (polls times) c c false (poll-early now since c o early))
            (polls-IsStranded times c since o later)
    ]
