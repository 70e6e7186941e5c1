-- ===== src/Queue/Job/Table.antt =====
-- ecommerce_super/easyecom/doctype/easyecom_queue_job/easyecom_queue_job.py: what `validate` lets through.
use ecommerce_super.Base.{
  ℕ, ◌<◌, ◌≡◌, refl, sym, ap, ◌∙◌, ◌≢◌, ◌⊎◌, inl, inr, true, some, arith, Bool-cases, ok,
  first_returned,
}
use ecommerce_super.Queue.Job.{
  stamped, Job, JobState, queued, running, retrying, success, partial, failed, cancelled, validate,
  allowed_transitions, has_state, same_state, validate_state_transition, validate_partial_counts,
}

-- The state diagram of the row.
infix 40 ◌⟶◌
pub data ◌⟶◌ : JobState → JobState → Type 0 where
  pick : queued ⟶ running
  drop : queued ⟶ cancelled
  finish : running ⟶ success
  finish_partly : running ⟶ partial
  fail : running ⟶ failed
  back_off : running ⟶ retrying
  pick_again : retrying ⟶ running
  give_up : retrying ⟶ failed
  drop_retry : retrying ⟶ cancelled
  retry_by_hand : failed ⟶ queued

ruleset edges = (
  pick, drop, finish, finish_partly, fail, back_off, pick_again, give_up, drop_retry, retry_by_hand,
)

allowed-⟶ : (s t : JobState) → has_state t (allowed_transitions s) ≡ true → s ⟶ t
unfolding allowed_transitions
allowed-⟶ queued queued h = cc
allowed-⟶ _ _ h = grind (arith, edges)

⟶-allowed : {s t : JobState} → s ⟶ t → has_state t (allowed_transitions s) ≡ true
unfolding allowed_transitions
⟶-allowed pick = refl
⟶-allowed drop = refl
⟶-allowed finish = refl
⟶-allowed finish_partly = refl
⟶-allowed fail = refl
⟶-allowed back_off = refl
⟶-allowed pick_again = refl
⟶-allowed give_up = refl
⟶-allowed drop_retry = refl
⟶-allowed retry_by_hand = refl

same_state-eq : (s t : JobState) → same_state s t ≡ true → s ≡ t
same_state-eq queued queued h = refl
same_state-eq _ _ h = ground arith

transition-ok :
    (p j : Job) {m : Job}
    → validate_state_transition (some p) j ≡ ok m
    → (m ≡ j) × ((p.state ≡ j.state) ⊎ (p.state ⟶ j.state))
unfolding validate_state_transition
transition-ok p j h = elim (Bool-cases (same_state p.state j.state)) [
  | inl same ↦ (cc (rw same at h), inl (same_state-eq _ _ same))
  | inr other ↦ elim (Bool-cases (has_state j.state (allowed_transitions p.state))) [
    | inl edge ↦ (cc (rw (other, edge) at h), inr (allowed-⟶ _ _ edge))
    | inr bad ↦ cc (rw (other, bad) at h)
  ]
]

partial-ok :
    (j : Job) {m : Job}
    → validate_partial_counts j ≡ ok m
    → (m ≡ j) × ((j.state ≢ partial) ⊎ ((0 < j.succeeded_count) × (0 < j.failed_count)))
unfolding validate_partial_counts
partial-ok j h = ground arith

-- A save over the row `prior` that `validate` accepts keeps the state or follows an edge of the
-- diagram, a Partial row has work that succeeded and work that failed, and nothing but the time of
-- creation is filled in.
pub validate-ok :
    (now : ℕ) (prior j : Job) {m : Job}
    → validate now (some prior) j ≡ ok m
    → ((prior.state ≡ j.state) ⊎ (prior.state ⟶ j.state))
      × ((j.state ≢ partial) ⊎ ((0 < j.succeeded_count) × (0 < j.failed_count)))
      × (m ≡ stamped now j)
unfolding validate
validate-ok now prior j h =
    let (k, first, second) =
      first_returned (validate_state_transition (some prior) (stamped now j))
        validate_partial_counts h in
    let (same, step) = transition-ok prior (stamped now j) first in
    let (kept, counts) = partial-ok k second in (step, rw same at counts, kept ∙ same)

-- A row that a save with `validate` over another row, again and again, can become.
pub data Saved (now : ℕ) (j : Job) : Job → Type 0 where
  unsaved : Saved now j j
  save : {k m : Job} (l : Job) → Saved now j k → validate now (some k) l ≡ ok m → Saved now j m

abbrev pub IsTerminal : JobState → Type 0
IsTerminal s = (s ≡ success) ⊎ ((s ≡ partial) ⊎ (s ≡ cancelled))

no_edge : {s t : JobState} → IsTerminal s → s ⟶ t → ⊥
no_edge h pick = ground arith
no_edge h drop = ground arith
no_edge h finish = ground arith
no_edge h finish_partly = ground arith
no_edge h fail = ground arith
no_edge h back_off = ground arith
no_edge h pick_again = ground arith
no_edge h give_up = ground arith
no_edge h drop_retry = ground arith
no_edge h retry_by_hand = ground arith

-- Saves that pass `validate` never take a row out of Success, Partial or Cancelled.
pub Saved-IsTerminal :
    (now : ℕ) {j m : Job} → IsTerminal j.state → Saved now j m → m.state ≡ j.state
Saved-IsTerminal now t unsaved = refl
Saved-IsTerminal now t (save {k} {m} l r h) =
    let same = Saved-IsTerminal now t r in
    let (step, counts, kept) = validate-ok now k l h in
    elim step [
      | inl e ↦ ap Job.state kept ∙ sym e ∙ same
      | inr edge ↦ absurd (no_edge (rw same t) edge)
    ]
