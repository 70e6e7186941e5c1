-- ===== src/Queue/Facade/Laws.antt =====
-- ecommerce_super/easyecom/queue/__init__.py: no call of the facade leaves a row without its task.
use ecommerce_super.Base.{
  ℕ, String, ◌≡◌, refl, ◌≢◌, ◌⊎◌, inl, inr, true, false, Option, none, some, [], ◌∷◌, Bool-cases,
}
use ecommerce_super.Queue.Job.{Job, queued, failed, cancelled, transition_to_failed, has_state}
use ecommerce_super.Queue.Rq.{RqCall, JobName, retry, EnqueueReply, accepted, refused, Exc}
use ecommerce_super.Queue.Worker.{with_rq_id, tier_of}
use ecommerce_super.Queue.Facade.{
  retry_advice, retry_failed, Enqueued, task, enqueue_error, after_enqueue, retry_routed, retry_job,
  reset_row,
}

-- A call either returns and leaves a Queued row with a task of its own in RQ, on the tier of the
-- row and under the row's name, or raises and leaves no task: no row, or a row that is Failed.
pub data IsPaired (r : Enqueued) : Type 0 where
  paired :
      (j : Job) (call : RqCall)
      → r.row ≡ some j
      → r.tasks ≡ call ∷ []
      → r.raised ≡ none
      → j.state ≡ queued
      → j.attempts ≡ 0
      → call.easyecom_queue_job ≡ j.name
      → tier_of j ≡ some call.queue
      → IsPaired r
  no_row : (e : Exc) → r.row ≡ none → r.tasks ≡ [] → r.raised ≡ some e → IsPaired r
  failed_row :
      (j : Job) (e : Exc)
      → r.row ≡ some j
      → r.tasks ≡ []
      → r.raised ≡ some e
      → j.state ≡ failed
      → IsPaired r

after_enqueue-IsPaired :
    (now : ℕ) (before after : String) (label : JobName) (tier : String) (reply : EnqueueReply)
    (j : Job)
    → j.state ≡ queued
    → j.attempts ≡ 0
    → tier_of j ≡ some tier
    → IsPaired (after_enqueue now before after (task j tier label) reply j)
unfolding after_enqueue enqueue_error with_rq_id transition_to_failed tier_of
after_enqueue-IsPaired now b a label tier (accepted none) j s n q =
    paired j (task j tier label) refl refl refl s n refl q
after_enqueue-IsPaired now b a label tier (accepted (some id)) j s n q =
    paired (record j { rq_job_id = some id }) (task j tier label) refl refl refl s n refl q
after_enqueue-IsPaired now b a label tier (refused k t) j s n q = failed_row _ _ refl refl refl refl

retry_routed-IsPaired :
    (now : ℕ) (enqueue : RqCall → EnqueueReply) (j : Job) (tier : Option String)
    → tier_of j ≡ tier
    → j.state ≡ queued
    → j.attempts ≡ 0
    → IsPaired (retry_routed now enqueue j tier)
unfolding retry_routed enqueue_error transition_to_failed
retry_routed-IsPaired now enqueue j none t s n = failed_row _ _ refl refl refl refl
retry_routed-IsPaired now enqueue j (some tier) t s n =
    after_enqueue-IsPaired now retry_failed retry_advice (retry j.name now) tier
      (enqueue (task j tier (retry j.name now))) j s n t

-- A retry of a Failed or Cancelled job pairs the row with a task, or raises and leaves it Failed; a
-- retry of any other job raises, leaves the row as it was and hands RQ nothing.
pub retry_job-IsPaired :
    (now : ℕ) (enqueue : RqCall → EnqueueReply) (j : Job)
    → ((has_state j.state (failed ∷ cancelled ∷ []) ≡ true) × IsPaired (retry_job now enqueue j))
      ⊎ ((has_state j.state (failed ∷ cancelled ∷ []) ≡ false)
          × ((retry_job now enqueue j).row ≡ some j)
          × ((retry_job now enqueue j).tasks ≡ [])
          × ((retry_job now enqueue j).raised ≢ none))
unfolding retry_job
retry_job-IsPaired now enqueue j = elim (Bool-cases (has_state j.state (failed ∷ cancelled ∷ []))) [
  | inl old ↦
      inl (old, rw old (retry_routed-IsPaired now enqueue (reset_row j) (tier_of j) refl refl refl))
  | inr live ↦ inr (live, rw live refl, rw live refl, rw live (λ e. cc))
]
