-- ===== src/Queue/Facade.antt =====
-- ecommerce_super/easyecom/queue/__init__.py: enqueue, cancel and retry of a job. The reply of
-- `frappe.enqueue`, the clock and the name that Frappe gives the row are arguments. The payload and
-- the links that the facade only copies into the row are not modelled.
pub mod Laws
use ecommerce_super.Queue.Job.{
  Job, JobState, queued, running, retrying, success, failed, cancelled, has_state, same_state,
  transition_to_failed, transition_to_success, transition_to_retrying, cancel,
}
use ecommerce_super.Queue.Rq.{
  RqCall, JobName, plain, retry, EnqueueReply, accepted, refused, Exc, foreign,
}
use ecommerce_super.Queue.Worker.{Env, Frame, with_rq_id, tier_of, reenqueue}
use ecommerce_super.Queue.Semaphore.{Slots, release_slot}
use ecommerce_super.Queue.Routing.{queue_for, timeout_for, max_attempts_for}
use ecommerce_super.Base.{
  ℕ, String, Option, none, some, List, [], ◌∷◌, str_eq, if◌then◌else◌, or_else, append, quoted,
}

-- The keyword arguments that the facade looks at.
pub record Request : Type 0 where
  pub job_type : String
  pub company : String
  pub target_name : Option String
  pub max_attempts : Option ℕ
  pub idempotency_key : Option String

-- What a call of the facade did: the row that it leaves in the table, the tasks that RQ accepted,
-- and what it raised.
pub record Enqueued : Type 0 where
  pub row : Option Job
  pub tasks : List RqCall
  pub raised : Option Exc

-- An absent or empty key.
abbrev pub given : Option String → Option String
given none = none
given (some key) = if str_eq key "" then none else some key

abbrev pub new_row : String → ℕ → Request → String → String → Job
new_row name now r tier key = record {
  name = name;
  company = r.company;
  job_type = r.job_type;
  queue_tier = some tier;
  target_name = r.target_name;
  idempotency_key = key;
  state = queued;
  attempts = 0;
  max_attempts = or_else r.max_attempts (max_attempts_for r.job_type);
  created_at = some now;
  last_attempted_at = none;
  next_attempt_at = none;
  completed_at = none;
  last_error = none;
  last_error_translation_key = none;
  rq_job_id = none;
  succeeded_count = 0;
  failed_count = 0;
}

-- The task for a row, by the queue and the name that are asked for.
abbrev pub task : Job → String → JobName → RqCall
task j tier label = record {
  queue = tier;
  job_name = label;
  timeout = timeout_for j.job_type;
  enqueue_after = none;
  easyecom_queue_job = j.name;
}

-- The handler of a failed `frappe.enqueue`, whose message differs between the two callers.
unfoldable pub enqueue_error : ℕ → String → String → String → String → Job → Enqueued
enqueue_error now before after kind text j = record {
  row = some (
      transition_to_failed now (append before (append kind (append ": " (append text after))))
        (some "ECS_QJ_ENQUEUE_FAILED") j);
  tasks = [];
  raised = some (foreign kind text);
}

unfoldable pub after_enqueue : ℕ → String → String → RqCall → EnqueueReply → Job → Enqueued
unfolding enqueue_error
after_enqueue now before after call (refused kind text) j =
    enqueue_error now before after kind text j
after_enqueue now before after call (accepted id) j = record {
  row = some (with_rq_id id j);
  tasks = call ∷ [];
  raised = none;
}

-- What the two callers write round the error of `frappe.enqueue`.
abbrev pub enqueue_failed_after_insert : String
enqueue_failed_after_insert = "frappe.enqueue failed after DocType insert: "

abbrev pub enqueue_advice : String
enqueue_advice =
    ". The Queue Job row exists but no RQ task was created. Retry from the form via the standard retry action."

abbrev pub retry_failed : String
retry_failed = "retry_job: frappe.enqueue failed: "

abbrev pub retry_advice : String
retry_advice = ". State reset to Queued but no RQ task was created. Retry again from the form."

abbrev nothing : String → Enqueued
nothing text = record { row = none; tasks = []; raised = some (foreign "ValueError" text) }

enqueue_row : ℕ → (RqCall → EnqueueReply) → String → Job → Enqueued
unfolding after_enqueue
enqueue_row now enqueue tier j =
    let call = task j tier (plain j.name) in
    after_enqueue now enqueue_failed_after_insert enqueue_advice call (enqueue call) j

enqueue_keyed : String → ℕ → (RqCall → EnqueueReply) → Request → String → Option String → Enqueued
unfolding enqueue_row
enqueue_keyed name now enqueue r tier none = nothing (
    append "enqueue_easyecom_job: idempotency_key is required for job_type " (
      append (quoted r.job_type)
        ". Use a per-operation builder from ecommerce_super.easyecom.utils.idempotency (e.g. item_push_key, po_push_key) or internal_job_key for internal-bookkeeping jobs."))
enqueue_keyed name now enqueue r tier (some key) =
    enqueue_row now enqueue tier (new_row name now r tier key)

enqueue_routed : String → ℕ → (RqCall → EnqueueReply) → Request → Option String → Enqueued
unfolding enqueue_keyed
enqueue_routed name now enqueue r none = nothing (
    append "Unknown job_type "
      (append (quoted r.job_type) ". Register it in QUEUE_FOR_JOB_TYPE first."))
enqueue_routed name now enqueue r (some tier) =
    enqueue_keyed name now enqueue r tier (given r.idempotency_key)

unfoldable pub enqueue_easyecom_job : String → ℕ → (RqCall → EnqueueReply) → Request → Enqueued
unfolding enqueue_routed
enqueue_easyecom_job name now enqueue r = enqueue_routed name now enqueue r (queue_for r.job_type)

unfoldable pub cancel_job : ℕ → String → Job → Job
unfolding cancel
cancel_job now reason j = cancel now reason j

-- The fields that `retry_job` resets.
abbrev pub reset_row : Job → Job
reset_row j = record j {
  state = queued;
  attempts = 0;
  next_attempt_at = none;
  last_error = none;
  completed_at = none;
}

retry_routed : ℕ → (RqCall → EnqueueReply) → Job → Option String → Enqueued
unfolding after_enqueue enqueue_error
retry_routed now enqueue j none =
    enqueue_error now retry_failed retry_advice "ValueError"
      (append "Unknown job_type "
        (append (quoted j.job_type) ". Register it in QUEUE_FOR_JOB_TYPE first."))
      j
retry_routed now enqueue j (some tier) =
    let call = task j tier (retry j.name now) in
    after_enqueue now retry_failed retry_advice call (enqueue call) j

-- The throw of a job that is neither Failed nor Cancelled is a foreign exception of Frappe.
unfoldable pub retry_job : ℕ → (RqCall → EnqueueReply) → Job → Enqueued
unfolding retry_routed tier_of
retry_job now enqueue j =
    if has_state j.state (failed ∷ cancelled ∷ [])
    then retry_routed now enqueue (reset_row j) (tier_of j)
    else record {
      row = some j;
      tasks = [];
      raised = some (foreign "ValidationError" "Only Failed or Cancelled jobs can be retried");
    }
