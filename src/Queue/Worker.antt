-- ===== src/Queue/Worker.antt =====
-- ecommerce_super/easyecom/queue/workers.py: one run of a job by an RQ worker.
-- The flow handlers, Frappe's enqueue, the clock and the random numbers are fields of `Env`.
pub mod Balance
pub mod Outcome
pub mod Retries
pub mod Success
pub mod Waits
pub mod Races
use ecommerce_super.Base.{
  ℕ, ◌+◌, String, Bool, true, false, Option, none, some, List, [], ◌∷◌, ◌++◌, ℤ, pos, ◌+ℤ◌, lookup,
  append, quoted, decimal, ltb, ◌==◌, if◌then◌else◌, ◌&&◌,
}
use ecommerce_super.Errors.{
  EasyError, ErrorClass, RetryPolicy, permanent, transient, error_code, retry_policy, is_instance,
  company_concurrency_exceeded, rate_limit_error,
}
use ecommerce_super.Queue.Job.{
  Job, cancelled, same_state, transition_to_running, transition_to_success, transition_to_failed,
  transition_to_retrying,
}
use ecommerce_super.Queue.Semaphore.{Slots, cap_for_company, acquire, release}
use ecommerce_super.Queue.Routing.{queue_for, timeout_for, max_attempts_for}
use ecommerce_super.Queue.Backoff.{compute_backoff}
use ecommerce_super.Queue.Rq.{attempt, RqCall, EnqueueReply, accepted, refused, Exc, ecs, foreign}

pub record Env : Type 0 where
  pub started : ℕ
  pub ended : ℕ
  pub running_job_id : Option String
  pub account_cap : Option (Option ℕ)
  pub handler : String → Job → Option Exc
  pub jitter : ℕ
  pub short_jitter : ℕ
  pub enqueue : RqCall → EnqueueReply

-- What a run reads and writes: the row, the company counters, the tasks that RQ accepted.
pub record Frame : Type 0 where
  pub job : Job
  pub slots : Slots
  pub sent : List RqCall

abbrev pub job_type_handlers : List (String × String)
job_type_handlers =
    ("Item Push", "ecommerce_super.easyecom.flows.item_push.item_push_queue_handler")
    ∷ ("Customer Push", "ecommerce_super.easyecom.flows.customer_push.customer_push_queue_handler")
    ∷ ("Supplier Push", "ecommerce_super.easyecom.flows.supplier_push.supplier_push_queue_handler")
    ∷ ("PO Push", "ecommerce_super.easyecom.flows.po_push.po_push_queue_handler")
    ∷ ("PO Status Push", "ecommerce_super.easyecom.flows.po_push.po_status_push_queue_handler")
    ∷ ("GRN Pull", "ecommerce_super.easyecom.flows.grn_pull.grn_pull_queue_handler")
    ∷ ("Transfer Push", "ecommerce_super.easyecom.flows.transfer_push.transfer_push_queue_handler")
    ∷ ("SO Push", "ecommerce_super.easyecom.flows.b2b_sales.push.b2b_push_queue_handler")
    ∷ []

-- `qj.queue_tier or queue_for(qj.job_type)`; `none` is the `ValueError` of `queue_for`.
unfoldable pub tier_of : Job → Option String
unfolding queue_for
tier_of j = elim j.queue_tier [ some tier ↦ some tier | none ↦ queue_for j.job_type ]

unfoldable pub enqueue_failed : Env → String → String → Frame → Frame × Option Exc
enqueue_failed env kind text f = (
  record f {
    job =
        transition_to_failed env.ended
          (append "_reenqueue: frappe.enqueue failed: " (
            append kind (
              append ": "
                (append text ". The reclaim scheduler will pick this up on its next run."))))
          (some "ECS_QJ_ENQUEUE_FAILED") f.job;
  },
  some (foreign kind text),
)

unfoldable pub with_rq_id : Option String → Job → Job
with_rq_id none j = j
with_rq_id (some id) j = record j { rq_job_id = some id }

unfoldable pub enqueue_reply : Env → RqCall → EnqueueReply → Frame → Frame × Option Exc
unfolding enqueue_failed with_rq_id
enqueue_reply env call (refused kind text) f = enqueue_failed env kind text f
enqueue_reply env call (accepted id) f =
    (record f { job = with_rq_id id f.job; sent = f.sent ++ (call ∷ []) }, none)

-- The call that `_reenqueue` hands to RQ for a given tier.
abbrev pub retry_call : Job → ℤ → String → RqCall
retry_call j delay tier = record {
  queue = tier;
  job_name = attempt j.name (j.attempts + 1);
  timeout = timeout_for j.job_type;
  enqueue_after = some delay;
  easyecom_queue_job = j.name;
}

unfoldable pub reenqueue_on : Env → ℤ → Frame → Option String → Frame × Option Exc
unfolding enqueue_failed enqueue_reply
reenqueue_on env delay f none =
    enqueue_failed env "ValueError"
      (append "Unknown job_type "
        (append (quoted f.job.job_type) ". Register it in QUEUE_FOR_JOB_TYPE first."))
      f
reenqueue_on env delay f (some tier) =
    let call = retry_call f.job delay tier in enqueue_reply env call (env.enqueue call) f

-- `_reenqueue`
unfoldable pub reenqueue : Env → ℤ → Frame → Frame × Option Exc
unfolding reenqueue_on tier_of
reenqueue env delay f = reenqueue_on env delay f (tier_of f.job)

-- `transition_to_retrying` and `_reenqueue` with the same delay.
unfoldable pub retry_later : Env → ℤ → EasyError → Frame → Frame × Option Exc
unfolding reenqueue
retry_later env delay e f = reenqueue env delay (record f {
  job = transition_to_retrying (pos env.ended +ℤ delay) e.message (some (error_code e.cls)) f.job;
})

-- `int(e.retry_after or 60)`
unfoldable pub rate_limit_delay : Option ℤ → ℤ
rate_limit_delay none = pos 60
rate_limit_delay (some (pos n)) = if n == 0 then pos 60 else pos n
rate_limit_delay (some d) = d

abbrev pub is_transient : RetryPolicy → Bool
is_transient transient = true
is_transient permanent = false

-- `qj.max_attempts or max_attempts_for(qj.job_type)`
unfoldable pub attempt_limit : Job → ℕ
attempt_limit j = if j.max_attempts == 0 then max_attempts_for j.job_type else j.max_attempts

-- The `except EasyEcomError` branch, by the answer to its test.
unfoldable pub settle_error : Env → EasyError → Frame → Bool → Frame × Option Exc
unfolding retry_later
settle_error env e f true = retry_later env (pos (compute_backoff env.jitter f.job.attempts)) e f
settle_error env e f false = (
  record f { job = transition_to_failed env.ended e.message (some (error_code e.cls)) f.job },
  none,
)

-- `e.retry_policy == "transient"` with attempts left
unfoldable pub may_retry : EasyError → Job → Bool
unfolding attempt_limit
may_retry e j = is_transient (retry_policy e.cls) && ltb j.attempts (attempt_limit j)

-- Which `except` clause takes an exception of the integration; the first that fits.
pub data Clause : Type 0 where
  concurrency rate_limit general : Clause

unfoldable pub clause_for : ErrorClass → Clause
clause_for c =
    if is_instance c company_concurrency_exceeded
    then concurrency
    else if is_instance c rate_limit_error
    then rate_limit
    else general

unfoldable pub settle_by : Clause → Env → EasyError → Frame → Frame × Option Exc
unfolding retry_later settle_error may_retry
settle_by concurrency env e f = retry_later env (pos (30 + env.short_jitter)) e f
settle_by rate_limit env e f = retry_later env (rate_limit_delay e.retry_after) e f
settle_by general env e f = settle_error env e f (may_retry e f.job)

-- How a run ends; `none` is a handler that returned.
unfoldable pub settle : Env → Option Exc → Frame → Frame × Option Exc
unfolding settle_by clause_for
settle env none f = (record f { job = transition_to_success env.ended f.job }, none)
settle env (some (ecs e)) f = settle_by (clause_for e.cls) env e f
settle env (some (foreign kind text)) f = (
  record f {
    job =
        transition_to_failed env.ended (append kind (append ": " text)) (some "ECS_UNEXPECTED")
          f.job;
  },
  some (foreign kind text),
)

-- The exception by which the semaphore refuses a slot.
abbrev pub at_cap : String → ℕ → EasyError
at_cap company cap = record {
  cls = company_concurrency_exceeded;
  message =
      append "Company "
        (append company (append " at concurrency cap (" (append (decimal cap) "); will retry.")));
  retry_after = none;
}

-- The handler under the semaphore: what it raised, and the counters after the `finally`.
unfoldable pub run_granted : Env → String → Frame → Slots × Bool → Frame × Option Exc
run_granted env path f (taken, true) =
    (record f { slots = release f.job.company taken }, env.handler path f.job)
run_granted env path f (taken, false) = (
  record f { slots = taken },
  some (ecs (at_cap f.job.company (cap_for_company env.account_cap))),
)

unfoldable pub run_handler : Env → String → Frame → Frame × Option Exc
unfolding run_granted
run_handler env path f =
    run_granted env path f (acquire (cap_for_company env.account_cap) f.job.company f.slots)

abbrev pub with_job : Frame → Job → Frame
with_job f j = record f { job = j }

abbrev pub begun : Env → Frame → Frame
begun env f = with_job f (transition_to_running env.started env.running_job_id f.job)

-- The body of the `try`, and the `except` clause that takes what it raised.
unfoldable pub run_registered : Env → String → Frame → Frame × Option Exc
unfolding run_handler settle transition_to_running
run_registered env path f =
    let (g, raised) = run_handler env path (begun env f) in settle env raised g

-- A row whose job type has no handler.
unfoldable pub no_handler : Env → Job → Job
no_handler env j =
    transition_to_failed env.ended
      (append "No handler registered for job_type " (
        append (quoted j.job_type)
          ". Add an entry to JOB_TYPE_HANDLERS in easyecom.queue.workers."))
      (some "ECS_QJ_NO_HANDLER") j

unfoldable pub dispatch : Env → Frame → Option String → Frame × Option Exc
unfolding run_registered no_handler
dispatch env f none = (with_job f (no_handler env f.job), none)
dispatch env f (some path) = run_registered env path f

unfoldable pub execute_job : Env → Frame → Frame × Option Exc
unfolding dispatch
execute_job env f =
    if same_state f.job.state cancelled
    then (f, none)
    else dispatch env f (lookup f.job.job_type job_type_handlers)
