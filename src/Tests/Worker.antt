-- ===== src/Tests/Worker.antt =====
-- ecommerce_super/easyecom/queue/workers.py: tests of a run.
use ecommerce_super.Base.{
  ◌+◌, ◌-◌, ◌≤◌, ◌≡◌, refl, ◌≢◌, ◌↔◌, true, false, none, some, [], ◌∷◌, arith, str_eq,
  if◌then◌else◌, length, pos, ◌+ℤ◌,
}
use ecommerce_super.Errors.{EasyError, server_error}
use ecommerce_super.Queue.Job.{
  Job, JobState, queued, running, retrying, success, partial, failed, cancelled, cancel, validate,
  stamped, has_state, transition_to_running, transition_to_failed,
}
use ecommerce_super.Queue.Backoff.{compute_backoff}
use ecommerce_super.Queue.Semaphore.{Slots, acquire, incr, decr, over_cap, release_slot}
use ecommerce_super.Queue.Rq.{accepted, ecs}
use ecommerce_super.Queue.Worker.{
  Env, Frame, execute_job, begun, settle, with_job, attempt_limit, clause_for,
}
use ecommerce_super.Queue.Worker.Balance.{execute_job-slots}
use ecommerce_super.Queue.Worker.Outcome.{Ended, execute_job-Ended}
use ecommerce_super.Queue.Worker.Retries.{FailsPlainly, runs, retries_end, retries_bounded}
use ecommerce_super.Queue.Semaphore.{cap_for_company}
use ecommerce_super.Queue.Worker.Success.{execute_job_success}
use ecommerce_super.Queue.Worker.Waits.{waits_use_attempts}
use ecommerce_super.Queue.Worker.Races.{settle-cancel}

abbrev pub item_push : Job
item_push = record {
  name = "QJ-1";
  company = "Acme";
  job_type = "Item Push";
  queue_tier = some "default";
  target_name = some "ITEM-1";
  idempotency_key = "k1";
  state = queued;
  attempts = 0;
  max_attempts = 3;
  created_at = some 100;
  last_attempted_at = none;
  next_attempt_at = none;
  completed_at = none;
  last_error = none;
  last_error_translation_key = none;
  rq_job_id = none;
  succeeded_count = 0;
  failed_count = 0;
}

abbrev pub no_slots : Slots
no_slots c = pos 0

abbrev pub frame : Frame
frame = record { job = item_push; slots = no_slots; sent = [] }

abbrev pub server_down : EasyError
server_down = record { cls = server_error; message = "HTTP 503"; retry_after = none }

abbrev pub failing_env : Env
failing_env = record {
  started = 1000;
  ended = 1010;
  running_job_id = some "rq-1";
  account_cap = some (some 4);
  handler = λ path j. some (ecs server_down);
  jitter = 7;
  short_jitter = 3;
  enqueue = λ call. accepted (some "rq-2");
}

-- The first run of a failing job waits 30 * 2 + 7 seconds from its end.
first_run_waits :
    let j = (execute_job failing_env frame).0.job in
    (j.state ≡ retrying) × (j.attempts ≡ 1) × (j.next_attempt_at ≡ some (pos 1077))
unfolding execute_job transition_to_running over_cap incr decr acquire
    ecommerce_super.Queue.Semaphore.slot_answer ecommerce_super.Queue.Semaphore.cap_for_company ◌+ℤ◌
    ecommerce_super.Errors.is_instance ecommerce_super.Errors.retry_policy
    ecommerce_super.Queue.Job.transition_to_retrying compute_backoff
first_run_waits = (refl, refl, refl)

execute_job-Ended_example :
    Ended failing_env (begun failing_env frame) (execute_job failing_env frame).0
execute_job-Ended_example =
    execute_job-Ended failing_env frame
      "ecommerce_super.easyecom.flows.item_push.item_push_queue_handler" (λ e. cc) refl

execute_job-slots_example : (execute_job failing_env frame).0.slots "Acme" ≡ pos 0
execute_job-slots_example = execute_job-slots failing_env frame "Acme"

fails :
    FailsPlainly failing_env frame
      "ecommerce_super.easyecom.flows.item_push.item_push_queue_handler"
unfolding acquire over_cap incr clause_for ecommerce_super.Errors.is_instance
    ecommerce_super.Queue.Semaphore.slot_answer ecommerce_super.Queue.Semaphore.cap_for_company ◌+ℤ◌
fails = record {
  error = server_down;
  raises = λ j. refl;
  plain = refl;
  free = refl;
  registered = refl;
  live = λ e. cc;
}

retries_end_example : (runs (failing_env ∷ failing_env ∷ failing_env ∷ []) frame).job.state ≡ failed
unfolding attempt_limit
retries_end_example =
    retries_end failing_env (failing_env ∷ failing_env ∷ []) frame
      "ecommerce_super.easyecom.flows.item_push.item_push_queue_handler"
      (fails, (fails, (fails, tt))) (omega arith)

retries_bounded_example :
    length (runs (failing_env ∷ failing_env ∷ []) frame).sent
    ≤ length frame.sent + (attempt_limit frame.job - (frame.job.attempts + 1))
retries_bounded_example =
    retries_bounded (failing_env ∷ failing_env ∷ []) frame
      "ecommerce_super.easyecom.flows.item_push.item_push_queue_handler" (fails, (fails, tt))

abbrev running_frame : Frame
running_frame = record frame { job = record item_push { state = running; attempts = 1 } }

settle-cancel_example :
    ((with_job running_frame (cancel 1005 "stop" running_frame.job)).job.state ≡ cancelled)
    × ((settle failing_env none
          (with_job running_frame (cancel 1005 "stop" running_frame.job))).0.job.state
        ≢ cancelled)
settle-cancel_example = settle-cancel failing_env none running_frame 1005 "stop" refl

abbrev working_env : Env
working_env = record failing_env { handler = λ path j. none }

execute_job_success_example : ((execute_job working_env frame).0.job.state ≡ success) ↔ (
    ((acquire (cap_for_company (some (some 4))) "Acme" no_slots).1 ≡ true)
    × (working_env.handler "ecommerce_super.easyecom.flows.item_push.item_push_queue_handler"
          (begun working_env frame).job
        ≡ none))
unfolding ecommerce_super.Queue.Job.transition_to_running
execute_job_success_example =
    execute_job_success working_env frame
      "ecommerce_super.easyecom.flows.item_push.item_push_queue_handler" (λ e. cc) refl

abbrev pub held : Slots
held c = if str_eq c "Acme" then pos 1 else pos 0

-- A worker for which the company is at its cap of one.
abbrev waiting_env : Env
waiting_env = record failing_env { account_cap = some (some 1) }

abbrev busy_frame : Frame
busy_frame = record frame { slots = held }

slot_refused : (acquire 1 "Acme" held).1 ≡ false
unfolding acquire ecommerce_super.Queue.Semaphore.slot_answer over_cap incr ◌+ℤ◌
slot_refused = refl

fails_later :
    FailsPlainly failing_env busy_frame
      "ecommerce_super.easyecom.flows.item_push.item_push_queue_handler"
unfolding acquire fails
fails_later = record {
  error = server_down;
  raises = λ j. refl;
  plain = fails.plain;
  free = refl;
  registered = refl;
  live = λ e. cc;
}

waits_use_attempts_example :
    ((runs (waiting_env ∷ waiting_env ∷ []) busy_frame).job.attempts ≡ 0 + 2)
    × ((execute_job failing_env (runs (waiting_env ∷ waiting_env ∷ []) busy_frame)).0.job.state
        ≡ failed)
    × ((execute_job failing_env (runs (waiting_env ∷ waiting_env ∷ []) busy_frame)).0.sent
        ≡ (runs (waiting_env ∷ waiting_env ∷ []) busy_frame).sent)
unfolding attempt_limit
waits_use_attempts_example =
    waits_use_attempts (waiting_env ∷ waiting_env ∷ []) failing_env busy_frame
      "ecommerce_super.easyecom.flows.item_push.item_push_queue_handler" fails_later (omega arith)
