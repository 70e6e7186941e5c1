-- ===== src/Queue/Worker/Success.antt =====
-- ecommerce_super/easyecom/queue/workers.py: when a run ends in Success.
use ecommerce_super.Base.{
  String, ◌≡◌, refl, ◌≢◌, ◌↔◌, ◌⊎◌, inl, inr, Bool, true, false, Option, none, some, lookup, ℤ,
}
use ecommerce_super.Errors.{EasyError}
use ecommerce_super.Queue.Job.{
  JobState, success, failed, retrying, cancelled, transition_to_success, transition_to_failed,
  transition_to_retrying,
}
use ecommerce_super.Queue.Semaphore.{Slots, acquire, cap_for_company}
use ecommerce_super.Queue.Rq.{RqCall, EnqueueReply, accepted, refused, Exc, ecs, foreign}
use ecommerce_super.Queue.Worker.{
  Env, Frame, job_type_handlers, enqueue_failed, with_rq_id, enqueue_reply, retry_call,
  reenqueue_on, reenqueue, retry_later, settle_error, may_retry, Clause, concurrency, rate_limit,
  general, settle_by, clause_for, settle, run_granted, run_handler, begun, run_registered,
  execute_job,
}
use ecommerce_super.Queue.Worker.Outcome.{execute_job-registered}

-- Waiting for another run, or over without success.
abbrev Missed : JobState → Type 0
Missed s = (s ≡ retrying) ⊎ (s ≡ failed)

reply-Missed :
    (env : Env) (call : RqCall) (r : EnqueueReply) (f : Frame)
    → f.job.state ≡ retrying
    → Missed (enqueue_reply env call r f).0.job.state
unfolding enqueue_reply with_rq_id enqueue_failed transition_to_failed
reply-Missed env call (accepted none) f h = inl h
reply-Missed env call (accepted (some id)) f h = inl h
reply-Missed env call (refused k t) f h = inr refl

tier-Missed :
    (env : Env) (delay : ℤ) (f : Frame) (tier : Option String)
    → f.job.state ≡ retrying
    → Missed (reenqueue_on env delay f tier).0.job.state
unfolding reenqueue_on enqueue_failed transition_to_failed
tier-Missed env delay f none h = inr refl
tier-Missed env delay f (some tier) h =
    let call = retry_call f.job delay tier in reply-Missed env call (env.enqueue call) f h

later-Missed :
    (env : Env) (delay : ℤ) (e : EasyError) (f : Frame)
    → Missed (retry_later env delay e f).0.job.state
unfolding retry_later reenqueue transition_to_retrying
later-Missed env delay e f = tier-Missed env delay _ _ refl

error-Missed :
    (env : Env) (e : EasyError) (f : Frame) (again : Bool)
    → Missed (settle_error env e f again).0.job.state
unfolding settle_error transition_to_failed
error-Missed env e f true = later-Missed env _ e f
error-Missed env e f false = inr refl

clause-Missed :
    (c : Clause) (env : Env) (e : EasyError) (f : Frame) → Missed (settle_by c env e f).0.job.state
unfolding settle_by
clause-Missed concurrency env e f = later-Missed env _ e f
clause-Missed rate_limit env e f = later-Missed env _ e f
clause-Missed general env e f = error-Missed env e f (may_retry e f.job)

exception-Missed : (env : Env) (e : Exc) (f : Frame) → Missed (settle env (some e) f).0.job.state
unfolding settle transition_to_failed
exception-Missed env (ecs e) f = clause-Missed (clause_for e.cls) env e f
exception-Missed env (foreign k t) f = inr refl

Missed-success : {s : JobState} → Missed s → s ≢ success
Missed-success (inl h) e = cc
Missed-success (inr h) e = cc

handled_success :
    (env : Env) (f : Frame) (o : Option Exc) → ((settle env o f).0.job.state ≡ success) ↔ (o ≡ none)
unfolding settle transition_to_success
handled_success env f none = (λ e. refl, λ e. refl)
handled_success env f (some x) =
    (λ e. absurd (Missed-success (exception-Missed env x f) e), λ e. absurd (cc e))

granted_success :
    (env : Env) (path : String) (f : Frame) (a : Slots × Bool)
    → ((settle env (run_granted env path f a).1 (run_granted env path f a).0).0.job.state ≡ success)
      ↔ ((a.1 ≡ true) × (env.handler path f.job ≡ none))
unfolding run_granted
granted_success env path f (taken, true) =
    let (to, from) = handled_success env _ (env.handler path f.job) in
    (λ e. (refl, to e), λ h. from h.1)
granted_success env path f (taken, false) =
    (λ e. absurd (Missed-success (exception-Missed env _ _) e), λ h. absurd (cc h.0))

-- A run of a job that is not cancelled and whose type has a handler ends in Success exactly if the
-- company had a free slot and the handler returned.
pub execute_job_success :
    (env : Env) (f : Frame) (path : String)
    → f.job.state ≢ cancelled
    → lookup f.job.job_type job_type_handlers ≡ some path
    → ((execute_job env f).0.job.state ≡ success) ↔ (
        ((acquire (cap_for_company env.account_cap) (begun env f).job.company f.slots).1 ≡ true)
        × (env.handler path (begun env f).job ≡ none))
unfolding run_registered run_handler
execute_job_success env f path h e = rw (execute_job-registered env f path h e) (
    granted_success env path (begun env f)
      (acquire (cap_for_company env.account_cap) (begun env f).job.company f.slots))
