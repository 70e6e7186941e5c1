-- ===== src/Queue/Worker/Outcome.antt =====
-- ecommerce_super/easyecom/queue/workers.py: how a run can end, on every branch of `execute_job`.
use ecommerce_super.Base.{
  ◌≡◌, ◌≢◌, ◌⊎◌, inl, inr, refl, String, Bool, true, false, Option, none, some, ℤ, pos, ◌+ℤ◌,
  lookup, [], ◌∷◌, ◌++◌,
}
use ecommerce_super.Queue.Job.{
  Job, JobState, retrying, success, failed, cancelled, same_state, transition_to_success,
  transition_to_failed, transition_to_retrying,
}
use ecommerce_super.Queue.Semaphore.{Slots, acquire, cap_for_company}
use ecommerce_super.Errors.{EasyError}
use ecommerce_super.Queue.Rq.{EnqueueReply, accepted, refused, Exc, ecs, foreign}
use ecommerce_super.Queue.Worker.{
  Env, Frame, Clause, concurrency, rate_limit, general, enqueue_reply, reenqueue_on, reenqueue,
  retry_later, retry_call, settle_error, settle_by, may_retry, clause_for, settle, run_granted,
  run_registered, execute_job, job_type_handlers, dispatch, tier_of, begun, enqueue_failed,
  with_rq_id,
}

-- What a run leaves alone in the row, and the attempts.
abbrev pub SameWork : Job → Job → Type 0
SameWork a b =
    (b.name ≡ a.name)
    × (b.company ≡ a.company)
    × (b.job_type ≡ a.job_type)
    × (b.max_attempts ≡ a.max_attempts)
    × (b.idempotency_key ≡ a.idempotency_key)
    × (b.attempts ≡ a.attempts)

-- How the frame `g` after a run relates to the frame `f` of the started job: the job is over and RQ
-- got nothing, or the job waits and RQ holds one task for it, with the delay of the row.
pub data Ended (env : Env) (f g : Frame) : Type 0 where
  finished :
      (g.job.state ≡ success) ⊎ (g.job.state ≡ failed)
      → g.sent ≡ f.sent
      → SameWork f.job g.job
      → Ended env f g
  rearmed :
      (delay : ℤ) (tier : String)
      → g.job.state ≡ retrying
      → g.job.next_attempt_at ≡ some (pos env.ended +ℤ delay)
      → g.sent ≡ f.sent ++ (retry_call f.job delay tier ∷ [])
      → SameWork f.job g.job
      → Ended env f g

enqueue_reply-Ended :
    (env : Env) (f : Frame) (d : ℤ) (tier text : String) (key : Option String) (r : EnqueueReply)
    → Ended env f
        (enqueue_reply env
          (retry_call f.job d tier)
          r
          (record f { job = transition_to_retrying (pos env.ended +ℤ d) text key f.job })).0
unfolding enqueue_reply transition_to_retrying transition_to_failed enqueue_failed with_rq_id
enqueue_reply-Ended env f d tier text key (accepted none) =
    rearmed d tier refl refl refl (refl, refl, refl, refl, refl, refl)
enqueue_reply-Ended env f d tier text key (accepted (some id)) =
    rearmed d tier refl refl refl (refl, refl, refl, refl, refl, refl)
enqueue_reply-Ended env f d tier text key (refused k t) =
    finished (inr refl) refl (refl, refl, refl, refl, refl, refl)

pub reenqueue_on-Ended :
    (env : Env) (f : Frame) (d : ℤ) (text : String) (key : Option String) (tier : Option String)
    → Ended env f
        (reenqueue_on env d
          (record f { job = transition_to_retrying (pos env.ended +ℤ d) text key f.job })
          tier).0
unfolding reenqueue_on transition_to_retrying transition_to_failed
reenqueue_on-Ended env f d text key none =
    finished (inr refl) refl (refl, refl, refl, refl, refl, refl)
reenqueue_on-Ended env f d text key (some tier) =
    enqueue_reply-Ended env f d tier text key (env.enqueue (retry_call f.job d tier))

retry_later-Ended :
    (env : Env) (d : ℤ) (e : EasyError) (f : Frame) → Ended env f (retry_later env d e f).0
unfolding retry_later reenqueue transition_to_retrying
retry_later-Ended env d e f = reenqueue_on-Ended env f d e.message _ (tier_of f.job)

settle_error-Ended :
    (env : Env) (e : EasyError) (f : Frame) (b : Bool) → Ended env f (settle_error env e f b).0
unfolding settle_error transition_to_failed
settle_error-Ended env e f true = retry_later-Ended env _ e f
settle_error-Ended env e f false = finished (inr refl) refl (refl, refl, refl, refl, refl, refl)

settle_by-Ended :
    (c : Clause) (env : Env) (e : EasyError) (f : Frame) → Ended env f (settle_by c env e f).0
unfolding settle_by
settle_by-Ended concurrency env e f = retry_later-Ended env _ e f
settle_by-Ended rate_limit env e f = retry_later-Ended env _ e f
settle_by-Ended general env e f = settle_error-Ended env e f (may_retry e f.job)

-- However the handler ended, the row is Success, Failed, or Retrying with one task in RQ.
pub settle-Ended : (env : Env) (r : Option Exc) (f : Frame) → Ended env f (settle env r f).0
unfolding settle transition_to_success transition_to_failed
settle-Ended env none f = finished (inl refl) refl (refl, refl, refl, refl, refl, refl)
settle-Ended env (some (ecs e)) f = settle_by-Ended (clause_for e.cls) env e f
settle-Ended env (some (foreign k t)) f =
    finished (inr refl) refl (refl, refl, refl, refl, refl, refl)

-- `Ended` speaks of the counters nowhere, so it may start from another frame of the same job.
Ended-slots :
    (env : Env) (f g : Frame) (slots : Slots)
    → Ended env (record f { slots = slots }) g
    → Ended env f g
Ended-slots env f g slots (finished s e a) = finished s e a
Ended-slots env f g slots (rearmed d tier s n e a) = rearmed d tier s n e a

run_granted-Ended :
    (env : Env) (path : String) (f : Frame) (a : Slots × Bool)
    → let (g, raised) = run_granted env path f a in Ended env f (settle env raised g).0
unfolding run_granted
run_granted-Ended env path f (taken, true) = Ended-slots env f _ _ (settle-Ended env _ _)
run_granted-Ended env path f (taken, false) = Ended-slots env f _ _ (settle-Ended env _ _)

run_registered-Ended :
    (env : Env) (path : String) (f : Frame) → Ended env (begun env f) (run_registered env path f).0
unfolding run_registered
run_registered-Ended env path f =
    run_granted-Ended env path (begun env f)
      (acquire (cap_for_company env.account_cap) f.job.company f.slots)

not_cancelled : (s : JobState) → s ≢ cancelled → same_state s cancelled ≡ false
not_cancelled cancelled h = absurd (h refl)
not_cancelled _ h = refl

pub execute_job-registered :
    (env : Env) (f : Frame) (path : String)
    → f.job.state ≢ cancelled
    → lookup f.job.job_type job_type_handlers ≡ some path
    → execute_job env f ≡ run_registered env path f
unfolding execute_job dispatch
execute_job-registered env f path h e = rw (not_cancelled f.job.state h, e)

-- A run of a job that is not cancelled and whose type has a handler counts one attempt and keeps
-- the rest of the row's work, whatever the handler, the semaphore and RQ do. It leaves the job
-- Success or Failed and hands RQ nothing, or leaves it Retrying and hands RQ exactly one task, with
-- the delay at which the row says the next attempt is due.
pub execute_job-Ended :
    (env : Env) (f : Frame) (path : String)
    → f.job.state ≢ cancelled
    → lookup f.job.job_type job_type_handlers ≡ some path
    → Ended env (begun env f) (execute_job env f).0
execute_job-Ended env f path h e =
    rw (execute_job-registered env f path h e) (run_registered-Ended env path f)
