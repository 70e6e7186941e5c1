-- ===== src/Queue/Worker/Balance.antt =====
-- ecommerce_super/easyecom/queue/workers.py: a run gives back the slot that it took.
use ecommerce_super.Base.{
  ◌≡◌, refl, String, Bool, true, false, Option, none, some, inl, inr, Bool-cases, ◌∙◌, ℤ, lookup,
  ap,
}
use ecommerce_super.Queue.Job.{cancelled, same_state}
use ecommerce_super.Queue.Semaphore.{acquire, Slots, release, cap_for_company}
use ecommerce_super.Queue.Semaphore.Slot.{acquire-refused, release-acquire}
use ecommerce_super.Errors.{EasyError}
use ecommerce_super.Queue.Rq.{EnqueueReply, accepted, refused, RqCall, Exc, ecs, foreign}
use ecommerce_super.Queue.Worker.{
  begun, Env, Frame, Clause, concurrency, rate_limit, general, enqueue_reply, reenqueue_on,
  reenqueue, retry_later, retry_call, settle_error, settle_by, may_retry, clause_for, settle,
  run_granted, run_handler, run_registered, execute_job, job_type_handlers, dispatch,
}

slots-enqueue_reply :
    (env : Env) (call : RqCall) (r : EnqueueReply) (f : Frame)
    → (enqueue_reply env call r f).0.slots ≡ f.slots
unfolding enqueue_reply
slots-enqueue_reply env call (accepted id) f = refl
slots-enqueue_reply env call (refused k t) f = refl

slots-reenqueue_on :
    (env : Env) (d : ℤ) (f : Frame) (tier : Option String)
    → (reenqueue_on env d f tier).0.slots ≡ f.slots
unfolding reenqueue_on
slots-reenqueue_on env d f none = refl
slots-reenqueue_on env d f (some t) =
    slots-enqueue_reply env (retry_call f.job d t) (env.enqueue (retry_call f.job d t)) f

slots-retry_later :
    (env : Env) (d : ℤ) (e : EasyError) (f : Frame) → (retry_later env d e f).0.slots ≡ f.slots
unfolding retry_later reenqueue
slots-retry_later env d e f = slots-reenqueue_on env d _ _

slots-settle_error :
    (env : Env) (e : EasyError) (f : Frame) (b : Bool) → (settle_error env e f b).0.slots ≡ f.slots
unfolding settle_error
slots-settle_error env e f true = slots-retry_later env _ e f
slots-settle_error env e f false = refl

slots-settle_by :
    (c : Clause) (env : Env) (e : EasyError) (f : Frame) → (settle_by c env e f).0.slots ≡ f.slots
unfolding settle_by
slots-settle_by concurrency env e f = slots-retry_later env _ e f
slots-settle_by rate_limit env e f = slots-retry_later env _ e f
slots-settle_by general env e f = slots-settle_error env e f (may_retry e f.job)

slots-settle : (env : Env) (r : Option Exc) (f : Frame) → (settle env r f).0.slots ≡ f.slots
unfolding settle
slots-settle env none f = refl
slots-settle env (some (ecs e)) f = slots-settle_by (clause_for e.cls) env e f
slots-settle env (some (foreign k t)) f = refl

slots-run_granted :
    (env : Env) (path : String) (f : Frame) (a : Slots × Bool) (c : String)
    → (a.1 ≡ true → release f.job.company a.0 c ≡ f.slots c)
    → (a.1 ≡ false → a.0 c ≡ f.slots c)
    → (run_granted env path f a).0.slots c ≡ f.slots c
unfolding run_granted
slots-run_granted env path f (taken, true) c given held = given refl
slots-run_granted env path f (taken, false) c given held = held refl

slots-run_registered :
    (env : Env) (path : String) (f : Frame) (c : String)
    → (run_registered env path f).0.slots c ≡ f.slots c
unfolding run_registered run_handler
slots-run_registered env path f c =
    let g = begun env f in
    let o = run_handler env path g in
    ap (λ (s : Slots). s c) (slots-settle env o.1 o.0)
    ∙ slots-run_granted env path g (acquire (cap_for_company env.account_cap) f.job.company f.slots)
        c (release-acquire (cap_for_company env.account_cap) f.job.company f.slots c)
        (acquire-refused (cap_for_company env.account_cap) f.job.company f.slots c)

slots-dispatch :
    (env : Env) (f : Frame) (h : Option String) (c : String)
    → (dispatch env f h).0.slots c ≡ f.slots c
unfolding dispatch
slots-dispatch env f none c = refl
slots-dispatch env f (some path) c = slots-run_registered env path f c

-- Whatever the handler does, and whether or not the slot or the re-enqueue was refused, a run
-- leaves the counter of every company as it found it.
pub execute_job-slots :
    (env : Env) (f : Frame) (c : String) → (execute_job env f).0.slots c ≡ f.slots c
unfolding execute_job
execute_job-slots env f c = elim (Bool-cases (same_state f.job.state cancelled)) [
  | inl e ↦ rw e refl
  | inr e ↦ rw e (slots-dispatch env f (lookup f.job.job_type job_type_handlers) c)
]
