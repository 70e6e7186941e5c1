-- ===== src/Queue/Worker/Retries.antt =====
-- ecommerce_super/easyecom/queue/workers.py: how often a failing job is run again.
use mathlib.Core.Path.{fun_ext}
use native.Mathlib.Decide.{dec_le}
use ecommerce_super.Base.{
  ℕ, ◌+◌, ◌-◌, ◌≤◌, String, ◌≡◌, refl, ap, ◌∙◌, ◌≢◌, inl, inr, Bool, true, false, some, List, [],
  ◌∷◌, arith, length, length-append, lookup,
}
use ecommerce_super.Queue.Job.{failed, transition_to_running, transition_to_failed, Job, cancelled}
use ecommerce_super.Queue.Semaphore.{Slots, acquire, release, cap_for_company}
use ecommerce_super.Errors.{EasyError}
use ecommerce_super.Queue.Rq.{RqCall, ecs}
use ecommerce_super.Queue.Worker.Balance.{execute_job-slots}
use ecommerce_super.Queue.Worker.{
  with_job, Env, Frame, general, settle_error, may_retry, clause_for, settle_by, settle,
  run_granted, run_handler, run_registered, execute_job, job_type_handlers, begun, attempt_limit,
}
use ecommerce_super.Queue.Worker.Outcome.{
  execute_job-Ended, Ended, finished, rearmed, SameWork, execute_job-registered,
}

-- The handler always raises an error of the integration that is neither a refused slot nor a rate
-- limit, and the company has a free slot.
pub record FailsPlainly (env : Env) (f : Frame) (path : String) : Type 0 where
  pub error : EasyError
  pub raises : (j : Job) → env.handler path j ≡ some (ecs error)
  pub plain : clause_for error.cls ≡ general
  pub free : (acquire (cap_for_company env.account_cap) f.job.company f.slots).1 ≡ true
  pub registered : lookup f.job.job_type job_type_handlers ≡ some path
  pub live : f.job.state ≢ cancelled

run_granted-raises :
    (env : Env) (path : String) (f : Frame) (a : Slots × Bool) (e : EasyError)
    → a.1 ≡ true
    → env.handler path f.job ≡ some (ecs e)
    → clause_for e.cls ≡ general
    → let (g, raised) = run_granted env path f a in
      settle env raised g
      ≡ settle_error env e (record f { slots = release f.job.company a.0 }) (may_retry e f.job)
unfolding run_granted settle settle_by
run_granted-raises env path f (taken, true) e g r p = rw (r, p)
run_granted-raises env path f (taken, false) e g r p = cc

-- The frame in which the `except EasyEcomError` branch finds a failing run.
abbrev failing : Env → Frame → Frame
failing env f = record (begun env f) {
  slots = release f.job.company (acquire (cap_for_company env.account_cap) f.job.company f.slots).0;
}

execute_job-failing :
    (env : Env) (f : Frame) (path : String) (h : FailsPlainly env f path)
    → execute_job env f
      ≡ settle_error env h.error (failing env f) (may_retry h.error (begun env f).job)
unfolding run_registered run_handler
execute_job-failing env f path h =
    execute_job-registered env f path h.live h.registered
    ∙ run_granted-raises env path (begun env f)
        (acquire (cap_for_company env.account_cap) f.job.company f.slots) h.error h.free
        (h.raises (begun env f).job) h.plain

-- Without attempts left the branch fails the job and hands nothing to RQ.
may_retry_spent : (e : EasyError) (j : Job) → attempt_limit j ≤ j.attempts → may_retry e j ≡ false
unfolding may_retry
may_retry_spent e j h = ground arith

-- What holds of the row after a run, as far as the next run looks at it.
pub record Continues (f g : Frame) : Type 0 where
  pub work : SameWork f.job g.job
  pub slots : g.slots ≡ f.slots
  pub live : g.job.state ≢ cancelled

abbrev pub counted : Job → Job
counted j = record j { attempts = j.attempts + 1 }

Ended-work :
    {env : Env} {f g : Frame} → Ended env f g → SameWork f.job g.job × (g.job.state ≢ cancelled)
Ended-work (finished (inl s) q w) = (w, λ e. cc)
Ended-work (finished (inr s) q w) = (w, λ e. cc)
Ended-work (rearmed d tier s n q w) = (w, λ e. cc)

pub run-Continues :
    (env : Env) (f : Frame) (path : String)
    → f.job.state ≢ cancelled
    → lookup f.job.job_type job_type_handlers ≡ some path
    → Continues (with_job f (counted f.job)) (execute_job env f).0
unfolding transition_to_running
run-Continues env f path live registered =
    let e = Ended-work (execute_job-Ended env f path live registered) in
    record { work = e.0; slots = fun_ext (execute_job-slots env f); live = e.1 }

continues :
    (env : Env) (f : Frame) (path : String)
    → FailsPlainly env f path
    → Continues (with_job f (counted f.job)) (execute_job env f).0
continues env f path h = run-Continues env f path h.live h.registered

pub FailsPlainly-next :
    (env : Env) (f g : Frame) (path : String) {n : ℕ}
    → Continues (with_job f (record f.job { attempts = n })) g
    → FailsPlainly env f path
    → FailsPlainly env g path
FailsPlainly-next env f g path c h = record {
  error = h.error;
  raises = h.raises;
  plain = h.plain;
  free = rw (c.work.1, c.slots) h.free;
  registered = rw c.work.2 h.registered;
  live = c.live;
}

-- Runs of one job, each in a world of its own, one after the other.
unfoldable pub runs : List Env → Frame → Frame
runs [] f = f
runs (env ∷ envs) f = runs envs (execute_job env f).0

abbrev pub AllFail : List Env → Frame → String → Type 0
AllFail [] f path = Unit
AllFail (env ∷ envs) f path = FailsPlainly env f path × AllFail envs f path

AllFail-next :
    (envs : List Env) (f g : Frame) (path : String)
    → Continues (with_job f (counted f.job)) g
    → AllFail envs f path
    → AllFail envs g path
AllFail-next [] f g path c h = tt
AllFail-next (env ∷ envs) f g path c h =
    (FailsPlainly-next env f g path c h.0, AllFail-next envs f g path c h.1)

pub attempt_limit-next :
    (f g : Frame) {n : ℕ}
    → Continues (with_job f (record f.job { attempts = n })) g
    → attempt_limit g.job ≡ attempt_limit f.job
unfolding attempt_limit
attempt_limit-next f g c = rw (c.work.2, c.work.3)

pub exhausted :
    (env : Env) (f : Frame) (path : String) (h : FailsPlainly env f path)
    → attempt_limit f.job ≤ f.job.attempts + 1
    → ((execute_job env f).0.job.state ≡ failed) × ((execute_job env f).0.sent ≡ f.sent)
unfolding settle_error transition_to_failed transition_to_running attempt_limit
exhausted env f path h full =
    rw (execute_job-failing env f path h)
      (rw (may_retry_spent h.error (begun env f).job full, settle_error) (refl, refl))

-- A job that keeps failing is Failed by the run that uses up its attempts, and by every later one.
-- It keeps failing where every run finds a free slot and a handler that raises an error of the
-- integration, transient or not, other than a rate limit or a concurrency refusal.
pub retries_end :
    (env : Env) (envs : List Env) (f : Frame) (path : String)
    → AllFail (env ∷ envs) f path
    → attempt_limit f.job ≤ f.job.attempts + length (env ∷ envs)
    → (runs (env ∷ envs) f).job.state ≡ failed
unfolding runs
retries_end env [] f path h full = (exhausted env f path h.0 (omega arith)).0
retries_end env (e ∷ envs) f path h full =
    let g = (execute_job env f).0 in
    let c = continues env f path h.0 in
    retries_end e envs g path (AllFail-next (e ∷ envs) f g path c h.1)
      (omega (arith, attempt_limit-next f g c, c.work.5))

sent-step :
    (env : Env) (f : Frame) (path : String) (h : FailsPlainly env f path)
    → length (execute_job env f).0.sent ≤ length f.sent + 1
sent-step env f path h = go (execute_job-Ended env f path h.live h.registered)
  where
    go : {g : Frame} → Ended env (begun env f) g → length g.sent ≤ length f.sent + 1
    go (finished s q w) = rw q (omega arith)
    go (rearmed d tier s n q w) = rw q (rw (length-append f.sent _) (omega arith))

-- While a job keeps failing in the sense of `retries_end`, RQ gets at most one task for each
-- attempt that is left after the first run, however often the job is run.
pub retries_bounded :
    (envs : List Env) (f : Frame) (path : String)
    → AllFail envs f path
    → length (runs envs f).sent ≤ length f.sent + (attempt_limit f.job - (f.job.attempts + 1))
unfolding runs
retries_bounded [] f path h = omega arith
retries_bounded (env ∷ envs) f path h =
    let g = (execute_job env f).0 in
    let c = continues env f path h.0 in
    let rest = retries_bounded envs g path (AllFail-next envs f g path c h.1) in
    elim (dec_le (attempt_limit f.job) (f.job.attempts + 1)) [
      | yes full ↦ omega (
        arith,
        rest,
        attempt_limit-next f g c,
        c.work.5,
        ap (length {A = RqCall}) (exhausted env f path h.0 full).1,
      )
      | no more ↦ omega (arith, rest, attempt_limit-next f g c, c.work.5, sent-step env f path h.0)
    ]
