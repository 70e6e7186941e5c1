-- ===== src/Queue/Worker/Waits.antt =====
-- ecommerce_super/easyecom/queue/workers.py: what a run costs that found no free slot.
use ecommerce_super.Base.{
  ◌+◌, ◌≤◌, String, ◌≡◌, refl, ◌∙◌, ◌≢◌, some, List, [], ◌∷◌, arith, length, lookup,
}
use ecommerce_super.Queue.Job.{cancelled, failed}
use ecommerce_super.Queue.Worker.{
  Env, Frame, execute_job, job_type_handlers, with_job, attempt_limit,
}
use ecommerce_super.Queue.Worker.Retries.{
  Continues, run-Continues, FailsPlainly, FailsPlainly-next, attempt_limit-next, exhausted, runs,
}

runs-Continues :
    (envs : List Env) (f : Frame) (path : String)
    → f.job.state ≢ cancelled
    → lookup f.job.job_type job_type_handlers ≡ some path
    → Continues
        (with_job f (record f.job { attempts = f.job.attempts + length envs }))
        (runs envs f)
unfolding runs
runs-Continues [] f path live registered = record {
  work = (refl, refl, refl, refl, refl, omega arith);
  slots = refl;
  live = live;
}
runs-Continues (env ∷ envs) f path live registered =
    let g = (execute_job env f).0 in
    let c = run-Continues env f path live registered in
    let r = runs-Continues envs g path c.live (rw c.work.2 registered) in
    let attempts = r.work.5 in
    let counted = c.work.5 in
    record {
      work = (
        r.work.0 ∙ c.work.0,
        r.work.1 ∙ c.work.1,
        r.work.2 ∙ c.work.2,
        r.work.3 ∙ c.work.3,
        r.work.4 ∙ c.work.4,
        omega (arith, attempts, counted),
      );
      slots = r.slots ∙ c.slots;
      live = r.live;
    }

-- Every run of a live job whose type has a handler counts an attempt, one that only waits for a slot
-- included: after runs that leave one attempt at most, whatever came of them, the first plain failure
-- makes the job Failed and hands RQ nothing.
pub waits_use_attempts :
    (envs : List Env) (env : Env) (f : Frame) (path : String)
    → FailsPlainly env f path
    → attempt_limit f.job ≤ f.job.attempts + length envs + 1
    → ((runs envs f).job.attempts ≡ f.job.attempts + length envs)
      × ((execute_job env (runs envs f)).0.job.state ≡ failed)
      × ((execute_job env (runs envs f)).0.sent ≡ (runs envs f).sent)
waits_use_attempts envs env f path h full =
    let g = runs envs f in
    let c = runs-Continues envs f path h.live h.registered in
    let attempts = c.work.5 in
    let limit = attempt_limit-next f g c in
    let (state, sent) =
      exhausted env g path (FailsPlainly-next env f g path c h)
        (omega (arith, attempts, limit, full)) in
    (attempts, state, sent)
