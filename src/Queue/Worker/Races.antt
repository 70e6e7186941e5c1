-- ===== src/Queue/Worker/Races.antt =====
-- ecommerce_super/easyecom/queue: a cancellation that lands while the handler runs. Both sides write
-- single fields of the row, so the writes of `settle` follow those of `cancel`.
use ecommerce_super.Base.{ℕ, ◌≡◌, ◌≢◌, inl, inr, String, Option, arith}
use ecommerce_super.Queue.Job.{cancel, cancelled, running}
use ecommerce_super.Queue.Rq.{Exc}
use ecommerce_super.Queue.Worker.{Env, Frame, settle, with_job}
use ecommerce_super.Queue.Worker.Outcome.{Ended, finished, rearmed, settle-Ended}

not_cancelled_after : {env : Env} {f g : Frame} → Ended env f g → g.job.state ≢ cancelled
not_cancelled_after (finished (inl s) q w) = cc
not_cancelled_after (finished (inr s) q w) = cc
not_cancelled_after (rearmed d tier s n q w) = cc

-- A running job that is cancelled before its handler returns or raises does not stay cancelled:
-- the run ends in another state whatever the handler did.
pub settle-cancel :
    (env : Env) (raised : Option Exc) (f : Frame) (now : ℕ) (reason : String)
    → f.job.state ≡ running
    → ((with_job f (cancel now reason f.job)).job.state ≡ cancelled)
      × ((settle env raised (with_job f (cancel now reason f.job))).0.job.state ≢ cancelled)
unfolding cancel
settle-cancel env raised f now reason h =
    (ground arith, not_cancelled_after (settle-Ended env raised _))
