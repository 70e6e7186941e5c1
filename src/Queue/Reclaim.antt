-- ===== src/Queue/Reclaim.antt =====
-- ecommerce_super/easyecom/queue/workers.py: the scheduler hook that takes up orphaned jobs. A sweep
-- walks the rows in a fixed order; whether RQ still knows a task, and whether the work of a queued
-- row is already done, are lookups in other systems and so fields of `World`.
pub mod Sweeping
pub mod Queued
use ecommerce_super.Queue.Job.{
  Job, queued, running, same_state, transition_to_success, transition_to_retrying,
}
use ecommerce_super.Queue.Rq.{RqCall, Exc}
use ecommerce_super.Queue.Worker.{Env, Frame, reenqueue}
use ecommerce_super.Queue.Semaphore.{Slots, release_slot}
use ecommerce_super.Base.{
  ℕ, ◌+◌, ◌/◌, min, String, Bool, true, false, ◌&&◌, not, Option, none, some, List, [], ◌∷◌, leb,
  str_eq, if◌then◌else◌, ℤ, pos, ◌+ℤ◌, take_text, append,
}

pub record World : Type 0 where
  pub env : Env
  pub cutoff : ℕ
  pub rq_job_alive : String → Bool
  pub creation : Job → ℕ
  pub work_done : Job → Bool

pub record Sweep : Type 0 where
  pub jobs : List Job
  pub slots : Slots
  pub sent : List RqCall
  pub reclaimed : ℕ
  pub raised : Option Exc

-- `bool(row.rq_job_id) and _rq_job_alive(row.rq_job_id)`
unfoldable pub is_live : World → Job → Bool
is_live w j = elim j.rq_job_id [ none ↦ false | some id ↦ w.rq_job_alive id ]

abbrev before_cutoff : World → Option ℕ → Bool
before_cutoff w none = false
before_cutoff w (some t) = leb t w.cutoff

-- A row of the first query that RQ does not know.
unfoldable pub is_running_orphan : World → Job → Bool
unfolding is_live
is_running_orphan w j =
    same_state j.state running && before_cutoff w j.last_attempted_at && not (is_live w j)

unfoldable pub is_queued_orphan : World → Job → Bool
unfolding is_live
is_queued_orphan w j = same_state j.state queued && leb (w.creation j) w.cutoff && not (is_live w j)

-- The body of the first loop.
unfoldable pub reclaim_running_row : World → Frame → Frame × Option Exc
unfolding transition_to_retrying reenqueue
reclaim_running_row w f = reenqueue w.env (pos 60) (record f {
  job =
      transition_to_retrying (pos w.env.ended +ℤ pos 60)
        "Reclaimed: worker died mid-job (no live RQ id)." (some "ECS_QJ_ORPHAN_RECLAIM") f.job;
  slots = (release_slot f.job.company f.slots).0;
})

-- `_annotate`
unfoldable pub annotate : String → Job → Job
annotate note j = record j {
  last_error = some (
      take_text 4000 (elim j.last_error [
        | none ↦ note
        | some old ↦ if str_eq old "" then note else append old (append "\n---\n" note)
      ]));
}

unfoldable pub annotate_sent : Frame × Option Exc → Frame × Option Exc
annotate_sent (f, some e) = (f, some e)
annotate_sent (f, none) = (
  record f {
    job =
        annotate "Re-enqueued by gh#176 reclaim: state was Queued > 10 min with no live RQ task."
          f.job;
  },
  none,
)

-- The body of the second loop, by whether the work is already done.
unfoldable pub reclaim_queued_row : World → Frame → Bool → Frame × Option Exc
unfolding transition_to_success annotate annotate_sent reenqueue
reclaim_queued_row w f true = (
  record f {
    job =
        annotate
          "Reconciled by gh#176 reclaim: target row already exists (idempotency); this Queue Job was a duplicate / orphaned enqueue."
          (transition_to_success w.env.ended f.job);
  },
  none,
)
reclaim_queued_row w f false = annotate_sent (reenqueue w.env (pos 5) f)

abbrev pub frame_of : Job → Slots → List RqCall → Frame
frame_of j slots sent = record { job = j; slots = slots; sent = sent }

-- What a loop does after a row: it goes on, or stops at an exception.
unfoldable pub after_row : List Job → (Slots → List RqCall → Sweep) → Frame × Option Exc → Sweep
after_row rest go (f, none) =
    let s = go f.slots f.sent in record s { jobs = f.job ∷ s.jobs; reclaimed = s.reclaimed + 1 }
after_row rest go (f, some e) = record {
  jobs = f.job ∷ rest;
  slots = f.slots;
  sent = f.sent;
  reclaimed = 0;
  raised = some e;
}

abbrev pub skip_row : Job → Sweep → Sweep
skip_row j s = record s { jobs = j ∷ s.jobs }

-- One round of the first loop, by whether the row is an orphan; `go` is the rest of the loop.
unfoldable pub running_round :
    Bool → World → Job → List Job → (Slots → List RqCall → Sweep) → Slots → List RqCall → Sweep
unfolding reclaim_running_row after_row
running_round true w j js go slots sent =
    after_row js go (reclaim_running_row w (frame_of j slots sent))
running_round false w j js go slots sent = skip_row j (go slots sent)

unfoldable pub reclaim_running_orphans : World → List Job → Slots → List RqCall → Sweep
unfolding is_running_orphan running_round
reclaim_running_orphans w [] slots sent = record {
  jobs = [];
  slots = slots;
  sent = sent;
  reclaimed = 0;
  raised = none;
}
reclaim_running_orphans w (j ∷ js) slots sent =
    running_round (is_running_orphan w j) w j js (reclaim_running_orphans w js) slots sent

unfoldable pub queued_round :
    Bool → World → Job → List Job → (Slots → List RqCall → Sweep) → Slots → List RqCall → Sweep
unfolding reclaim_queued_row after_row
queued_round true w j js go slots sent =
    after_row js go (reclaim_queued_row w (frame_of j slots sent) (w.work_done j))
queued_round false w j js go slots sent = skip_row j (go slots sent)

unfoldable pub reclaim_queued_orphans : World → List Job → Slots → List RqCall → Sweep
unfolding is_queued_orphan queued_round
reclaim_queued_orphans w [] slots sent = record {
  jobs = [];
  slots = slots;
  sent = sent;
  reclaimed = 0;
  raised = none;
}
reclaim_queued_orphans w (j ∷ js) slots sent =
    queued_round (is_queued_orphan w j) w j js (reclaim_queued_orphans w js) slots sent

abbrev add_reclaimed : ℕ → Sweep → Sweep
add_reclaimed n s = record s { reclaimed = n + s.reclaimed }

unfoldable pub second_pass : World → Sweep → Sweep
second_pass w s = elim s.raised [
  | some e ↦ s
  | none ↦ add_reclaimed s.reclaimed (reclaim_queued_orphans w s.jobs s.slots s.sent)
]

-- The hook; an exception of the first loop keeps the second from running.
unfoldable pub reclaim_orphaned_jobs : World → List Job → Slots → List RqCall → Sweep
unfolding second_pass reclaim_running_orphans reclaim_queued_orphans
reclaim_orphaned_jobs w jobs slots sent = second_pass w (reclaim_running_orphans w jobs slots sent)
