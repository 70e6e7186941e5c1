-- ===== src/Queue/Reclaim/Queued.antt =====
-- ecommerce_super/easyecom/queue/workers.py: what a sweep over queued orphans does.
use ecommerce_super.Base.{
  String, ◌≡◌, refl, sym, ap, ◌∙◌, Bool, true, false, Option, none, some, List, [], ◌∷◌, ◌++◌, pos,
}
use mathlib.Core.List.{append-nil, append_assoc}
use ecommerce_super.Queue.Job.{Job, success, failed, transition_to_success, transition_to_failed}
use ecommerce_super.Queue.Rq.{RqCall, Exc, EnqueueReply, accepted, refused}
use ecommerce_super.Queue.Semaphore.{Slots}
use ecommerce_super.Queue.Worker.{
  Env, Frame, reenqueue, enqueue_reply, reenqueue_on, enqueue_failed, with_rq_id, retry_call,
  tier_of,
}
use ecommerce_super.Queue.Worker.Outcome.{SameWork}
use ecommerce_super.Queue.Reclaim.{
  World, Sweep, is_queued_orphan, annotate, annotate_sent, reclaim_queued_row, after_row, frame_of,
  queued_round, reclaim_queued_orphans,
}

-- What the second loop does to one row, by whether its work is done already.
data QueuedRow (f : Frame) : Bool → Frame × Option Exc → Type 0 where
  done :
      (g : Frame)
      → g.job.state ≡ success
      → SameWork f.job g.job
      → g.slots ≡ f.slots
      → g.sent ≡ f.sent
      → QueuedRow f true (g, none)
  again :
      (g : Frame) (call : RqCall)
      → g.job.state ≡ f.job.state
      → SameWork f.job g.job
      → g.slots ≡ f.slots
      → call.easyecom_queue_job ≡ f.job.name
      → call.enqueue_after ≡ some (pos 5)
      → g.sent ≡ f.sent ++ (call ∷ [])
      → QueuedRow f false (g, none)
  dropped :
      (g : Frame) (e : Exc)
      → g.job.state ≡ failed
      → SameWork f.job g.job
      → g.slots ≡ f.slots
      → g.sent ≡ f.sent
      → QueuedRow f false (g, some e)

reply-QueuedRow :
    (env : Env) (call : RqCall) (r : EnqueueReply) (f : Frame)
    → call.easyecom_queue_job ≡ f.job.name
    → call.enqueue_after ≡ some (pos 5)
    → QueuedRow f false (annotate_sent (enqueue_reply env call r f))
unfolding annotate_sent enqueue_reply enqueue_failed with_rq_id annotate transition_to_failed
reply-QueuedRow env call (refused k t) f mine soon =
    dropped _ _ refl (refl, refl, refl, refl, refl, refl) refl refl
reply-QueuedRow env call (accepted none) f mine soon =
    again _ call refl (refl, refl, refl, refl, refl, refl) refl mine soon refl
reply-QueuedRow env call (accepted (some id)) f mine soon =
    again _ call refl (refl, refl, refl, refl, refl, refl) refl mine soon refl

tier-QueuedRow :
    (env : Env) (f : Frame) (tier : Option String)
    → QueuedRow f false (annotate_sent (reenqueue_on env (pos 5) f tier))
unfolding reenqueue_on annotate_sent enqueue_failed transition_to_failed
tier-QueuedRow env f none = dropped _ _ refl (refl, refl, refl, refl, refl, refl) refl refl
tier-QueuedRow env f (some tier) =
    let call = retry_call f.job (pos 5) tier in
    reply-QueuedRow env call (env.enqueue call) f refl refl

row-QueuedRow :
    (w : World) (f : Frame) (is_done : Bool) → QueuedRow f is_done (reclaim_queued_row w f is_done)
unfolding reclaim_queued_row reenqueue annotate transition_to_success
row-QueuedRow w f true = done _ refl (refl, refl, refl, refl, refl, refl) refl refl
row-QueuedRow w f false = tier-QueuedRow w.env f (tier_of f.job)

-- The rows after a pass against those before it, the tasks that RQ took in their order, and the exception that ended
-- the pass, if one did. A row is queued again, or Success if its work was done; where RQ refuses a
-- task the row is Failed and the later rows are not looked at.
pub data Requeued (w : World) : List Job → List Job → List RqCall → Option Exc → Type 0 where
  nil : Requeued w [] [] [] none
  kept :
      {js ks : List Job} {tasks : List RqCall} {o : Option Exc} (j : Job)
      → is_queued_orphan w j ≡ false
      → Requeued w js ks tasks o
      → Requeued w (j ∷ js) (j ∷ ks) tasks o
  reconciled :
      {js ks : List Job} {tasks : List RqCall} {o : Option Exc} (j k : Job)
      → is_queued_orphan w j ≡ true
      → w.work_done j ≡ true
      → k.state ≡ success
      → SameWork j k
      → Requeued w js ks tasks o
      → Requeued w (j ∷ js) (k ∷ ks) tasks o
  requeued :
      {js ks : List Job} {tasks : List RqCall} {o : Option Exc} (j k : Job) (call : RqCall)
      → is_queued_orphan w j ≡ true
      → w.work_done j ≡ false
      → k.state ≡ j.state
      → SameWork j k
      → call.easyecom_queue_job ≡ j.name
      → call.enqueue_after ≡ some (pos 5)
      → Requeued w js ks tasks o
      → Requeued w (j ∷ js) (k ∷ ks) (call ∷ tasks) o
  stopped :
      {js : List Job} (j k : Job) (e : Exc)
      → is_queued_orphan w j ≡ true
      → w.work_done j ≡ false
      → k.state ≡ failed
      → SameWork j k
      → Requeued w (j ∷ js) (k ∷ js) [] (some e)

pub record IsRequeued (w : World) (js : List Job) (slots : Slots) (sent : List RqCall) (s : Sweep)
    : Type 0 where
  pub tasks : List RqCall
  pub rows : Requeued w js s.jobs tasks s.raised
  pub taken : s.sent ≡ sent ++ tasks
  pub counters : s.slots ≡ slots

module _ (w : World) (j : Job) (js : List Job) (go : Slots → List RqCall → Sweep)
    (ih : (slots : Slots) (sent : List RqCall) → IsRequeued w js slots sent (go slots sent))
    (slots : Slots) (sent : List RqCall) (orphan : is_queued_orphan w j ≡ true) where
  after_row-IsRequeued :
      (is_done : Bool) (r : Frame × Option Exc)
      → w.work_done j ≡ is_done
      → QueuedRow (frame_of j slots sent) is_done r
      → IsRequeued w (j ∷ js) slots sent (after_row js go r)
  unfolding after_row
  after_row-IsRequeued _ _ q (done g s same c t) =
      let h = ih g.slots g.sent in
      record {
        tasks = h.tasks;
        rows = reconciled j g.job orphan q s same h.rows;
        taken = h.taken ∙ ap (λ x. x ++ h.tasks) t;
        counters = h.counters ∙ c;
      }
  after_row-IsRequeued _ _ q (again g call s same c mine soon t) =
      let h = ih g.slots g.sent in
      record {
        tasks = call ∷ h.tasks;
        rows = requeued j g.job call orphan q s same mine soon h.rows;
        taken = h.taken ∙ ap (λ x. x ++ h.tasks) t ∙ append_assoc sent (call ∷ []) h.tasks;
        counters = h.counters ∙ c;
      }
  after_row-IsRequeued _ _ q (dropped g e s same c t) = record {
    tasks = [];
    rows = stopped j g.job e orphan q s same;
    taken = t ∙ sym (append-nil sent);
    counters = c;
  }

round-IsRequeued :
    (w : World) (j : Job) (js : List Job) (go : Slots → List RqCall → Sweep)
    (ih : (slots : Slots) (sent : List RqCall) → IsRequeued w js slots sent (go slots sent))
    (slots : Slots) (sent : List RqCall) (orphan : Bool)
    → is_queued_orphan w j ≡ orphan
    → IsRequeued w (j ∷ js) slots sent (queued_round orphan w j js go slots sent)
unfolding queued_round
round-IsRequeued w j js go ih slots sent true e =
    after_row-IsRequeued w j js go ih slots sent e (w.work_done j) _ refl
      (row-QueuedRow w (frame_of j slots sent) (w.work_done j))
round-IsRequeued w j js go ih slots sent false e =
    let h = ih slots sent in
    record { tasks = h.tasks; rows = kept j e h.rows; taken = h.taken; counters = h.counters }

-- A pass over queued orphans, whether or not RQ refuses a task, makes each orphan Success if its work
-- is done and else leaves it queued with one task that names this row and waits 5 seconds, up to the first refusal, which
-- fails that row and ends the pass. It touches no other row and no counter, and RQ gets these tasks in the order of the
-- rows after those it had, and no other.
pub reclaim_queued_orphans-IsRequeued :
    (w : World) (js : List Job) (slots : Slots) (sent : List RqCall)
    → IsRequeued w js slots sent (reclaim_queued_orphans w js slots sent)
unfolding reclaim_queued_orphans
reclaim_queued_orphans-IsRequeued w [] slots sent = record {
  tasks = [];
  rows = nil;
  taken = sym (append-nil sent);
  counters = refl;
}
reclaim_queued_orphans-IsRequeued w (j ∷ js) slots sent =
    round-IsRequeued w j js (reclaim_queued_orphans w js) (reclaim_queued_orphans-IsRequeued w js)
      slots sent (is_queued_orphan w j) refl
