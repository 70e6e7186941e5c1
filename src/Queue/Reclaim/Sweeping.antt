-- ===== src/Queue/Reclaim/Sweeping.antt =====
-- ecommerce_super/easyecom/queue/workers.py: what a sweep over running orphans does to the rows, to the
-- counters and to RQ.
use ecommerce_super.Base.{
  ℕ, ◌+◌, String, ◌≡◌, refl, ap, ◌∙◌, Bool, true, false, ◌&&◌, Option, none, some, List, [], ◌∷◌,
  arith, str_eq, if◌then◌else◌, length, length-append, ℤ, pos,
}
use ecommerce_super.Queue.Job.{Job, retrying, transition_to_retrying}
use ecommerce_super.Queue.Rq.{RqCall, Exc, EnqueueReply, accepted, refused}
use ecommerce_super.Queue.Semaphore.{Slots, release_slot}
use ecommerce_super.Queue.Worker.{
  Env, Frame, reenqueue, enqueue_reply, reenqueue_on, enqueue_failed, with_rq_id, retry_call,
}
use ecommerce_super.Queue.Worker.Outcome.{SameWork}
use ecommerce_super.Queue.Semaphore.Slot.{released}
use ecommerce_super.Queue.Reclaim.{
  running_round, World, Sweep, is_running_orphan, reclaim_running_row, after_row, frame_of,
  reclaim_running_orphans,
}

-- The rows after a pass against those before it: an orphan is Retrying, with its work and attempts
-- unchanged; any other row is as it was.
pub data Swept (w : World) : List Job → List Job → Type 0 where
  nil : Swept w [] []
  kept :
      {js ks : List Job} (j : Job)
      → is_running_orphan w j ≡ false
      → Swept w js ks
      → Swept w (j ∷ js) (j ∷ ks)
  taken :
      {js ks : List Job} (j k : Job)
      → is_running_orphan w j ≡ true
      → k.state ≡ retrying
      → SameWork j k
      → Swept w js ks
      → Swept w (j ∷ js) (k ∷ ks)

abbrev pub orphans : World → List Job → ℕ
orphans w [] = 0
orphans w (j ∷ js) = (if is_running_orphan w j then 1 else 0) + orphans w js

abbrev pub orphans_of : World → String → List Job → ℕ
orphans_of w company [] = 0
orphans_of w company (j ∷ js) =
    (if is_running_orphan w j && str_eq j.company company then 1 else 0) + orphans_of w company js

-- What one row of the first loop does, if it does not raise, from counters that it has set.
record IsTaken (f : Frame) (slots : Slots) (r : Frame × Option Exc) : Type 0 where
  waiting : r.1 ≡ none → r.0.job.state ≡ retrying
  one_task : r.1 ≡ none → length r.0.sent ≡ length f.sent + 1
  work : r.1 ≡ none → SameWork f.job r.0.job
  counters : r.0.slots ≡ slots

abbrev retried : ℤ → String → Option String → Slots → Frame → Frame
retried next text key slots f = record f {
  job = transition_to_retrying next text key f.job;
  slots = slots;
}

module _ (env : Env) (next : ℤ) (text : String) (key : Option String) (slots : Slots)
    (f : Frame) where
  enqueue_reply-IsTaken :
      (call : RqCall) (reply : EnqueueReply)
      → IsTaken f slots (enqueue_reply env call reply (retried next text key slots f))
  unfolding enqueue_reply transition_to_retrying with_rq_id enqueue_failed
  enqueue_reply-IsTaken call (accepted none) = record {
    waiting = λ e. refl;
    one_task = λ e. length-append f.sent (call ∷ []);
    work = λ e. (refl, refl, refl, refl, refl, refl);
    counters = refl;
  }
  enqueue_reply-IsTaken call (accepted (some id)) = record {
    waiting = λ e. refl;
    one_task = λ e. length-append f.sent (call ∷ []);
    work = λ e. (refl, refl, refl, refl, refl, refl);
    counters = refl;
  }
  enqueue_reply-IsTaken call (refused k t) = record {
    waiting = λ e. cc;
    one_task = λ e. cc;
    work = λ e. cc;
    counters = refl;
  }

  reenqueue_on-IsTaken :
      (delay : ℤ) (tier : Option String)
      → IsTaken f slots (reenqueue_on env delay (retried next text key slots f) tier)
  unfolding reenqueue_on enqueue_failed
  reenqueue_on-IsTaken delay none = record {
    waiting = λ e. cc;
    one_task = λ e. cc;
    work = λ e. cc;
    counters = refl;
  }
  reenqueue_on-IsTaken delay (some tier) =
      let call = retry_call (retried next text key slots f).job delay tier in
      enqueue_reply-IsTaken call (env.enqueue call)

reclaim_running_row-IsTaken :
    (w : World) (f : Frame)
    → IsTaken f (release_slot f.job.company f.slots).0 (reclaim_running_row w f)
unfolding reclaim_running_row reenqueue
reclaim_running_row-IsTaken w f = reenqueue_on-IsTaken w.env _ _ _ _ f (pos 60) _

-- A pass over `js` that did not raise, from `slots` and `sent` to `s`.
record IsSweep (w : World) (js : List Job) (slots : Slots) (sent : List RqCall) (s : Sweep)
    : Type 0 where
  rows : s.raised ≡ none → Swept w js s.jobs
  tasks : s.raised ≡ none → length s.sent ≡ length sent + orphans w js
  count : s.raised ≡ none → s.reclaimed ≡ orphans w js
  counters :
      (company : String) (n : ℕ)
      → s.raised ≡ none
      → slots company ≡ pos (orphans_of w company js + n)
      → s.slots company ≡ pos n

module _ (w : World) (j : Job) (js : List Job) (go : Slots → List RqCall → Sweep)
    (ih : (slots : Slots) (sent : List RqCall) → IsSweep w js slots sent (go slots sent))
    (slots : Slots) (sent : List RqCall) where
  after_row-IsSweep :
      (r : Frame × Option Exc)
      → is_running_orphan w j ≡ true
      → IsTaken (frame_of j slots sent) (release_slot j.company slots).0 r
      → IsSweep w (j ∷ js) slots sent (after_row js go r)
  unfolding after_row
  after_row-IsSweep (f, some e) orphan t = record {
    rows = λ e. cc;
    tasks = λ e. cc;
    count = λ e. cc;
    counters = λ c n e. cc;
  }
  after_row-IsSweep (f, none) orphan t =
      let h = ih f.slots f.sent in
      record {
        rows = λ e. taken j f.job orphan (t.waiting refl) (t.work refl) (h.rows e);
        tasks = λ e. rw orphan (omega (arith, h.tasks e, t.one_task refl));
        count = λ e. rw orphan (omega (arith, h.count e));
        counters = λ c n e held. h.counters c n e (counter c n held);
      }
    where
      counter :
          (c : String) (n : ℕ)
          → slots c
            ≡ pos (
                (if is_running_orphan w j && str_eq j.company c then 1 else 0)
                + orphans_of w c js
                + n)
          → f.slots c ≡ pos (orphans_of w c js + n)
      counter c n held =
          ap (λ (s : Slots). s c) t.counters
          ∙ released j.company c slots (orphans_of w c js + n)
              ((rw orphan at held) ∙ ap pos (omega arith))

  running_round-IsSweep :
      (orphan : Bool)
      → is_running_orphan w j ≡ orphan
      → IsSweep w (j ∷ js) slots sent (running_round orphan w j js go slots sent)
  unfolding running_round
  running_round-IsSweep true e =
      after_row-IsSweep _ e (reclaim_running_row-IsTaken w (frame_of j slots sent))
  running_round-IsSweep false e =
      let h = ih slots sent in
      record {
        rows = λ q. kept j e (h.rows q);
        tasks = λ q. rw e (omega (arith, h.tasks q));
        count = λ q. rw e (omega (arith, h.count q));
        counters = λ c n q held. h.counters c n q ((rw e at held) ∙ ap pos (omega arith));
      }

sweep :
    (w : World) (js : List Job) (slots : Slots) (sent : List RqCall)
    → IsSweep w js slots sent (reclaim_running_orphans w js slots sent)
unfolding reclaim_running_orphans
sweep w [] slots sent = record {
  rows = λ e. nil;
  tasks = λ e. omega arith;
  count = λ e. refl;
  counters = λ c n e held. held ∙ ap pos (omega arith);
}
sweep w (j ∷ js) slots sent =
    running_round-IsSweep w j js (reclaim_running_orphans w js) (sweep w js) slots sent
      (is_running_orphan w j) refl

-- A pass over running orphans that does not raise makes each of them, and no other row, Retrying
-- with its work and attempts kept, gives RQ one more task for each, and counts them.
pub reclaim_running_orphans-Swept :
    (w : World) (js : List Job) (slots : Slots) (sent : List RqCall)
    → let s = reclaim_running_orphans w js slots sent in
      s.raised ≡ none
      → Swept w js s.jobs
        × (length s.sent ≡ length sent + orphans w js)
        × (s.reclaimed ≡ orphans w js)
reclaim_running_orphans-Swept w js slots sent e =
    let h = sweep w js slots sent in (h.rows e, h.tasks e, h.count e)

-- A pass over running orphans that does not raise gives back exactly one slot for each orphan of a
-- company: where the counter held the slots of its orphans and `n` more, `n` are left.
pub reclaim_running_orphans-slots :
    (w : World) (js : List Job) (slots : Slots) (sent : List RqCall) (company : String) (n : ℕ)
    → slots company ≡ pos (orphans_of w company js + n)
    → (reclaim_running_orphans w js slots sent).raised ≡ none
    → (reclaim_running_orphans w js slots sent).slots company ≡ pos n
reclaim_running_orphans-slots w js slots sent company n held e =
    (sweep w js slots sent).counters company n e held
