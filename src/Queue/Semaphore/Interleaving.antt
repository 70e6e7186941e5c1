-- ===== src/Queue/Semaphore/Interleaving.antt =====
-- ecommerce_super/easyecom/queue/concurrency.py: any number of workers that share the counters, and the sweep of
-- queue/workers.py that releases a slot for each Running row whose worker is gone. A step is one Redis operation; between
-- two steps of a worker any others may fall.
use ecommerce_super.Base.{
  ℕ, suc, ◌⊎◌, if◌then◌else◌, ◌+◌, ◌≤◌, ◌≡◌, String, true, false, pos_part, neg_part,
}
use ecommerce_super.Queue.Semaphore.{Slots, incr, decr, over_cap, acquire, release, release_slot}

-- The counters, and the workers of one company whose row is Running: those that have not counted themselves yet or not any
-- more, that hold a slot, and that must still undo a refused increment; those that died in the first state and in the other
-- two; and how often the sweep released a slot for one that died in the first or that is alive.
pub record Pool : Type 0 where
  pub slots : Slots
  pub idle : ℕ
  pub holding : ℕ
  pub rolling : ℕ
  pub dead_idle : ℕ
  pub dead_counted : ℕ
  pub released_extra : ℕ

-- The steps for one company under its cap. A worker may die in any state, and the sweep does not know in which; it
-- also takes a row for an orphan whose worker is alive but whose task RQ does not know.
-- `elsewhere` is an operation for another company.
pub data Step (limit : ℕ) (company : String) : Pool → Pool → Type 0 where
  start_job : (p : Pool) → Step limit company p (record p { idle = p.idle + 1 })
  finish_job : (p : Pool) (n : ℕ) → p.idle ≡ suc n → Step limit company p (record p { idle = n })
  enter :
      (p : Pool) (n : ℕ)
      → p.idle ≡ suc n
      → over_cap limit (incr company p.slots).1 ≡ false
      → Step limit company p
          (record p { slots = (incr company p.slots).0; idle = n; holding = p.holding + 1 })
  refuse :
      (p : Pool) (n : ℕ)
      → p.idle ≡ suc n
      → over_cap limit (incr company p.slots).1 ≡ true
      → Step limit company p
          (record p { slots = (incr company p.slots).0; idle = n; rolling = p.rolling + 1 })
  roll_back :
      (p : Pool) (n : ℕ)
      → p.rolling ≡ suc n
      → Step limit company p
          (record p { slots = (decr company p.slots).0; rolling = n; idle = p.idle + 1 })
  leave :
      (p : Pool) (n : ℕ)
      → p.holding ≡ suc n
      → Step limit company p
          (record p { slots = release company p.slots; holding = n; idle = p.idle + 1 })
  die_idle :
      (p : Pool) (n : ℕ)
      → p.idle ≡ suc n
      → Step limit company p (record p { idle = n; dead_idle = p.dead_idle + 1 })
  die_holding :
      (p : Pool) (n : ℕ)
      → p.holding ≡ suc n
      → Step limit company p (record p { holding = n; dead_counted = p.dead_counted + 1 })
  die_rolling :
      (p : Pool) (n : ℕ)
      → p.rolling ≡ suc n
      → Step limit company p (record p { rolling = n; dead_counted = p.dead_counted + 1 })
  reclaim_counted :
      (p : Pool) (n : ℕ)
      → p.dead_counted ≡ suc n
      → Step limit company p
          (record p { slots = (release_slot company p.slots).0; dead_counted = n })
  reclaim_idle :
      (p : Pool) (n : ℕ)
      → p.dead_idle ≡ suc n
      → Step limit company p (record p {
        slots = (release_slot company p.slots).0;
        dead_idle = n;
        released_extra = p.released_extra + 1;
      })
  reclaim_alive :
      (p : Pool) (n : ℕ)
      → p.idle + p.holding + p.rolling ≡ suc n
      → Step limit company p (record p {
        slots = (release_slot company p.slots).0;
        released_extra = p.released_extra + 1;
      })
  elsewhere :
      (p : Pool) (slots : Slots)
      → slots company ≡ p.slots company
      → Step limit company p (record p { slots = slots })

pub data Reach (limit : ℕ) (company : String) (p : Pool) : Pool → Type 0 where
  here : Reach limit company p p
  next : {q r : Pool} → Reach limit company p q → Step limit company q r → Reach limit company p r

-- All that the counter should count.
abbrev pub counted : Pool → ℕ
counted p = p.holding + p.rolling + p.dead_counted

-- The counter is short by the extra releases at most, and no more than those above the cap hold a slot.
pub record IsSound (limit : ℕ) (company : String) (p : Pool) : Type 0 where
  pub short_by :
      counted p + neg_part (p.slots company) ≤ pos_part (p.slots company) + p.released_extra
  pub capped : p.holding ≤ limit + p.released_extra

-- No worker waits, or a whole `acquire` of one that does, with nothing in between, goes on from there: it leaves the counters
-- of `acquire`, and one more worker holds a slot exactly when `acquire` grants it.
abbrev pub AcquireGoesOn : ℕ → String → Pool → Pool → Type 0
AcquireGoesOn limit company p q =
    (q.idle ≡ 0)
    ⊎ ((r : Pool) × Reach limit company p r
        × (r.slots ≡ (acquire limit company q.slots).0)
        × (r.holding ≡ (if (acquire limit company q.slots).1 then q.holding + 1 else q.holding)))
