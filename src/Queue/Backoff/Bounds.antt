-- ===== src/Queue/Backoff/Bounds.antt =====
-- ecommerce_super/easyecom/queue/workers.py: the range of the back-off delay.
use native.Mathlib.Decide.{dec_le}
use ecommerce_super.Base.{ℕ, zero, suc, ◌+◌, ◌-◌, ◌^◌, ◌≤◌, ◌<◌, ◌≡◌, ◌⊎◌, inl, inr, arith}
use native.Mathlib.Nat.{add-suc, pow-suc}
use ecommerce_super.Queue.Backoff.{compute_backoff}

-- the seventh doubling passes the hour
pow-above : (a : ℕ) → 128 ≤ 2 ^ (7 + a)
pow-above zero = omega arith
pow-above (suc a) = rw add-suc (rw (pow-suc 2 (7 + a)) (omega (arith, pow-above a)))

-- From one attempt to the next the delay does not fall, it is never more than an hour and the
-- jitter, and from the seventh attempt on it is the hour and the jitter.
pub compute_backoff_lem :
    (jitter a : ℕ)
    → (compute_backoff jitter a ≤ compute_backoff jitter (suc a))
      × (compute_backoff jitter a ≤ 3600 + jitter)
      × ((a < 7) ⊎ (compute_backoff jitter a ≡ 3600 + jitter))
unfolding compute_backoff
compute_backoff_lem jitter a = (
  omega (arith, pow-suc 2 a),
  omega arith,
  elim (dec_le 7 a) [ yes late ↦ inr (capped late) | no early ↦ inl (omega arith) ],
)
  where
    capped : 7 ≤ a → compute_backoff jitter a ≡ 3600 + jitter
    capped h =
        let e : a ≡ 7 + (a - 7) = omega arith in
        let big : 128 ≤ 2 ^ a = rw e (pow-above (a - 7)) in omega arith
