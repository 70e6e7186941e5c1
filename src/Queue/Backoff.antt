-- ===== src/Queue/Backoff.antt =====
-- ecommerce_super/easyecom/queue/workers.py, `compute_backoff`. The value of `random.randint(0, 30)`
-- is an argument.
pub mod Bounds
use ecommerce_super.Base.{ℕ, ◌+◌, ◌*◌, ◌^◌, min}

unfoldable pub compute_backoff : ℕ → ℕ → ℕ
compute_backoff jitter attempts = min (2 ^ attempts * 30) 3600 + jitter
