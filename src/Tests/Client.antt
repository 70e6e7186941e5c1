-- ===== src/Tests/Client.antt =====
-- ecommerce_super/easyecom/client: tests.
use ecommerce_super.Base.{
  ℕ, ◌+◌, ◌-◌, ◌≤◌, ◌≡◌, refl, inl, true, none, some, [], ◌∷◌, arith, ltb, if◌then◌else◌, All,
  length,
}
use ecommerce_super.Errors.{EasyError, server_error, auth_error, validation_error}
use ecommerce_super.Client.Retry.{
  Outcome, returned, raised, Calls, CallError, ecs, catch_for, with_retry, is_transient_exception,
  max_retries, compute_backoff,
}
use ecommerce_super.Client.Retry.Bounds.{with_retry_bounds}
use ecommerce_super.Client.Retry.Outcomes.{
  waits, waits-catch_for, with_retry_prefix, with_retry_masks_auth,
}
use ecommerce_super.Client.Bucket.{Tier, Cache, Turn, Attempt, granted, acquire_all, prefixed}
use ecommerce_super.Client.Bucket.Prefixed.{acquire_all-granted}

abbrev server_down : CallError
server_down = ecs (record { cls = server_error; message = "HTTP 503"; retry_after = none })

abbrev unauthorised : CallError
unauthorised = ecs (record { cls = auth_error; message = "HTTP 401"; retry_after = none })

-- Two server errors, then a value.
abbrev third_time : ℕ → Outcome ℕ
third_time n = if ltb n 3 then raised server_down else returned 42

abbrev third_calls : Calls ℕ
third_calls = record { call = third_time; second = 1000; jitter = λ n. 5; on_auth_failure = none }

third_run :
    with_retry third_calls
    ≡ record { outcome = returned 42; calls = 3; sleeps = 1005 ∷ 2005 ∷ []; reauths = 0 }
unfolding with_retry catch_for compute_backoff ecommerce_super.Errors.is_instance
third_run = refl

with_retry_bounds_test :
    ((with_retry third_calls).calls ≤ max_retries)
    × (length (with_retry third_calls).sleeps ≤ max_retries - 1)
    × ((with_retry third_calls).reauths ≤ 1)
with_retry_bounds_test = with_retry_bounds third_calls

with_retry_prefix_example :
    ((with_retry third_calls).outcome ≡ returned 42) × ((with_retry third_calls).calls ≡ 3)
unfolding catch_for ecommerce_super.Errors.is_instance
with_retry_prefix_example =
    with_retry_prefix third_calls 2 (omega arith)
      (λ j h. let early : ltb (1 + j) 3 ≡ true = ground arith in rw early refl) tt

-- Five server errors, then a 401.
abbrev sixth_time : ℕ → Outcome ℕ
sixth_time n = if ltb n 6 then raised server_down else raised unauthorised

abbrev sixth_calls : Calls ℕ
sixth_calls = record {
  call = sixth_time;
  second = 1000;
  jitter = λ n. 5;
  on_auth_failure = some true;
}

with_retry_masks_auth_example :
    (e' : CallError) × (sixth_calls.call 5 ≡ raised e')
    × ((with_retry sixth_calls).outcome ≡ raised e')
unfolding catch_for ecommerce_super.Errors.is_instance
with_retry_masks_auth_example =
    with_retry_masks_auth sixth_calls refl unauthorised
      (λ j h. let early : ltb (1 + j) 6 ≡ true = ground arith in rw early refl) refl refl

waits-catch_for_test : waits (catch_for server_down) ≡ is_transient_exception server_down
unfolding catch_for ecommerce_super.Errors.is_instance
waits-catch_for_test = waits-catch_for server_down (λ e. cc)

abbrev bronze : Tier
bronze = record { rate = 5; burst = 10; daily_quota = 50_000 }

abbrev no_cache : Cache
no_cache k = none

abbrev turn : ℕ → Turn
turn now = record { refill_at = now; checked_at = now }

abbrev attempt : ℕ → Attempt
attempt now = record {
  day = "2024-01-01";
  until_midnight = 3600;
  start = now;
  first = turn now;
  more = [];
}

acquire_all-granted_example :
    All
      (λ answer. answer ≡ granted)
      (acquire_all prefixed 1000 bronze "ACC-1" none (attempt 0 ∷ attempt 1 ∷ []) no_cache).1
acquire_all-granted_example =
    acquire_all-granted 1000 bronze "ACC-1" none (attempt 0 ∷ attempt 1 ∷ []) no_cache (omega arith)
      (omega arith) (record { bucket = inl refl; uncounted = λ day. refl })
