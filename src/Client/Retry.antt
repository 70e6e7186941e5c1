-- ===== src/Client/Retry.antt =====
-- ecommerce_super/easyecom/client/retry.py: the retry policy of the HTTP client. Time is counted in
-- ticks, `second` of them to a second, and the value of `random.random()` is an argument below
-- `second`; the rounding of the floats is not modelled.
pub mod Bounds
pub mod Outcomes
use ecommerce_super.Base.{
  ℕ, zero, suc, ◌+◌, ◌-◌, ◌*◌, ◌^◌, min, max, String, Bool, true, false, ◌&&◌, ◌||◌, Option, none,
  some, List, [], ◌∷◌, ltb, leb, ◌==◌, if◌then◌else◌, or_else, pos_part,
}
use ecommerce_super.Errors.{
  ErrorClass, EasyError, auth_error, rate_limit_error, server_error, timeout_error, is_instance,
}

abbrev pub max_retries : ℕ
max_retries = 6

unfoldable pub compute_backoff : ℕ → ℕ → ℕ → ℕ
compute_backoff second jitter attempt = min (second * 2 ^ (attempt - 1)) (60 * second) + jitter

pub data StatusClass : Type 0 where
  success transient auth permanent rate_limit : StatusClass

unfoldable pub classify_response : ℕ → StatusClass
classify_response status_code =
    if leb 200 status_code && ltb status_code 300
    then success
    else if status_code == 401
    then auth
    else if status_code == 429
    then rate_limit
    else if leb 500 status_code && ltb status_code 600
    then transient
    else permanent

-- What a call can raise: an error of the integration, the two exceptions of `requests` that are
-- caught, or anything else.
pub data CallError : Type 0 where
  ecs : EasyError → CallError
  requests_timeout requests_connection other : String → CallError

unfoldable pub is_transient_exception : CallError → Bool
is_transient_exception (ecs e) =
    is_instance e.cls rate_limit_error
    || (is_instance e.cls server_error || is_instance e.cls timeout_error)
is_transient_exception (requests_timeout m) = true
is_transient_exception (requests_connection m) = true
is_transient_exception (other m) = false

pub data Outcome (A : Type 0) : Type 0 where
  returned : A → Outcome A
  raised : CallError → Outcome A

-- What surrounds the loop: the outcome of the call that each attempt makes, the jitter of each
-- attempt, and `on_auth_failure`, if it is given, with whether it succeeds.
pub record Calls (A : Type 0) : Type 0 where
  pub call : ℕ → Outcome A
  pub second : ℕ
  pub jitter : ℕ → ℕ
  pub on_auth_failure : Option Bool

-- What the loop did: its outcome, its calls, its sleeps in order, its re-authentications.
pub record Run (A : Type 0) : Type 0 where
  pub outcome : Outcome A
  pub calls : ℕ
  pub sleeps : List ℕ
  pub reauths : ℕ

-- The `except` clause that takes an error.
pub data Catch : Type 0 where
  catch_auth catch_rate_limit catch_transient catch_requests uncaught : Catch

unfoldable pub catch_for : CallError → Catch
catch_for (ecs e) =
    if is_instance e.cls auth_error
    then catch_auth
    else if is_instance e.cls rate_limit_error
    then catch_rate_limit
    else if is_instance e.cls server_error || is_instance e.cls timeout_error
    then catch_transient
    else uncaught
catch_for (requests_timeout m) = catch_requests
catch_for (requests_connection m) = catch_requests
catch_for (other m) = uncaught

abbrev pub timeout_of : String → CallError
timeout_of m = ecs (record { cls = timeout_error; message = m; retry_after = none })

-- `str(e)`
abbrev pub text_of : CallError → String
text_of (ecs e) = e.message
text_of (requests_timeout m) = m
text_of (requests_connection m) = m
text_of (other m) = m

-- `max(e.retry_after or 0, compute_backoff(attempt))`
unfoldable pub rate_limit_wait : ℕ → ℕ → CallError → ℕ
rate_limit_wait second backoff (ecs e) =
    max (second * elim e.retry_after [ none ↦ 0 | some s ↦ pos_part s ]) backoff
rate_limit_wait second backoff e = backoff

module _ {A : Type 0} where
  abbrev pub stop : Outcome A → Run A
  stop o = record { outcome = o; calls = 1; sleeps = []; reauths = 0 }

  abbrev pub after_sleep : ℕ → Run A → Run A
  after_sleep s r = record r { calls = r.calls + 1; sleeps = s ∷ r.sleeps }

  abbrev pub after_reauth : Run A → Run A
  after_reauth r = record r { calls = r.calls + 1; reauths = r.reauths + 1 }

  -- The clause for a 401, by whether it was seen before; `go` is the rest of the loop.
  unfoldable pub handle_auth : Option Bool → Bool → CallError → Run A → Run A
  handle_auth (some true) false e go = after_reauth go
  handle_auth (some false) false e go = record {
    outcome = raised e;
    calls = 1;
    sleeps = [];
    reauths = 1;
  }
  handle_auth _ _ e go = stop (raised e)

  -- The clauses that sleep; at the last attempt they raise `final`.
  unfoldable pub handle_wait : ℕ → ℕ → CallError → Run A → Run A
  handle_wait attempt wait final go =
      if leb max_retries attempt then stop (raised final) else after_sleep wait go

  -- One round of the loop: `go` is the rest of it, from what `auth_retried` and `last_exc` are then.
  unfoldable pub handle :
      Calls A
      → ℕ
      → Bool
      → Option CallError
      → Catch
      → CallError
      → (Bool → Option CallError → Run A)
      → Run A
  unfolding handle_auth handle_wait
  handle c attempt seen last catch_auth e go = handle_auth c.on_auth_failure seen e (go true last)
  handle c attempt seen last catch_rate_limit e go =
      handle_wait attempt
        (rate_limit_wait c.second (compute_backoff c.second (c.jitter attempt) attempt) e) e
        (go seen (some e))
  handle c attempt seen last catch_transient e go =
      handle_wait attempt (compute_backoff c.second (c.jitter attempt) attempt) e (go seen (some e))
  handle c attempt seen last catch_requests e go =
      handle_wait attempt (compute_backoff c.second (c.jitter attempt) attempt)
        (timeout_of (text_of e)) (go seen (some e))
  handle c attempt seen last uncaught e go = stop (raised e)

  unfoldable pub round :
      Calls A → ℕ → Bool → Option CallError → Outcome A → (Bool → Option CallError → Run A) → Run A
  unfolding handle
  round c attempt seen last (returned a) go = stop (returned a)
  round c attempt seen last (raised e) go = handle c attempt seen last (catch_for e) e go

  -- The code after the loop.
  unfoldable pub fall_through : Option CallError → Run A
  fall_through last = record {
    outcome = raised (or_else last (timeout_of "Exhausted retries with no recorded exception."));
    calls = 0;
    sleeps = [];
    reauths = 0;
  }

  -- The loop, with the attempts that are left and the number of the next one.
  unfoldable pub retry_loop : Calls A → ℕ → ℕ → Bool → Option CallError → Run A
  unfolding round fall_through
  retry_loop c zero attempt seen last = fall_through last
  retry_loop c (suc left) attempt seen last =
      round c attempt seen last (c.call attempt) (retry_loop c left (attempt + 1))

  unfoldable pub with_retry : Calls A → Run A
  unfolding retry_loop
  with_retry c = retry_loop c max_retries 1 false none
