-- ===== src/Client/Retry/Bounds.antt =====
-- ecommerce_super/easyecom/client/retry.py: how often the loop calls, sleeps and re-authenticates.
use ecommerce_super.Base.{
  ℕ, zero, suc, ◌+◌, ◌-◌, ◌≤◌, ◌≡◌, inl, inr, Bool, true, false, Option, none, some, arith, leb,
  if◌then◌else◌, Bool-cases, length,
}
use ecommerce_super.Client.Retry.{
  Outcome, returned, raised, Calls, Run, Catch, catch_auth, catch_rate_limit, catch_transient,
  catch_requests, uncaught, catch_for, CallError, handle_auth, handle_wait, handle, round,
  fall_through, retry_loop, with_retry, stop, max_retries,
}

-- What is left of the budget after `attempt` rounds are to come, for a loop that has seen a 401 or not.
record Within {A : Type 0} (left : ℕ) (seen : Bool) (r : Run A) : Type 0 where
  calls : r.calls ≤ left
  sleeps : length r.sleeps ≤ left - 1
  reauths : r.reauths + (if seen then 1 else 0) ≤ 1

room :
    (left attempt : ℕ) → left + attempt ≡ max_retries → leb max_retries attempt ≡ false → 1 ≤ left
room left attempt n more = ground arith

module _ {A : Type 0} where
  stop-Within : (left : ℕ) (seen : Bool) (o : Outcome A) → Within (suc left) seen (stop o)
  stop-Within left true o = record {
    calls = omega arith;
    sleeps = omega arith;
    reauths = omega arith;
  }
  stop-Within left false o = record {
    calls = omega arith;
    sleeps = omega arith;
    reauths = omega arith;
  }

  handle_auth-Within :
      (left : ℕ) (on : Option Bool) (seen : Bool) (e : CallError) (go : Run A)
      → Within left true go
      → Within (suc left) seen (handle_auth on seen e go)
  unfolding handle_auth
  handle_auth-Within left (some true) false e go h = record {
    calls = omega arith;
    sleeps = omega arith;
    reauths = omega arith;
  }
  handle_auth-Within left (some false) false e go h = record {
    calls = omega arith;
    sleeps = omega arith;
    reauths = omega arith;
  }
  handle_auth-Within left none seen e go h = stop-Within left seen (raised e)
  handle_auth-Within left (some true) true e go h = stop-Within left true (raised e)
  handle_auth-Within left (some false) true e go h = stop-Within left true (raised e)

  handle_wait-Within :
      (left attempt wait : ℕ) (seen : Bool) (e : CallError) (go : Run A)
      → left + attempt ≡ max_retries
      → Within left seen go
      → Within (suc left) seen (handle_wait attempt wait e go)
  unfolding handle_wait
  handle_wait-Within left attempt wait seen e go n h = elim (Bool-cases (leb max_retries attempt)) [
    | inl full ↦ rw full (stop-Within left seen (raised e))
    | inr more ↦
        let some_left = room left attempt n more in
        rw more (record {
          calls = omega (arith, h.calls);
          sleeps = omega (arith, h.sleeps);
          reauths = h.reauths;
        })
  ]

  handle-Within :
      (c : Calls A) (left attempt : ℕ) (seen : Bool) (last : Option CallError) (k : Catch)
      (e : CallError) (go : Bool → Option CallError → Run A)
      → left + attempt ≡ max_retries
      → ((b : Bool) (l : Option CallError) → Within left b (go b l))
      → Within (suc left) seen (handle c attempt seen last k e go)
  unfolding handle
  handle-Within c left attempt seen last catch_auth e go n h =
      handle_auth-Within left c.on_auth_failure seen e (go true last) (h true last)
  handle-Within c left attempt seen last catch_rate_limit e go n h =
      handle_wait-Within left attempt _ seen e (go seen (some e)) n (h seen (some e))
  handle-Within c left attempt seen last catch_transient e go n h =
      handle_wait-Within left attempt _ seen e (go seen (some e)) n (h seen (some e))
  handle-Within c left attempt seen last catch_requests e go n h =
      handle_wait-Within left attempt _ seen _ (go seen (some e)) n (h seen (some e))
  handle-Within c left attempt seen last uncaught e go n h = stop-Within left seen (raised e)

  round-Within :
      (c : Calls A) (left attempt : ℕ) (seen : Bool) (last : Option CallError) (o : Outcome A)
      (go : Bool → Option CallError → Run A)
      → left + attempt ≡ max_retries
      → ((b : Bool) (l : Option CallError) → Within left b (go b l))
      → Within (suc left) seen (round c attempt seen last o go)
  unfolding round
  round-Within c left attempt seen last (returned a) go n h = stop-Within left seen (returned a)
  round-Within c left attempt seen last (raised e) go n h =
      handle-Within c left attempt seen last (catch_for e) e go n h

  retry_loop-Within :
      (c : Calls A) (left attempt : ℕ) (seen : Bool) (last : Option CallError)
      → left + attempt ≡ suc max_retries
      → Within left seen (retry_loop c left attempt seen last)
  unfolding retry_loop round fall_through
  retry_loop-Within c zero attempt true last n = record {
    calls = omega arith;
    sleeps = omega arith;
    reauths = omega arith;
  }
  retry_loop-Within c zero attempt false last n = record {
    calls = omega arith;
    sleeps = omega arith;
    reauths = omega arith;
  }
  retry_loop-Within c (suc left) attempt seen last n =
      round-Within c left attempt seen last (c.call attempt) (retry_loop c left (attempt + 1))
        (omega arith) (λ b l. retry_loop-Within c left (attempt + 1) b l (omega arith))

  -- The loop makes at most six calls, sleeps at most five times and re-authenticates at most once.
  pub with_retry_bounds :
      (c : Calls A)
      → ((with_retry c).calls ≤ max_retries)
        × (length (with_retry c).sleeps ≤ max_retries - 1)
        × ((with_retry c).reauths ≤ 1)
  unfolding with_retry
  with_retry_bounds c =
      let h = retry_loop-Within c max_retries 1 false none (omega arith) in
      (h.calls, h.sleeps, omega (arith, h.reauths))
