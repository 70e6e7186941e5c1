-- ===== src/Client/Retry/Outcomes.antt =====
-- ecommerce_super/easyecom/client/retry.py: which outcome the loop returns or raises.
use native.Mathlib.Nat.{add-zero}
use mathlib.Core.Path.{subst}
use ecommerce_super.Base.{
  ℕ, zero, suc, ◌+◌, ◌<◌, ◌≡◌, refl, ap, ◌∙◌, ◌≢◌, Bool, true, false, Option, none, some, arith,
  leb, or_else,
}
use ecommerce_super.Client.Retry.{
  Outcome, returned, raised, Calls, Run, Catch, catch_auth, catch_rate_limit, catch_transient,
  catch_requests, uncaught, catch_for, CallError, ecs, requests_timeout, requests_connection, other,
  handle_auth, handle_wait, handle, round, fall_through, retry_loop, with_retry, stop, max_retries,
  timeout_of, is_transient_exception,
}

-- The clauses that sleep and try again.
abbrev pub waits : Catch → Bool
waits catch_rate_limit = true
waits catch_transient = true
waits catch_requests = true
waits _ = false

-- A call that failed with an error for which the loop sleeps.
abbrev pub FailsTransiently : {A : Type 0} → Outcome A → Type 0
FailsTransiently (returned a) = ⊥
FailsTransiently (raised e) = waits (catch_for e) ≡ true

-- An outcome that the loop passes on at once.
abbrev pub IsFinal : {A : Type 0} → Outcome A → Type 0
IsFinal (returned a) = Unit
IsFinal (raised e) = catch_for e ≡ uncaught

-- The loop sleeps and tries again for exactly the errors that `is_transient_exception` names, unless
-- the error is a 401.
pub waits-catch_for :
    (e : CallError) → catch_for e ≢ catch_auth → waits (catch_for e) ≡ is_transient_exception e
unfolding catch_for is_transient_exception
waits-catch_for (ecs e) h = ground arith
waits-catch_for (requests_timeout m) h = refl
waits-catch_for (requests_connection m) h = refl
waits-catch_for (other m) h = refl

more :
    (left attempt : ℕ) → 0 < left → left + attempt ≡ max_retries → leb max_retries attempt ≡ false
more left attempt h n = ground arith

module _ {A : Type 0} where
  handle-waits :
      (c : Calls A) (attempt : ℕ) (seen : Bool) (last : Option CallError) (k : Catch)
      (e : CallError) (go : Bool → Option CallError → Run A)
      → waits k ≡ true
      → leb max_retries attempt ≡ false
      → ((handle c attempt seen last k e go).outcome ≡ (go seen (some e)).outcome)
        × ((handle c attempt seen last k e go).calls ≡ (go seen (some e)).calls + 1)
  unfolding handle handle_wait
  handle-waits c attempt seen last catch_auth e go w m = cc
  handle-waits c attempt seen last uncaught e go w m = cc
  handle-waits c attempt seen last catch_rate_limit e go w m = rw m (refl, refl)
  handle-waits c attempt seen last catch_transient e go w m = rw m (refl, refl)
  handle-waits c attempt seen last catch_requests e go w m = rw m (refl, refl)

  round-waits :
      (c : Calls A) (attempt : ℕ) (seen : Bool) (last : Option CallError) (o : Outcome A)
      (go : Bool → Option CallError → Run A)
      → FailsTransiently o
      → leb max_retries attempt ≡ false
      → (e : CallError) × (o ≡ raised e)
        × ((round c attempt seen last o go).outcome ≡ (go seen (some e)).outcome)
        × ((round c attempt seen last o go).calls ≡ (go seen (some e)).calls + 1)
  unfolding round
  round-waits c attempt seen last (returned a) go w m = absurd w
  round-waits c attempt seen last (raised e) go w m =
      let h = handle-waits c attempt seen last (catch_for e) e go w m in (e, refl, h.0, h.1)

  round-final :
      (c : Calls A) (attempt : ℕ) (seen : Bool) (last : Option CallError) (o : Outcome A)
      (go : Bool → Option CallError → Run A)
      → IsFinal o
      → round c attempt seen last o go ≡ stop o
  unfolding round handle
  round-final c attempt seen last (returned a) go w = refl
  round-final c attempt seen last (raised e) go w = rw w

  retry_loop-prefix :
      (c : Calls A) (k left attempt : ℕ) (seen : Bool) (last : Option CallError)
      → k < left
      → left + attempt ≡ suc max_retries
      → ((j : ℕ) → j < k → FailsTransiently (c.call (attempt + j)))
      → IsFinal (c.call (attempt + k))
      → ((retry_loop c left attempt seen last).outcome ≡ c.call (attempt + k))
        × ((retry_loop c left attempt seen last).calls ≡ k + 1)
  unfolding retry_loop
  retry_loop-prefix c k zero attempt seen last lt n fails final = absurd (omega arith)
  retry_loop-prefix c zero (suc left) attempt seen last lt n fails final =
      rw (round-final c attempt seen last (c.call attempt) _ (rw add-zero at final))
        (rw add-zero (refl, omega arith))
  retry_loop-prefix c (suc k) (suc left) attempt seen last lt n fails final =
      let (e, q, o, m) =
        round-waits c attempt seen last (c.call attempt) (retry_loop c left (attempt + 1))
          (rw add-zero at (fails 0 (omega arith)))
          (more left attempt (omega arith) (omega arith)) in
      let (o', m') =
        retry_loop-prefix c k left (attempt + 1) seen (some e) (omega arith) (omega arith)
          (λ j h.
            subst (λ i. FailsTransiently (c.call i)) (omega arith) (fails (suc j) (omega arith)))
          (subst (λ i. IsFinal (c.call i)) (omega arith) final) in
      (o ∙ o' ∙ ap c.call (omega arith), omega (arith, m, m'))

  -- After fewer than six transient failures the loop returns or raises what the next call does, if
  -- that is a value or an error that it does not catch, and makes no further call.
  pub with_retry_prefix :
      (c : Calls A) (k : ℕ)
      → k < max_retries
      → ((j : ℕ) → j < k → FailsTransiently (c.call (1 + j)))
      → IsFinal (c.call (1 + k))
      → ((with_retry c).outcome ≡ c.call (1 + k)) × ((with_retry c).calls ≡ k + 1)
  unfolding with_retry
  with_retry_prefix c k lt fails final =
      retry_loop-prefix c k max_retries 1 false none lt (omega arith) fails final

  abbrev RaisedLast : Calls A → ℕ → ℕ → Option CallError → Outcome A → Type 0
  RaisedLast c zero attempt last o =
      o ≡ raised (or_else last (timeout_of "Exhausted retries with no recorded exception."))
  RaisedLast c (suc k) attempt last o =
      (e : CallError) × (c.call (attempt + k) ≡ raised e) × (o ≡ raised e)

  module _ (c : Calls A) (on : c.on_auth_failure ≡ some true) where
    RaisedLast-next :
        (k attempt : ℕ) (e : CallError) (last : Option CallError) (o : Outcome A)
        → c.call attempt ≡ raised e
        → RaisedLast c k (attempt + 1) (some e) o
        → RaisedLast c (suc k) attempt last o
    RaisedLast-next zero attempt e last o q h = (e, rw add-zero q, h)
    RaisedLast-next (suc k) attempt e last o q h = (h.0, ap c.call (omega arith) ∙ h.1, h.2)

    retry_loop-masked :
        (k attempt : ℕ) (last : Option CallError) (e : CallError)
        → k + attempt ≡ max_retries
        → ((j : ℕ) → j < k → FailsTransiently (c.call (attempt + j)))
        → c.call (attempt + k) ≡ raised e
        → catch_for e ≡ catch_auth
        → RaisedLast c k attempt last (retry_loop c (suc k) attempt false last).outcome
    unfolding retry_loop round handle handle_auth fall_through
    retry_loop-masked zero attempt last e n fails q a =
        let here : c.call attempt ≡ raised e = (rw add-zero at q) in rw (here, a, on) refl
    retry_loop-masked (suc k) attempt last e n fails q a =
        let (e', q', o, m) =
          round-waits c attempt false last (c.call attempt) (retry_loop c (suc k) (attempt + 1))
            (rw add-zero at (fails 0 (omega arith)))
            (more (suc k) attempt (omega arith) (omega arith)) in
        RaisedLast-next k attempt e' last _ q' (
          rw o (
            retry_loop-masked k (attempt + 1) (some e') e (omega arith)
              (λ j h.
                subst (λ i. FailsTransiently (c.call i)) (omega arith)
                  (fails (suc j) (omega arith)))
              (ap c.call (omega arith) ∙ q) a))

    -- Five transient failures and then a first 401, with a re-authentication that succeeds: the loop
    -- is over before the call is tried with the new token, and what it raises is the error of the
    -- fifth call, not the 401.
    pub with_retry_masks_auth :
        (e : CallError)
        → ((j : ℕ) → j < 5 → FailsTransiently (c.call (1 + j)))
        → c.call 6 ≡ raised e
        → catch_for e ≡ catch_auth
        → (e' : CallError) × (c.call 5 ≡ raised e') × ((with_retry c).outcome ≡ raised e')
    unfolding with_retry
    with_retry_masks_auth e fails q a = retry_loop-masked 5 1 none e (omega arith) fails q a
