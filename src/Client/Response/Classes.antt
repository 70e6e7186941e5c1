-- ===== src/Client/Response/Classes.antt =====
-- ecommerce_super/easyecom/client/client.py: which clause of the retry loop takes the error of a reply.
use ecommerce_super.Base.{
  ℕ, ◌≤◌, ◌<◌, String, ◌≡◌, refl, sym, ◌∙◌, ◌≢◌, ◌⊎◌, inl, inr, true, false, ◌&&◌, Option, none,
  some, arith, ltb, leb, ◌==◌, if◌then◌else◌, Bool-cases,
}
use ecommerce_super.Errors.{EasyError, validation_error, is_instance}
use ecommerce_super.Payload.{Json}
use ecommerce_super.Client.Retry.{
  StatusClass, success, transient, auth, permanent, rate_limit, classify_response, Outcome,
  returned, raised, ecs, Catch, catch_for, catch_auth, catch_rate_limit, catch_transient, uncaught,
}
use ecommerce_super.Client.Response.{
  is_duplicate, Reply, class_of_code, body_code, demoted, status_class, conclude, do_call,
  logged_class, exception_for_status, is_success,
}

-- The clause for a failure by its code alone.
abbrev pub clause_of_code : ℕ → Catch
clause_of_code n =
    if n == 401
    then catch_auth
    else if n == 429
    then catch_rate_limit
    else if leb 500 n && ltb n 600
    then catch_transient
    else uncaught

abbrev pub or_code : Option ℕ → ℕ → ℕ
or_code none n = n
or_code (some m) n = m

classify-class_of_code :
    (n : ℕ)
    → ((classify_response n ≡ success) × ((200 ≤ n) × (n < 300)))
      ⊎ ((classify_response n ≡ class_of_code n) × ((n < 200) ⊎ (300 ≤ n)))
unfolding classify_response
classify-class_of_code n = ground arith

class_of_code-fails : (n : ℕ) → class_of_code n ≢ success
class_of_code-fails n = ground arith

module _ (repr : Json → String) where
  -- A call raised an error that the clause for a code takes.
  pub record IsCaught (n : ℕ) (o : Outcome Json) : Type 0 where
    pub error : EasyError
    pub is_raised : o ≡ raised (ecs error)
    pub clause : catch_for (ecs error) ≡ clause_of_code n

  conclude-IsCaught :
      (r : Reply) (endpoint : String) (n : ℕ) (c : StatusClass)
      → class_of_code n ≡ c
      → c ≢ success
      → IsCaught n (conclude repr r endpoint c)
  unfolding conclude catch_for is_instance
  conclude-IsCaught r endpoint n success q h = absurd (h refl)
  conclude-IsCaught r endpoint n auth q h = record {
    error = _;
    is_raised = refl;
    clause = ground (arith, q);
  }
  conclude-IsCaught r endpoint n rate_limit q h = record {
    error = _;
    is_raised = refl;
    clause = ground (arith, q);
  }
  conclude-IsCaught r endpoint n transient q h = record {
    error = _;
    is_raised = refl;
    clause = ground (arith, q);
  }
  conclude-IsCaught r endpoint n permanent q h = elim (Bool-cases (is_duplicate repr r.body)) [
    | inl e ↦ rw e (record { error = _; is_raised = refl; clause = ground (arith, q) })
    | inr e ↦ rw e (record { error = _; is_raised = refl; clause = ground (arith, q) })
  ]

  -- How a class, the failing code of a body and an HTTP status go together.
  abbrev Classified : StatusClass → Option ℕ → ℕ → Type 0
  Classified c o s =
      ((c ≡ success) × ((200 ≤ s) × ((s < 300) × (o ≡ none))))
      ⊎ ((n : ℕ) × ((class_of_code n ≡ c)
            × (((o ≡ some n) × ((200 ≤ s) × (s < 300))) ⊎ ((n ≡ s) × ((s < 200) ⊎ (300 ≤ s))))))

  demoted-Classified :
      (c : StatusClass) (o : Option ℕ) (s : ℕ)
      → ((c ≡ success) × ((200 ≤ s) × (s < 300)))
        ⊎ ((c ≡ class_of_code s) × ((s < 200) ⊎ (300 ≤ s)))
      → Classified (demoted repr c o) o s
  unfolding demoted
  demoted-Classified success none s (inl h) = inl (refl, (h.1.0, (h.1.1, refl)))
  demoted-Classified success (some n) s (inl h) = inr (n, (refl, inl (refl, h.1)))
  demoted-Classified success o s (inr e) = absurd (class_of_code-fails s (sym e.0))
  demoted-Classified auth o s (inr e) = inr (s, (sym e.0, inr (refl, e.1)))
  demoted-Classified rate_limit o s (inr e) = inr (s, (sym e.0, inr (refl, e.1)))
  demoted-Classified transient o s (inr e) = inr (s, (sym e.0, inr (refl, e.1)))
  demoted-Classified permanent o s (inr e) = inr (s, (sym e.0, inr (refl, e.1)))
  demoted-Classified _ o s (inl h) = absurd (cc h.0)

  status_class-Classified :
      (r : Reply) → Classified (status_class repr r) (body_code repr r.body) r.status_code
  unfolding status_class
  status_class-Classified r =
      demoted-Classified (classify_response r.status_code) (body_code repr r.body) r.status_code
        (classify-class_of_code r.status_code)

  conclude_success :
      (r : Reply) (endpoint : String) → conclude repr r endpoint success ≡ returned r.body
  unfolding conclude
  conclude_success r endpoint = refl

  -- A call returns the body of a reply of HTTP status 2xx whose body has no failing code. Otherwise it
  -- raises an error, and the retry loop takes it by the clause for the failing code of the body if the
  -- status is 2xx, and for the status if it is not.
  pub do_call-IsCaught :
      (r : Reply) (endpoint : String)
      → ((do_call repr r endpoint ≡ returned r.body)
          × ((200 ≤ r.status_code) × ((r.status_code < 300) × (body_code repr r.body ≡ none))))
        ⊎ ((n : ℕ) × (IsCaught n (do_call repr r endpoint)
              × (((body_code repr r.body ≡ some n)
                    × ((200 ≤ r.status_code) × (r.status_code < 300)))
                  ⊎ ((n ≡ r.status_code) × ((r.status_code < 200) ⊎ (300 ≤ r.status_code))))))
  unfolding do_call
  do_call-IsCaught r endpoint = by_class (status_class repr r) (status_class-Classified r)
    where
      by_class :
          (c : StatusClass)
          → Classified c (body_code repr r.body) r.status_code
          → ((conclude repr r endpoint c ≡ returned r.body)
              × ((200 ≤ r.status_code) × ((r.status_code < 300) × (body_code repr r.body ≡ none))))
            ⊎ ((n : ℕ) × (IsCaught n (conclude repr r endpoint c)
                  × (((body_code repr r.body ≡ some n)
                        × ((200 ≤ r.status_code) × (r.status_code < 300)))
                      ⊎ ((n ≡ r.status_code) × ((r.status_code < 200) ⊎ (300 ≤ r.status_code))))))
      by_class c (inl h) = inl (rw h.0 (conclude_success r endpoint), h.1)
      by_class c (inr h) =
          let (n, (q, from)) = h in
          inr (n, (conclude-IsCaught r endpoint n c q (λ e. class_of_code-fails n (q ∙ e)), from))

  class_of_body :
      (r : Reply) (n : ℕ)
      → 200 ≤ r.status_code
      → r.status_code < 300
      → body_code repr r.body ≡ some n
      → status_class repr r ≡ class_of_code n
  unfolding status_class demoted classify_response
  class_of_body r n low high q =
      let within : (leb 200 r.status_code && ltb r.status_code 300) ≡ true = ground arith in
      rw (q, within) refl

  no_success : (n : ℕ) → is_success (class_of_code n) ≡ false
  no_success n = ground arith

  by_status : (n : ℕ) → 200 ≤ n → n < 300 → exception_for_status n ≡ validation_error
  unfolding exception_for_status
  by_status n low high = ground arith

  -- For a reply of HTTP status 2xx with a failing code, the log record names the class of validation
  -- errors, whatever the code; a credential error, a rate limit and a server error are raised as such.
  pub logged_class-demoted :
      (r : Reply) (endpoint : String) (n : ℕ)
      → 200 ≤ r.status_code
      → r.status_code < 300
      → body_code repr r.body ≡ some n
      → (logged_class repr r ≡ some validation_error) × IsCaught n (do_call repr r endpoint)
  unfolding logged_class do_call
  logged_class-demoted r endpoint n low high q =
      let c = class_of_body r n low high q in
      (
        rw (c, no_success n, by_status r.status_code low high) refl,
        conclude-IsCaught r endpoint n (status_class repr r) (sym c)
            (λ e. class_of_code-fails n (sym c ∙ e)),
      )
