-- ===== src/Client/Bucket/Prefixed.antt =====
-- ecommerce_super/easyecom/client/rate_limit.py where `make_key` adds the site's prefix, as
-- ecommerce_super/easyecom/queue/concurrency.py says that Frappe's does.
use ecommerce_super.Base.{
  ℕ, ◌+◌, ◌-◌, ◌*◌, ◌/◌, ◌≤◌, ◌<◌, String, ◌≡◌, refl, ◌∙◌, ◌⊎◌, inl, inr, true, false, Option, none,
  some, List, [], ◌∷◌, arith, eq_refl, leb, ◌==◌, Bool-cases, All, ℤ, pos, pos_part, ◌+ℤ◌,
}
use ecommerce_super.Client.Bucket.{
  spin, granted, current_daily_quota, acquire_token, location_of, acquire_all, Attempt, tokens,
  refilled, quota, prefixed, Cache, at_most, incr, decr, Tier, refill_since, refill, bump_quota,
  take_token, try_token,
}

-- The bucket is full or was never filled, and no day has a quota count under the prefix.
pub record IsUntouched (t : Tier) (a l : String) (cache : Cache) : Type 0 where
  pub bucket :
      (cache (prefixed (refilled a l)) ≡ none)
      ⊎ (cache (prefixed (tokens a l)) ≡ some (pos t.burst))
  pub uncounted : (day : String) → cache (prefixed (quota a day)) ≡ none

at_most-full : (burst add : ℕ) → at_most burst (pos burst +ℤ pos add) ≡ pos burst
unfolding at_most ◌+ℤ◌
at_most-full burst add = ground arith

leb-true : {n : ℕ} → 1 ≤ n → leb (1 + 0) (n + 0) ≡ true
leb-true h = ground arith

no_quota : {n : ℕ} → 0 < n → leb (n + 0) (0 + 0) ≡ false
no_quota h = ground arith

module _ (second : ℕ) (t : Tier) (a l : String) where
  refill_since-full :
      (now : ℕ) (last : Option ℤ) (cache : Cache)
      → (last ≡ none) ⊎ (cache (prefixed (tokens a l)) ≡ some (pos t.burst))
      → (refill_since prefixed second t a l now last cache (prefixed (tokens a l))
          ≡ some (pos t.burst))
        × ((day : String)
            → refill_since prefixed second t a l now last cache (prefixed (quota a day))
              ≡ cache (prefixed (quota a day)))
  unfolding refill_since
  refill_since-full now none cache h = (simp eq_refl, λ day. refl)
  refill_since-full now (some last) cache (inl e) = cc
  refill_since-full now (some last) cache (inr e) =
      elim (Bool-cases ((now - pos_part last) * t.rate / second == 0)) [
        | inl idle ↦ rw idle (e, λ day. refl)
        | inr more ↦ rw more (rw e (simp (eq_refl, at_most-full)), λ day. refl)
      ]

  refill-full :
      (now : ℕ) (cache : Cache)
      → IsUntouched t a l cache
      → (refill prefixed second t a l now cache (prefixed (tokens a l)) ≡ some (pos t.burst))
        × ((day : String) → refill prefixed second t a l now cache (prefixed (quota a day)) ≡ none)
  unfolding refill
  refill-full now cache h =
      let r = refill_since-full now (cache (prefixed (refilled a l))) cache h.bucket in
      (r.0, λ day. r.1 day ∙ h.uncounted day)

  -- One turn of the loop takes a token and writes under no prefixed key.
  try_token-full :
      (day : String) (now : ℕ) (cache : Cache)
      → 1 ≤ t.burst
      → IsUntouched t a l cache
      → let r = try_token prefixed second t a l day now cache in
        (r.1 ≡ true) × IsUntouched t a l r.0
  unfolding try_token take_token incr decr bump_quota
  try_token-full day now cache some_burst h =
      let (full, none_counted) = refill-full now cache h in
      rw (full, leb-true some_burst) (refl, record { bucket = inr full; uncounted = none_counted })

module _ (second : ℕ) (t : Tier) (a : String) (location : Option String) where
  acquire_token-IsUntouched :
      (x : Attempt) (cache : Cache)
      → 1 ≤ t.burst
      → 0 < t.daily_quota
      → IsUntouched t a (location_of location) cache
      → let r =
          acquire_token prefixed second t a location x.day x.until_midnight x.start
            (x.first ∷ x.more)
            cache in
        (r.1 ≡ granted) × IsUntouched t a (location_of location) r.0
  unfolding acquire_token current_daily_quota spin
  acquire_token-IsUntouched x cache some_burst some_quota h =
      let (got, kept) =
        try_token-full second t a (location_of location) x.day x.first.refill_at cache some_burst
          h in
      rw (h.uncounted x.day, no_quota some_quota, got) (refl, kept)

  -- Where `make_key` adds a prefix, and the bucket under it is full or was never filled and no day
  -- is counted under it, every call is granted at once, however many there are and however fast,
  -- for a tier whose burst and daily quota are above 0.
  pub acquire_all-granted :
      (xs : List Attempt) (cache : Cache)
      → 1 ≤ t.burst
      → 0 < t.daily_quota
      → IsUntouched t a (location_of location) cache
      → All (λ answer. answer ≡ granted) (acquire_all prefixed second t a location xs cache).1
  unfolding acquire_all
  acquire_all-granted [] cache some_burst some_quota h = tt
  acquire_all-granted (x ∷ xs) cache some_burst some_quota h =
      let (got, kept) = acquire_token-IsUntouched x cache some_burst some_quota h in
      (got, acquire_all-granted xs _ some_burst some_quota kept)
