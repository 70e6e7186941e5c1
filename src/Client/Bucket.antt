-- ===== src/Client/Bucket.antt =====
-- ecommerce_super/easyecom/client/rate_limit.py: the token bucket and the daily quota of an account.
-- Redis is a map from raw keys to numbers. `get_value` and `set_value` of `frappe.cache()` reach a key
-- through `make_key`, `incr` and `decr` reach it as it is (ecommerce_super/easyecom/queue/concurrency.py
-- documents this); `make_key` is Frappe's and so a parameter. Times are ticks, `second` to a second.
-- A cached value that is no number is not modelled.
pub mod Prefixed
use ecommerce_super.Base.{
  ℕ, ◌+◌, ◌-◌, ◌*◌, ◌/◌, max, String, Bool, true, false, ◌&&◌, not, Option, none, some, List, [],
  ◌∷◌, ltb, ◌==◌, str_eq, if◌then◌else◌, lookup, ℤ, pos, pos_part, ◌+ℤ◌, ◌-ℤ◌, leb_ℤ,
}
use ecommerce_super.Errors.{EasyError, rate_limit_error}

-- The cache keys: easyecom:rate:{account}:{location}:tokens, …:refilled, easyecom:quota:{account}:{day}.
pub data Key : Type 0 where
  tokens refilled quota : String → String → Key

-- A key of Redis: one that the program writes out, or one under the site's prefix.
pub data RawKey : Type 0 where
  plain prefixed : Key → RawKey

abbrev pub same_key : Key → Key → Bool
same_key (tokens a b) (tokens c d) = str_eq a c && str_eq b d
same_key (refilled a b) (refilled c d) = str_eq a c && str_eq b d
same_key (quota a b) (quota c d) = str_eq a c && str_eq b d
same_key _ _ = false

abbrev pub same_raw : RawKey → RawKey → Bool
same_raw (plain k) (plain j) = same_key k j
same_raw (prefixed k) (prefixed j) = same_key k j
same_raw _ _ = false

abbrev pub Cache : Type 0
Cache = RawKey → Option ℤ

abbrev pub put : RawKey → ℤ → Cache → Cache
put k v cache j = if same_raw k j then some v else cache j

-- A missing number counts as 0.
abbrev pub number : Option ℤ → ℤ
number none = pos 0
number (some v) = v

-- Redis `INCR` and `DECR`.
unfoldable pub incr : Key → Cache → Cache
incr k cache = put (plain k) (number (cache (plain k)) +ℤ pos 1) cache

unfoldable pub decr : Key → Cache → Cache
decr k cache = put (plain k) (number (cache (plain k)) -ℤ pos 1) cache

pub record Tier : Type 0 where
  pub rate : ℕ
  pub burst : ℕ
  pub daily_quota : ℕ

abbrev pub tier_limits : List (String × Tier)
tier_limits =
    ("Default", record { rate = 5; burst = 10; daily_quota = 500 })
    ∷ ("Bronze", record { rate = 5; burst = 10; daily_quota = 50_000 })
    ∷ ("Silver", record { rate = 20; burst = 40; daily_quota = 200_000 })
    ∷ ("Gold", record { rate = 30; burst = 60; daily_quota = 300_000 })
    ∷ ("Diamond", record { rate = 30; burst = 60; daily_quota = 500_000 })
    ∷ []

-- The tier of an account by its field; `none` is the `ValidationError` of a missing or unknown tier.
unfoldable pub tier_for_account : Option String → Option Tier
tier_for_account none = none
tier_for_account (some tier) = lookup tier tier_limits

-- The key of a bucket: an absent or empty location is `_account`.
abbrev pub location_of : Option String → String
location_of none = "_account"
location_of (some l) = if str_eq l "" then "_account" else l

-- One turn of the spin loop: the time that `_refill` reads, and the time of the deadline check.
pub record Turn : Type 0 where
  pub refill_at : ℕ
  pub checked_at : ℕ

pub data Answer : Type 0 where
  granted : Answer
  refused : EasyError → Answer
  waiting : Answer

-- One call of `acquire_token`: its day, the clock when it starts, and its turns, of which there is
-- one at least.
pub record Attempt : Type 0 where
  pub day : String
  pub until_midnight : ℕ
  pub start : ℕ
  pub first : Turn
  pub more : List Turn

-- `min(burst, v)`
unfoldable pub at_most : ℕ → ℤ → ℤ
at_most burst v = if leb_ℤ (pos burst) v then pos burst else v

module _ (make_key : Key → RawKey) (second : ℕ) where
  abbrev pub get_value : Key → Cache → Option ℤ
  get_value k cache = cache (make_key k)

  abbrev pub set_value : Key → ℤ → Cache → Cache
  set_value k v cache = put (make_key k) v cache

  -- `_refill` from the time of the last refill on.
  unfoldable pub refill_since : Tier → String → String → ℕ → Option ℤ → Cache → Cache
  refill_since t a l now none cache =
      set_value (refilled a l) (pos now) (set_value (tokens a l) (pos t.burst) cache)
  refill_since t a l now (some last) cache =
      let add = (now - pos_part last) * t.rate / second in
      if add == 0
      then cache
      else set_value (refilled a l) (pos now) (
          set_value (tokens a l)
            (at_most t.burst (number (get_value (tokens a l) cache) +ℤ pos add)) cache)

  unfoldable pub refill : Tier → String → String → ℕ → Cache → Cache
  unfolding refill_since
  refill t a l now cache = refill_since t a l now (get_value (refilled a l) cache) cache

  unfoldable pub current_daily_quota : String → String → Cache → ℤ
  current_daily_quota a day cache = number (get_value (quota a day) cache)

  unfoldable pub bump_quota : String → String → Cache → Cache
  unfolding incr
  bump_quota a day cache = incr (quota a day) cache

  -- `tokens_int`: the bucket counts as full where the cache has no number.
  abbrev pub tokens_int : Tier → Option ℤ → ℤ
  tokens_int t none = pos t.burst
  tokens_int t (some v) = v

  -- A token is taken if there is one.
  unfoldable pub take_token : String → String → String → Bool → Cache → Cache × Bool
  unfolding decr bump_quota
  take_token a l day true cache = (bump_quota a day (decr (tokens a l) cache), true)
  take_token a l day false cache = (cache, false)

  unfoldable pub try_token : Tier → String → String → String → ℕ → Cache → Cache × Bool
  unfolding refill take_token
  try_token t a l day now cache =
      let c = refill t a l now cache in
      take_token a l day (leb_ℤ (pos 1) (tokens_int t (get_value (tokens a l) c))) c

  abbrev pub not_granted : EasyError
  not_granted = record {
    cls = rate_limit_error;
    message = "Rate limit not granted before the deadline.";
    retry_after = some (pos 2);
  }

  abbrev pub quota_exhausted : ℕ → EasyError
  quota_exhausted wait = record {
    cls = rate_limit_error;
    message = "Daily quota exhausted.";
    retry_after = some (pos wait);
  }

  -- The spin loop over the turns that the clock allows; `waiting` is a loop that is not over yet.
  unfoldable pub spin : Tier → String → String → String → ℕ → List Turn → Cache → Cache × Answer
  unfolding try_token
  spin t a l day deadline [] cache = (cache, waiting)
  spin t a l day deadline (turn ∷ turns) cache =
      let (c, got) = try_token t a l day turn.refill_at cache in
      let rest = spin t a l day deadline turns c in
      if got
      then (c, granted)
      else if ltb deadline turn.checked_at
      then (c, refused not_granted)
      else rest

  -- `acquire_token` of an account with tier `t`; `start` is the clock when the deadline is set, and
  -- `until_midnight` the seconds to the next UTC day.
  unfoldable pub acquire_token :
      Tier → String → Option String → String → ℕ → ℕ → List Turn → Cache → Cache × Answer
  unfolding spin current_daily_quota
  acquire_token t a location day until_midnight start turns cache =
      if leb_ℤ (pos t.daily_quota) (current_daily_quota a day cache)
      then (cache, refused (quota_exhausted (max until_midnight 1)))
      else spin t a (location_of location) day
          (start + max (t.burst * second / max t.rate 1) (2 * second)) turns cache

  -- Calls for one account and location, one after the other: the cache and the answers.
  unfoldable pub acquire_all :
      Tier → String → Option String → List Attempt → Cache → Cache × List Answer
  acquire_all t a location [] cache = (cache, [])
  acquire_all t a location (x ∷ xs) cache =
      let (c, answer) =
        acquire_token t a location x.day x.until_midnight x.start (x.first ∷ x.more) cache in
      let (d, answers) = acquire_all t a location xs c in (d, answer ∷ answers)
