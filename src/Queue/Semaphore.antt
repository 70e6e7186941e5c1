-- ===== src/Queue/Semaphore.antt =====
-- ecommerce_super/easyecom/queue/concurrency.py: the counter of running jobs per company. The Redis
-- keys `easyecom:concurrency:{company}` are in one-to-one relation with the companies, so the
-- counters are a function of the company; an absent key counts as 0, as `incr`, `decr` and `get`
-- read it. Redis is taken to answer: the handlers of a failing `decr` or `get` are not modelled.
pub mod Slot
pub mod Interleaving
use ecommerce_super.Base.{
  negsuc, ℕ, String, Bool, true, false, Option, none, some, ℤ, pos, ◌+ℤ◌, ◌-ℤ◌, ltb_ℤ, str_eq,
  if◌then◌else◌, ◌==◌,
}

abbrev pub Slots : Type 0
Slots = String → ℤ

abbrev pub update : Slots → String → ℤ → Slots
update slots company v c = if str_eq c company then v else slots c

abbrev pub default_cap : ℕ
default_cap = 4

-- The enabled account, if there is one, with its `max_concurrent_workers`.
unfoldable pub cap_for_company : Option (Option ℕ) → ℕ
cap_for_company none = default_cap
cap_for_company (some none) = default_cap
cap_for_company (some (some cap)) = if cap == 0 then default_cap else cap

-- Redis `INCR` and `DECR`: the new counters, and the value after the step.
unfoldable pub incr : String → Slots → Slots × ℤ
incr company slots = let v = slots company +ℤ pos 1 in (update slots company v, v)

unfoldable pub decr : String → Slots → Slots × ℤ
decr company slots = let v = slots company -ℤ pos 1 in (update slots company v, v)

-- The test by which a slot is refused, `current > cap`.
unfoldable pub over_cap : ℕ → ℤ → Bool
over_cap cap current = ltb_ℤ (pos cap) current

-- What the semaphore does with the answer to `current > cap`.
unfoldable pub slot_answer : Bool → String → Slots → Slots × Bool
slot_answer true company raised = ((decr company raised).0, false)
slot_answer false company raised = (raised, true)

-- Entering `company_concurrency_semaphore`: the counters, and whether the slot was granted.
unfoldable pub acquire : ℕ → String → Slots → Slots × Bool
acquire limit company slots =
    slot_answer (over_cap limit (incr company slots).1) company (incr company slots).0

-- Leaving it, the `finally` block.
unfoldable pub release : String → Slots → Slots
release company slots = (decr company slots).0

unfoldable pub current_count : String → Slots → ℤ
current_count company slots = slots company

-- What is done with the value after the decrement: below 0 the key is deleted, which leaves the
-- counter at 0.
unfoldable pub release_floor : String → Slots → ℤ → Slots × ℤ
release_floor company lowered (pos n) = (lowered, pos n)
release_floor company lowered (negsuc n) = (update lowered company (pos 0), pos 0)

unfoldable pub release_slot : String → Slots → Slots × ℤ
release_slot company slots = release_floor company (decr company slots).0 (decr company slots).1

unfoldable pub reset : String → Slots → Slots
reset company slots = update slots company (pos 0)
