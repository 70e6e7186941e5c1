-- ===== src/Queue/Semaphore/Slot.antt =====
-- ecommerce_super/easyecom/queue/concurrency.py: one caller's use of a slot.
use ecommerce_super.Base.{
  ℕ, ◌+◌, ◌-◌, ◌<◌, String, ◌≡◌, ap, ◌∙◌, inl, inr, Bool, true, false, arith, eq_iff, str_eq,
  if◌then◌else◌, Bool-cases, ℤ, pos, negsuc, ◌-ℤ◌, +ℤ_cancel,
}
use ecommerce_super.Queue.Semaphore.{
  update, release_floor, release_slot, Slots, acquire, release, incr, decr, over_cap, slot_answer,
}

pub decr-incr :
    (company : String) (slots : Slots) (c : String)
    → (decr company (incr company slots).0).0 c ≡ slots c
unfolding incr decr
decr-incr company slots c =
    ground (arith, eq_iff c company, eq_iff company company, +ℤ_cancel (slots company) (pos 1))

-- A refused caller leaves every counter as it found it.
pub acquire-refused :
    (limit : ℕ) (company : String) (slots : Slots) (c : String)
    → (acquire limit company slots).1 ≡ false
    → (acquire limit company slots).0 c ≡ slots c
unfolding acquire slot_answer
acquire-refused limit company slots c h = go (over_cap limit (incr company slots).1) h
  where
    go :
        (over : Bool)
        → (slot_answer over company (incr company slots).0).1 ≡ false
        → (slot_answer over company (incr company slots).0).0 c ≡ slots c
    go true e = decr-incr company slots c
    go false e = cc

-- A granted slot, released, leaves every counter as it was.
pub release-acquire :
    (limit : ℕ) (company : String) (slots : Slots) (c : String)
    → (acquire limit company slots).1 ≡ true
    → release company (acquire limit company slots).0 c ≡ slots c
unfolding acquire release slot_answer
release-acquire limit company slots c h = go (over_cap limit (incr company slots).1) h
  where
    go :
        (over : Bool)
        → (slot_answer over company (incr company slots).0).1 ≡ true
        → release company (slot_answer over company (incr company slots).0).0 c ≡ slots c
    go true e = cc
    go false e = decr-incr company slots c

module _ (company : String) (slots : Slots) (n : ℕ) (h : slots company ≡ pos n) where
  decr-pos : 0 < n → (decr company slots).0 company ≡ pos (n - 1)
  unfolding decr ◌-ℤ◌
  decr-pos some_held = ground (arith, eq_iff company company)

  decr_value : 0 < n → (decr company slots).1 ≡ pos (n - 1)
  unfolding decr ◌-ℤ◌
  decr_value some_held = ground (arith, eq_iff company company)

  pub release_slot-pos : 0 < n → (release_slot company slots).0 company ≡ pos (n - 1)
  unfolding release_slot release_floor
  release_slot-pos some_held = rw (decr_value some_held, release_floor) (decr-pos some_held)

release_slot-other :
    (company c : String) (slots : Slots)
    → str_eq company c ≡ false
    → (release_slot company slots).0 c ≡ slots c
unfolding release_slot release_floor decr
release_slot-other company c slots h = go (slots company -ℤ pos 1)
  where
    go : (v : ℤ) → (release_floor company (update slots company v) v).0 c ≡ slots c
    go (pos n) = ground (arith, eq_iff company c, eq_iff c company)
    go (negsuc n) = ground (arith, eq_iff company c, eq_iff c company)

-- One slot of `company` is given back, and no other company's.
pub released :
    (company c : String) (slots : Slots) (m : ℕ)
    → slots c ≡ pos ((if str_eq company c then 1 else 0) + m)
    → (release_slot company slots).0 c ≡ pos m
released company c slots m h = elim (Bool-cases (str_eq company c)) [
  | inl same ↦
      let here : company ≡ c = (eq_iff company c).0 same in
      rw here (release_slot-pos c slots (1 + m) (rw same at h) (omega arith) ∙ ap pos (omega arith))
  | inr other ↦ release_slot-other company c slots other ∙ rw other at h ∙ ap pos (omega arith)
]
