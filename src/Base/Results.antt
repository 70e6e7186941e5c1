-- ===== src/Base/Results.antt =====
-- A call that returns a value or raises.
use mathlib.Core.Path.{◌≡◌, refl, sym, subst, ap, ◌∙◌}
use mathlib.Core.Bool.{Bool, true, false}
use ecommerce_super.Base.Tests.{if◌then◌else◌}

pub data Result (E A : Type 0) : Type 0 where
  err : (raised : E) → Result E A
  ok : (value : A) → Result E A

module _ {E A B : Type 0} where
  infixl 5 ◌>>=◌
  abbrev pub ◌>>=◌ : (call : Result E A) (then_do : A → Result E B) → Result E B
  err raised >>= then_do = err raised
  ok value >>= then_do = then_do value

  -- What a chain returned went through its first call.
  pub first_returned :
      (call : Result E A) (then_do : A → Result E B) {result : B}
      → (call >>= then_do) ≡ ok result
      → (value : A) × (call ≡ ok value) × (then_do value ≡ ok result)
  first_returned (err raised) then_do returned = cc
  first_returned (ok value) then_do returned = (value, refl, returned)

module _ {E A : Type 0} where
  -- What a call returns, another call returns as well.
  abbrev pub Keeps : Result E A → Result E A → Type 0
  Keeps call other = (value : A) → call ≡ ok value → other ≡ ok value

module _ {E A B : Type 0} where
  -- A chain keeps what it returns when each of its calls does.
  pub keep_chain :
      (call other : Result E A) (then_do then_other : A → Result E B)
      → Keeps call other
      → ((value : A) → Keeps (then_do value) (then_other value))
      → Keeps (call >>= then_do) (other >>= then_other)
  keep_chain (err raised) other then_do then_other keep keeps result returned = cc
  keep_chain (ok value) other then_do then_other keep keeps result returned =
      ap (λ c. c >>= then_other) (keep value refl) ∙ keeps value result returned

  -- A check in front of both.
  pub keep_after :
      (call : Result E A) (then_do then_other : A → Result E B)
      → ((value : A) → Keeps (then_do value) (then_other value))
      → Keeps (call >>= then_do) (call >>= then_other)
  keep_after call then_do then_other keeps =
      keep_chain call call then_do then_other (λ value same. same) keeps

module _ {E A : Type 0} where
  -- What comes after a guard that raises.
  pub passed_guard :
      (b : Bool) (raised : E) {call : Result E A} {value : A}
      → (if b then err raised else call) ≡ ok value
      → call ≡ ok value
  passed_guard true raised returned = cc
  passed_guard false raised returned = returned

  -- A check that lets what follows run, or raises.
  pub passed_check :
      (b : Bool) (raised : E) {call : Result E A} {value : A}
      → (if b then call else err raised) ≡ ok value
      → (b ≡ true) × (call ≡ ok value)
  passed_check true raised returned = (refl, returned)
  passed_check false raised returned = cc

module _ {E A : Type 0} where
  pub err_injective : {a b : E} → Path (Result E A) (err a) (err b) → a ≡ b
  err_injective same = cc

  pub ok_injective : {a b : A} → Path (Result E A) (ok a) (ok b) → a ≡ b
  ok_injective same = cc

  -- What holds of the value that a call returned holds of that value, however it is named.
  pub at_value : {a b : A} (P : A → Type 0) → Path (Result E A) (ok a) (ok b) → P b → P a
  at_value P same holds = subst P (sym (ok_injective same)) holds

module _ {E A : Type 0} where
  -- The branch of a test whose value is known.
  pub taken :
      (b : Bool) {call : Result E A} (other : Result E A) {value : A}
      → b ≡ true
      → (if b then call else other) ≡ ok value
      → call ≡ ok value
  taken true other holds returned = returned
  taken false other holds returned = cc

  pub left_out :
      (b : Bool) (call : Result E A) {other : Result E A} {value : A}
      → b ≡ false
      → (if b then call else other) ≡ ok value
      → other ≡ ok value
  left_out true call fails returned = cc
  left_out false call fails returned = returned

  pub guard_false :
      (b : Bool) (raised : E) (call : Result E A) {value : A}
      → (if b then err raised else call) ≡ ok value
      → b ≡ false
  guard_false true raised call returned = cc
  guard_false false raised call returned = refl
