-- ===== src/Base/Lists.antt =====
-- Lists measured by native numbers, and association lists keyed by text.
use Prim.Native.Nat.{ℕ, zero, suc, ◌+◌}
use Prim.Native.String.{String}
use mathlib.Core.Path.{◌≡◌, refl, ap}
use mathlib.Core.Bool.{Bool, true, false, ◌||◌}
use mathlib.Core.List.{List, [], ◌∷◌, ◌++◌}
use mathlib.Core.Option.{Option, none, some}
use native.Mathlib.Omega.{arith}
use text.Mathlib.TextEquality.{eq_iff}
use text.Mathlib.Text.{◌==◌ as text_eq}

module _ {ℓ} {A : Type ℓ} where
  abbrev pub length : List A → ℕ
  length [] = 0
  length (x ∷ xs) = suc (length xs)

  abbrev pub get_elem? : List A → ℕ → Option A
  get_elem? [] i = none
  get_elem? (x ∷ xs) zero = some x
  get_elem? (x ∷ xs) (suc i) = get_elem? xs i

  pub length-append : (xs ys : List A) → length (xs ++ ys) ≡ length xs + length ys
  length-append [] ys = omega arith
  length-append (x ∷ xs) ys = omega (arith, length-append xs ys)

-- `k in xs` on a list of texts.
abbrev pub has : String → List String → Bool
has k [] = false
has k (x ∷ xs) = text_eq x k || has k xs

-- `d.get(k)` on a dict that is written as a list of its items.
module _ {ℓ} {V : Type ℓ} where
  abbrev pub lookup : String → List (String × V) → Option V
  lookup k [] = none
  lookup k ((j, v) ∷ m) = elim (text_eq j k) [ true ↦ some v | false ↦ lookup k m ]

-- A property of every item.
abbrev pub All {ℓ κ} : {A : Type ℓ} → (A → Type κ) → List A → Type κ
All P [] = Unit
All P (x ∷ xs) = P x × All P xs

module _ {ℓ} {V : Type ℓ} where
  pub lookup_hit :
      (k j : String) (v : V) (m : List (String × V))
      → text_eq j k ≡ true
      → lookup k ((j, v) ∷ m) ≡ some v
  lookup_hit k j v m same = rw (lookup, same) refl

  pub lookup_miss :
      (k j : String) (v : V) (m : List (String × V))
      → text_eq j k ≡ false
      → lookup k ((j, v) ∷ m) ≡ lookup k m
  lookup_miss k j v m other = rw (lookup, other) refl

-- `d[k] = v` on a dict that is written as a list of its items.
module _ {ℓ} {V : Type ℓ} where
  unfoldable pub put_at : String → V → List (String × V) → List (String × V)
  put_at k v [] = (k, v) ∷ []
  put_at k v ((j, w) ∷ m) =
      let rest = put_at k v m in elim (text_eq j k) [ true ↦ (j, v) ∷ m | false ↦ (j, w) ∷ rest ]

  abbrev pub is_there : String → List (String × V) → Bool
  is_there k m = elim (lookup k m) [ none ↦ false | some v ↦ true ]

  pub lookup-put_at :
      (i k : String) (v : V) (m : List (String × V))
      → lookup i (put_at k v m) ≡ (elim (text_eq k i) [ true ↦ some v | false ↦ lookup i m ])
  unfolding put_at
  lookup-put_at i k v [] = refl
  lookup-put_at i k v ((j, w) ∷ m) =
      ground (arith, eq_iff j k, eq_iff k i, eq_iff j i, lookup-put_at i k v m)

  pub put_at_hit :
      (k j : String) (v w : V) (m : List (String × V))
      → text_eq j k ≡ true
      → put_at k v ((j, w) ∷ m) ≡ (j, v) ∷ m
  unfolding put_at
  put_at_hit k j v w m same = rw (put_at, same) refl

  pub put_at_miss :
      (k j : String) (v w : V) (m : List (String × V))
      → text_eq j k ≡ false
      → put_at k v ((j, w) ∷ m) ≡ (j, w) ∷ put_at k v m
  unfolding put_at
  put_at_miss k j v w m other = rw (put_at, other) refl

pub append_nil {ℓ} : {A : Type ℓ} (xs : List A) → xs ++ [] ≡ xs
append_nil [] = refl
append_nil (x ∷ xs) = ap (λ rest. x ∷ rest) (append_nil xs)
