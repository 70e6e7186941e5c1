-- ===== src/Tax/Ownership.antt =====
-- easyecom_tax_rule_map.py: the rows of an item whose templates belong to a company, and the others.
pub mod Stamps
pub mod Companies
use mathlib.Core.Path.{subst}
use ecommerce_super.Base.{
  append_nil, ◌≡◌, refl, sym, ap, ◌∙◌, ◌≢◌, ◌⊎◌, inl, inr, String, Bool, true, false, Option, none,
  some, List, [], ◌∷◌, ◌++◌, length, All, str_eq, eq_iff, arith, if◌then◌else◌, ℤ, Result, ok, err,
  ◌>>=◌, first_returned, ok_injective, Bool-cases, ◌&&◌,
}
use ecommerce_super.Tax.{
  TaxRow, TaxRuleMap, TaxedItem, TaxProduct, TaxResolutionResult, Books, TaxStore, StampPreview,
  preview_stamp,
}
use ecommerce_super.Tax.Resolver.{
  is_own, owner, siblings, stamp_preview, stamp_and_reconcile, by_map, apply_cess, auto_create,
  find_map, resolve_and_stamp_tax, cess_of, unruled,
}

module _ {E : Type 0} (b : Books E) where
  -- The rows of a company, in order.
  unfoldable pub own : String → List TaxRow → List TaxRow
  own company [] = []
  own company (r ∷ rows) = if is_own b company r then r ∷ own company rows else own company rows

  abbrev pub AllOwn : String → List TaxRow → Type 0
  AllOwn company rows = All (λ r. is_own b company r ≡ true) rows

  pub own-append : (c : String) (xs ys : List TaxRow) → own c (xs ++ ys) ≡ own c xs ++ own c ys
  unfolding own
  own-append c [] ys = refl
  own-append c (r ∷ xs) ys = elim (Bool-cases (is_own b c r)) [
    | inl yes_own ↦ rw (yes_own) (ap (λ rest. r ∷ rest) (own-append c xs ys))
    | inr no_own ↦ rw (no_own) (own-append c xs ys)
  ]

  siblings-append :
      (c : String) (xs ys : List TaxRow)
      → siblings b c (xs ++ ys) ≡ siblings b c xs ++ siblings b c ys
  unfolding siblings
  siblings-append c [] ys = refl
  siblings-append c (r ∷ xs) ys = elim (Bool-cases (is_own b c r)) [
    | inl yes_own ↦ rw (yes_own) (siblings-append c xs ys)
    | inr no_own ↦ rw (no_own) (ap (λ rest. r ∷ rest) (siblings-append c xs ys))
  ]

  own-siblings : (c : String) (rows : List TaxRow) → own c (siblings b c rows) ≡ []
  unfolding own siblings
  own-siblings c [] = refl
  own-siblings c (r ∷ rows) = elim (Bool-cases (is_own b c r)) [
    | inl yes_own ↦ rw (yes_own) (own-siblings c rows)
    | inr no_own ↦ rw (no_own, no_own) (own-siblings c rows)
  ]

  siblings-siblings :
      (c : String) (rows : List TaxRow) → siblings b c (siblings b c rows) ≡ siblings b c rows
  unfolding siblings
  siblings-siblings c [] = refl
  siblings-siblings c (r ∷ rows) = elim (Bool-cases (is_own b c r)) [
    | inl yes_own ↦ rw (yes_own) (siblings-siblings c rows)
    | inr no_own ↦ rw (no_own, no_own) (ap (λ rest. r ∷ rest) (siblings-siblings c rows))
  ]

  pub own_all : (c : String) (rows : List TaxRow) → AllOwn c rows → own c rows ≡ rows
  unfolding own
  own_all c [] all_own = refl
  own_all c (r ∷ rows) (this, all_own) = rw (this) (ap (λ rest. r ∷ rest) (own_all c rows all_own))

  siblings_none : (c : String) (rows : List TaxRow) → AllOwn c rows → siblings b c rows ≡ []
  unfolding siblings
  siblings_none c [] all_own = refl
  siblings_none c (r ∷ rows) (this, all_own) = rw (this) (siblings_none c rows all_own)

  -- A row has one owner.
  one_owner :
      (c other : String) (r : TaxRow) → other ≢ c → is_own b c r ≡ true → is_own b other r ≡ false
  unfolding is_own
  one_owner c other r differ yes_own = owned (owner b r) yes_own
    where
      owned :
          (o : Option String)
          → (elim o [ none ↦ false | some d ↦ str_eq d c ]) ≡ true
          → (elim o [ none ↦ false | some d ↦ str_eq d other ]) ≡ false
      owned none held = cc
      owned (some d) held = ground (arith, eq_iff d c, eq_iff d other)

  own_other :
      (c other : String) (rows : List TaxRow) → other ≢ c → AllOwn c rows → own other rows ≡ []
  unfolding own
  own_other c other [] differ all_own = refl
  own_other c other (r ∷ rows) differ (this, all_own) =
      rw (one_owner c other r differ this) (own_other c other rows differ all_own)

  own-siblings_other :
      (c other : String) (rows : List TaxRow)
      → other ≢ c
      → own other (siblings b c rows) ≡ own other rows
  unfolding own siblings
  own-siblings_other c other [] differ = refl
  own-siblings_other c other (r ∷ rows) differ = elim (Bool-cases (is_own b c r)) [
    | inl yes_own ↦
        rw (yes_own, one_owner c other r differ yes_own) (own-siblings_other c other rows differ)
    | inr no_own ↦ elim (Bool-cases (is_own b other r)) [
      | inl theirs ↦
          rw (no_own, theirs) (ap (λ rest. r ∷ rest) (own-siblings_other c other rows differ))
      | inr not_theirs ↦ rw (no_own, not_theirs) (own-siblings_other c other rows differ)
    ]
  ]

  -- What a stamp of `rows` makes of the taxes `before`.
  abbrev pub Replaced : String → List TaxRow → List TaxRow → List TaxRow → Type 0
  Replaced c rows before after =
      (own c after ≡ rows)
      × (siblings b c after ≡ siblings b c before)
      × ((other : String) → other ≢ c → own other after ≡ own other before)

  pub replaced :
      (c : String) (rows before : List TaxRow)
      → AllOwn c rows
      → Replaced c rows before (siblings b c before ++ rows)
  replaced c rows before all_own = (
    own-append c (siblings b c before) rows
        ∙ ap (λ xs. xs ++ own c rows) (own-siblings c before)
        ∙ own_all c rows all_own,
    siblings-append c (siblings b c before) rows
        ∙ ap (λ xs. xs ++ siblings b c rows) (siblings-siblings c before)
        ∙ ap (λ xs. siblings b c before ++ xs) (siblings_none c rows all_own)
        ∙ append_nil (siblings b c before),
    λ other differ.
        own-append other (siblings b c before) rows
        ∙ ap (λ xs. xs ++ own other rows) (own-siblings_other c other before differ)
        ∙ ap (λ xs. own other before ++ xs) (own_other c other rows differ all_own)
        ∙ append_nil (own other before),
  )

  -- The rows of every map belong to its company.
  abbrev pub OwnMaps : List TaxRuleMap → Type 0
  OwnMaps maps = All (λ m. AllOwn (m.company) (m.taxes)) maps

  pub find_map-AllOwn :
      (rule c : String) (maps : List TaxRuleMap) {m : TaxRuleMap}
      → OwnMaps maps
      → find_map rule c maps ≡ some m
      → AllOwn c (m.taxes)
  find_map-AllOwn rule c [] owned found = cc
  find_map-AllOwn rule c (n ∷ maps) {m} (this, owned) found =
      here (str_eq (n.tax_rule_name) rule && str_eq (n.company) c) refl found
        (λ same. find_map-AllOwn rule c maps owned same)
    where
      some_same : {x y : TaxRuleMap} → some x ≡ some y → x ≡ y
      some_same same = cc

      company_is : (str_eq (n.tax_rule_name) rule && str_eq (n.company) c) ≡ true → n.company ≡ c
      company_is matched = ground (arith, eq_iff (n.company) c)

      here :
          (t : Bool)
          → (str_eq (n.tax_rule_name) rule && str_eq (n.company) c) ≡ t
          → (if t then some n else find_map rule c maps) ≡ some m
          → (find_map rule c maps ≡ some m → AllOwn c (m.taxes))
          → AllOwn c (m.taxes)
      here true matched same later =
          subst (λ x. AllOwn c (x.taxes)) (some_same same)
            (subst (λ d. AllOwn d (n.taxes)) (company_is matched) this)
      here false matched same later = later same

  pub auto_create-OwnMaps :
      (rule c : String) (maps : List TaxRuleMap) (m : TaxRuleMap)
      → m.taxes ≡ []
      → OwnMaps maps
      → OwnMaps (maps ++ (m ∷ []))
  auto_create-OwnMaps rule c [] m empty owned = (subst (AllOwn (m.company)) (sym empty) tt, tt)
  auto_create-OwnMaps rule c (n ∷ maps) m empty (this, owned) =
      (this, auto_create-OwnMaps rule c maps m empty owned)
