-- ===== src/Tax/Verdict.antt =====
-- easyecom_tax_rule_map.py: whether the rate of a product agrees with its map.
pub mod DryRuns
use mathlib.Core.Path.{subst}
use ecommerce_super.Base.{
  ◌≡◌, refl, sym, ap, ◌∙◌, ◌≢◌, ◌⊎◌, inl, inr, String, Bool, true, false, Option, none, some, List,
  [], ◌∷◌, All, length, str_eq, eq_iff, if◌then◌else◌, ℤ, ok, first_returned, ok_injective, ◌||◌,
  put_at, put_at_hit, put_at_miss, Bool-cases, left_out,
}
use ecommerce_super.Payload.{Json, null, flag, number, text, array, dict}
use ecommerce_super.Tax.{
  TaxRow, TaxRuleMap, TaxedItem, TaxProduct, TaxResolutionResult, Books, TaxStore, StampPreview,
  preview_stamp, template_rates_from, effective_rate, any_within, within_tolerance, against,
  RateGiven, not_given, unreadable, given, reconcile_rate, read_rate, read_number, is_null,
  Discrepancy,
}
use ecommerce_super.Tax.Resolver.{
  by_map, stamp_and_reconcile, apply_cess, find_map, resolve_and_stamp_tax, cess_of, unruled,
}
use ecommerce_super.Tax.Samples.{
  is_blank_sample, sample_of, DryRun, verdict, dry_run, map_named, test_resolve,
}

module _ {E : Type 0} (b : Books E) where
  -- The template of a row has an effective rate, and it is within the tolerance.
  abbrev pub row_within : ℤ → Option ℤ → Bool
  row_within rate none = false
  row_within rate (some x) = within_tolerance rate x

  unfoldable pub any_row : ℤ → List TaxRow → Bool
  any_row rate [] = false
  any_row rate (r ∷ rows) =
      row_within rate (effective_rate b (r.item_tax_template)) || any_row rate rows

  abbrev Right : List (String × ℤ) → Type 0
  Right rates = All (λ (t, r). effective_rate b t ≡ some r) rates

  put_at-Right :
      (k : String) (v : ℤ) (m : List (String × ℤ))
      → effective_rate b k ≡ some v
      → Right m
      → Right (put_at k v m)
  unfolding put_at
  put_at-Right k v [] is_v right = (is_v, tt)
  put_at-Right k v ((j, w) ∷ m) is_v (this, right) = elim (Bool-cases (str_eq j k)) [
    | inl same ↦
        subst Right (sym (put_at_hit k j v w m same))
          (ap (effective_rate b) ((eq_iff j k).0 same) ∙ is_v, right)
    | inr other ↦
        subst Right (sym (put_at_miss k j v w m other)) (this, put_at-Right k v m is_v right)
  ]

  or_again : (x y : Bool) → x || y ≡ x || (x || y)
  or_again true y = refl
  or_again false y = refl

  or_swap : (x y z : Bool) → x || (y || z) ≡ y || (x || z)
  or_swap true true z = refl
  or_swap true false z = refl
  or_swap false y z = refl

  or_assoc : (x y z : Bool) → (x || y) || z ≡ x || (y || z)
  or_assoc true y z = refl
  or_assoc false y z = refl

  some_same : {x y : ℤ} → some x ≡ some y → x ≡ y
  some_same same = cc

  any_within-put_at :
      (rate : ℤ) (k : String) (v : ℤ) (m : List (String × ℤ))
      → effective_rate b k ≡ some v
      → Right m
      → any_within rate (put_at k v m) ≡ within_tolerance rate v || any_within rate m
  unfolding any_within put_at
  any_within-put_at rate k v [] is_v right = refl
  any_within-put_at rate k v ((j, w) ∷ m) is_v (this, right) = elim (Bool-cases (str_eq j k)) [
    | inl same ↦
        ap (any_within rate) (put_at_hit k j v w m same)
        ∙ or_again (within_tolerance rate v) (any_within rate m)
        ∙ ap (λ x. within_tolerance rate v || (within_tolerance rate x || any_within rate m))
            (some_same (sym is_v ∙ ap (effective_rate b) (sym ((eq_iff j k).0 same)) ∙ this))
    | inr other ↦
        ap (any_within rate) (put_at_miss k j v w m other)
        ∙ ap (λ x. within_tolerance rate w || x) (any_within-put_at rate k v m is_v right)
        ∙ or_swap (within_tolerance rate w) (within_tolerance rate v) (any_within rate m)
  ]

  any_within-template_rates_from :
      (rate : ℤ) (rates : List (String × ℤ)) (rows : List TaxRow)
      → Right rates
      → any_within rate (template_rates_from b rates rows)
        ≡ any_within rate rates || any_row rate rows
  unfolding template_rates_from any_row
  any_within-template_rates_from rate rates [] right = or_none (any_within rate rates)
    where
      or_none : (x : Bool) → x ≡ x || false
      or_none true = refl
      or_none false = refl
  any_within-template_rates_from rate rates (r ∷ rows) right =
      of_row (effective_rate b (r.item_tax_template)) refl
        (λ more right'. any_within-template_rates_from rate more rows right')
    where
      of_row :
          (o : Option ℤ)
          → effective_rate b (r.item_tax_template) ≡ o
          → ((more : List (String × ℤ))
              → Right more
              → any_within rate (template_rates_from b more rows)
                ≡ any_within rate more || any_row rate rows)
          → any_within rate (elim o [
            | none ↦ template_rates_from b rates rows
            | some x ↦ template_rates_from b (put_at (r.item_tax_template) x rates) rows
          ])
            ≡ any_within rate rates || (row_within rate o || any_row rate rows)
      of_row none same later = later rates right
      of_row (some x) same later =
          later (put_at (r.item_tax_template) x rates)
            (put_at-Right (r.item_tax_template) x rates same right)
          ∙ ap (λ t. t || any_row rate rows)
              (any_within-put_at rate (r.item_tax_template) x rates same right)
          ∙ or_assoc (within_tolerance rate x) (any_within rate rates) (any_row rate rows)
          ∙ or_swap (within_tolerance rate x) (any_within rate rates) (any_row rate rows)

  against_within :
      (rate : ℤ) (preview : StampPreview) (rates : List (String × ℤ))
      → (against rate preview rates).0 ≡ any_within rate rates
  unfolding any_within
  against_within rate preview [] = refl
  against_within rate preview (r ∷ rates) = by_test (any_within rate (r ∷ rates)) _
    where
      by_test :
          (t : Bool) (l : List Discrepancy)
          → (if◌then◌else◌ {A = Bool × List Discrepancy} t (true, []) (false, l)).0 ≡ t
      by_test true l = refl
      by_test false l = refl

  pub reconcile_rate-any_row :
      (rate : ℤ) (rows : List TaxRow)
      → (reconcile_rate (given rate) (preview_stamp b rows)).0 ≡ any_row rate rows
  unfolding reconcile_rate preview_stamp any_row any_within
  reconcile_rate-any_row rate [] = refl
  reconcile_rate-any_row rate (r ∷ rows) =
      against_within rate (preview_stamp b (r ∷ rows)) (template_rates_from b [] (r ∷ rows))
      ∙ any_within-template_rates_from rate [] (r ∷ rows) tt

  -- What a resolution says, where there is a map.
  abbrev pub Says : TaxProduct → List TaxRow → TaxResolutionResult → Type 0
  Says p rows result =
      ((rows ≡ []) × (result.reconciled ≡ false) × (result.stamped_count ≡ 0))
      ⊎ ((rows ≢ [])
          × (result.reconciled
              ≡ (reconcile_rate (read_rate b (p.tax_rate)) (preview_stamp b rows)).0)
          × (result.discrepancies
              ≡ (reconcile_rate (read_rate b (p.tax_rate)) (preview_stamp b rows)).1)
          × (result.stamped_count ≡ length rows))

  stamp-Says :
      (p : TaxProduct) (c : String) (m : TaxRuleMap) (cess : ℤ) (item : TaxedItem)
      (rows : List TaxRow)
      → Says p rows (stamp_and_reconcile b p c m (preview_stamp b rows) cess item).0
  unfolding stamp_and_reconcile preview_stamp
  stamp-Says p c m cess item [] = inl (refl, refl, refl)
  stamp-Says p c m cess item (r ∷ rows) = inr (λ same. cc, refl, refl, refl)

  pub resolve_and_stamp_tax-Says :
      (p : TaxProduct) (c : String) (item : TaxedItem) (st : TaxStore) (m : TaxRuleMap)
      {out : TaxResolutionResult × TaxedItem × TaxStore}
      → p.tax_rule_name ≢ ""
      → find_map (p.tax_rule_name) c (st.maps) ≡ some m
      → resolve_and_stamp_tax b p c item st ≡ ok out
      → Says p (m.taxes) (out.0)
  unfolding resolve_and_stamp_tax by_map
  resolve_and_stamp_tax-Says p c item st m {out} ruled found returned =
      let (cess, read, after) = first_returned (cess_of b (p.cess)) _ returned in
      let same = left_out (str_eq (p.tax_rule_name) "") _ (unnamed ruled) after in
      subst (λ o. Says p (m.taxes) (o.0))
        (ap (λ o. by_map b p c o cess (apply_cess b cess item) st) (sym found) ∙ ok_injective same)
        (stamp-Says p c m cess (apply_cess b cess item) (m.taxes))
    where
      unnamed : p.tax_rule_name ≢ "" → str_eq (p.tax_rule_name) "" ≡ false
      unnamed ruled = elim (Bool-cases (str_eq (p.tax_rule_name) "")) [
        | inl same ↦ elim (ruled ((eq_iff (p.tax_rule_name) "").0 same)) [ ]
        | inr other ↦ other
      ]
