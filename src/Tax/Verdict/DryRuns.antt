-- ===== src/Tax/Verdict/DryRuns.antt =====
-- easyecom_tax_rule_map.py: the verdict of a resolution, and that of a dry run of the same map.
use mathlib.Core.Path.{subst}
use ecommerce_super.Base.{
  ◌≡◌, refl, sym, ap, ◌∙◌, ◌≢◌, inl, inr, String, Bool, true, false, none, some, List, [], ◌∷◌,
  length, ℤ, ok, ok_injective,
}
use ecommerce_super.Payload.{Json, null, flag, number, text, array, dict}
use ecommerce_super.Tax.{
  TaxRow, TaxRuleMap, TaxedItem, TaxProduct, TaxResolutionResult, Books, TaxStore, preview_stamp,
  RateGiven, not_given, unreadable, given, reconcile_rate, read_rate, Discrepancy,
}
use ecommerce_super.Tax.Resolver.{find_map, resolve_and_stamp_tax}
use ecommerce_super.Tax.Samples.{
  is_blank_sample, sample_of, DryRun, verdict, dry_run, map_named, test_resolve,
}
use ecommerce_super.Tax.Verdict.{any_row, Says, resolve_and_stamp_tax-Says, reconcile_rate-any_row}

module _ {E : Type 0} (b : Books E) where
  -- For a product with a rule name whose company has a map of the rule with rows, and whose rate is a number, a resolution
  -- that returns reports agreement exactly when some row of the map has a template whose effective rate can be read and is
  -- within the tolerance of the product's.
  pub resolve_and_stamp_tax-any_row :
      (p : TaxProduct) (c : String) (item : TaxedItem) (st : TaxStore) (m : TaxRuleMap) (rate : ℤ)
      {out : TaxResolutionResult × TaxedItem × TaxStore}
      → p.tax_rule_name ≢ ""
      → find_map (p.tax_rule_name) c (st.maps) ≡ some m
      → m.taxes ≢ []
      → read_rate b (p.tax_rate) ≡ given rate
      → resolve_and_stamp_tax b p c item st ≡ ok out
      → out.0.reconciled ≡ any_row b rate (m.taxes)
  resolve_and_stamp_tax-any_row p c item st m rate {out} ruled found full read returned =
      said (resolve_and_stamp_tax-Says b p c item st m ruled found returned)
    where
      said : Says b p (m.taxes) (out.0) → out.0.reconciled ≡ any_row b rate (m.taxes)
      said (inl (empty, disagree, count)) = elim (full empty) [ ]
      said (inr (some_rows, agree, texts, count)) =
          agree
          ∙ ap (λ r. (reconcile_rate r (preview_stamp b (m.taxes))).0) read
          ∙ reconcile_rate-any_row b rate (m.taxes)

  same_reading :
      (value : Json) → is_blank_sample value ≡ false → sample_of b value ≡ read_rate b value
  unfolding read_rate
  same_reading null blank = cc
  same_reading (flag x) blank = refl
  same_reading (number x) blank = refl
  same_reading (text x) blank = rw (blank) refl
  same_reading (array x) blank = refl
  same_reading (dict x) blank = refl

  -- What a dry run that gives a verdict says.
  abbrev pub DrySays : List TaxRow → RateGiven → DryRun → Type 0
  DrySays rows rate (verdict shown is_mapped cess reconciled discrepancies) =
      (shown ≡ (preview_stamp b rows).rows_to_stamp)
      × (reconciled ≡ (reconcile_rate rate (preview_stamp b rows)).0)
      × (discrepancies ≡ (reconcile_rate rate (preview_stamp b rows)).1)
  DrySays rows rate _ = Unit

  dry_run-DrySays :
      (rows : List TaxRow) (rate cess : RateGiven) → DrySays rows rate (dry_run b rows rate cess)
  dry_run-DrySays rows (unreadable value) cess = tt
  dry_run-DrySays rows not_given (unreadable value) = tt
  dry_run-DrySays rows not_given not_given = (refl, refl, refl)
  dry_run-DrySays rows not_given (given cess) = (refl, refl, refl)
  dry_run-DrySays rows (given rate) (unreadable value) = tt
  dry_run-DrySays rows (given rate) not_given = (refl, refl, refl)
  dry_run-DrySays rows (given rate) (given cess) = (refl, refl, refl)

  pub test_resolve-DrySays :
      (n : String) (e : E) (rate cess : Json) (st : TaxStore) (m : TaxRuleMap) {answer : DryRun}
      → map_named n (st.maps) ≡ some m
      → test_resolve b true e n rate cess st ≡ ok answer
      → DrySays (m.taxes) (sample_of b rate) answer
  unfolding test_resolve
  test_resolve-DrySays n e rate cess st m named returned =
      subst (DrySays (m.taxes) (sample_of b rate))
        (ap
            (λ o. elim o [
              | none ↦ DryRun.not_found
              | some x ↦ dry_run b (x.taxes) (sample_of b rate) (sample_of b cess)
            ])
            (sym named)
          ∙ ok_injective returned)
        (dry_run-DrySays (m.taxes) (sample_of b rate) (sample_of b cess))

  preview_rows : (rows : List TaxRow) → (preview_stamp b rows).rows_to_stamp ≡ rows
  unfolding preview_stamp
  preview_rows [] = refl
  preview_rows (r ∷ rows) = refl

  -- The two verdicts on a map with rows.
  both_say :
      (p : TaxProduct) (rows : List TaxRow) (result : TaxResolutionResult) (shown : List TaxRow)
      (is_mapped : Bool) (cess : ℤ) (reconciled : Bool) (discrepancies : List Discrepancy)
      → rows ≢ []
      → is_blank_sample (p.tax_rate) ≡ false
      → DrySays rows
          (sample_of b (p.tax_rate))
          (verdict shown is_mapped cess reconciled discrepancies)
      → Says b p rows result
      → (reconciled ≡ result.reconciled)
        × (discrepancies ≡ result.discrepancies)
        × (length shown ≡ result.stamped_count)
  both_say p rows result shown is_mapped cess reconciled discrepancies full blank dry (inl empty) =
      elim (full (empty.0)) [ ]
  both_say p rows result shown is_mapped cess reconciled discrepancies full blank dry
        (inr (some_rows, agree, texts, count)) =
      (
        dry.1
            ∙ ap (λ r. (reconcile_rate r (preview_stamp b rows)).0)
                (same_reading (p.tax_rate) blank)
            ∙ sym agree,
        dry.2
            ∙ ap (λ r. (reconcile_rate r (preview_stamp b rows)).1)
                (same_reading (p.tax_rate) blank)
            ∙ sym texts,
        ap length (dry.0 ∙ preview_rows rows) ∙ sym count,
      )

  -- When a user who may read a map with rows runs it on a product's rate that is not blank, and the product's company has
  -- that map for the product's rule, the verdict of the dry run, its discrepancies and the number of rows shown are those
  -- of a resolution that returns.
  pub test_resolve-resolve_and_stamp_tax :
      (n : String) (e : E) (cess : Json) (p : TaxProduct) (c : String) (item : TaxedItem)
      (st : TaxStore) (m : TaxRuleMap) {shown : List TaxRow} {is_mapped : Bool} {cess_shown : ℤ}
      {reconciled : Bool} {discrepancies : List Discrepancy}
      {out : TaxResolutionResult × TaxedItem × TaxStore}
      → p.tax_rule_name ≢ ""
      → map_named n (st.maps) ≡ some m
      → find_map (p.tax_rule_name) c (st.maps) ≡ some m
      → m.taxes ≢ []
      → is_blank_sample (p.tax_rate) ≡ false
      → test_resolve b true e n (p.tax_rate) cess st
        ≡ ok (verdict shown is_mapped cess_shown reconciled discrepancies)
      → resolve_and_stamp_tax b p c item st ≡ ok out
      → (reconciled ≡ out.0.reconciled)
        × (discrepancies ≡ out.0.discrepancies)
        × (length shown ≡ out.0.stamped_count)
  test_resolve-resolve_and_stamp_tax n e cess p c item st m {shown} {is_mapped} {cess_shown}
        {reconciled} {discrepancies} {out} ruled named found full blank dry returned =
      both_say p (m.taxes) (out.0) shown is_mapped cess_shown reconciled discrepancies full blank
        (test_resolve-DrySays n e (p.tax_rate) cess st m named dry)
        (resolve_and_stamp_tax-Says b p c item st m ruled found returned)

  -- When a user who may read a map without rows runs it without a rate, a dry run that gives a verdict says that the rates
  -- agree, although every resolution by that map that returns says that they do not and stamps nothing.
  pub test_resolve-disagrees :
      (n : String) (e : E) (cess : Json) (p : TaxProduct) (c : String) (item : TaxedItem)
      (st : TaxStore) (m : TaxRuleMap) {shown : List TaxRow} {is_mapped : Bool} {cess_shown : ℤ}
      {reconciled : Bool} {discrepancies : List Discrepancy}
      {out : TaxResolutionResult × TaxedItem × TaxStore}
      → p.tax_rule_name ≢ ""
      → map_named n (st.maps) ≡ some m
      → find_map (p.tax_rule_name) c (st.maps) ≡ some m
      → m.taxes ≡ []
      → test_resolve b true e n null cess st
        ≡ ok (verdict shown is_mapped cess_shown reconciled discrepancies)
      → resolve_and_stamp_tax b p c item st ≡ ok out
      → (reconciled ≡ true) × (out.0.reconciled ≡ false) × (out.0.stamped_count ≡ 0)
  unfolding reconcile_rate
  test_resolve-disagrees n e cess p c item st m {out} ruled named found empty dry returned =
      let (same_rows, agree, texts) = test_resolve-DrySays n e null cess st m named dry in
      let (refused, zero_count) =
        without_rows (out.0) empty
          (resolve_and_stamp_tax-Says b p c item st m ruled found returned) in
      (agree, refused, zero_count)
    where
      without_rows :
          (result : TaxResolutionResult)
          → m.taxes ≡ []
          → Says b p (m.taxes) result
          → (result.reconciled ≡ false) × (result.stamped_count ≡ 0)
      without_rows result none_there (inl (same, refused, count)) = (refused, count)
      without_rows result none_there (inr (some_rows, agree, texts, count)) =
          elim (some_rows none_there) [ ]
