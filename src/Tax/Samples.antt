-- ===== src/Tax/Samples.antt =====
-- easyecom_tax_rule_map.py: test_resolve, a dry run on a sample rate.
use ecommerce_super.Base.{
  String, Bool, true, false, ◌||◌, Option, none, some, List, [], ◌∷◌, str_eq, if◌then◌else◌, ℤ, pos,
  Result, ok, err,
}
use ecommerce_super.Payload.{Json, null, text}
use ecommerce_super.Tax.{
  TaxRow, TaxRuleMap, Discrepancy, Books, TaxStore, RateGiven, not_given, unreadable, given,
  reconcile_rate, read_number, preview_stamp,
}

-- What a dry run answers: that it cannot say, or what would be stamped and whether the rates agree.
pub data DryRun : Type 0 where
  not_found : DryRun
  rate_not_a_number cess_not_a_number : (value : Json) → DryRun
  verdict :
      (rows : List TaxRow) (is_mapped : Bool) (cess : ℤ) (reconciled : Bool)
      (discrepancies : List Discrepancy)
      → DryRun

abbrev pub map_named : String → List TaxRuleMap → Option TaxRuleMap
map_named n [] = none
map_named n (m ∷ maps) = if str_eq (m.name) n then some m else map_named n maps

-- `value in (None, "", "None")`
abbrev pub is_blank_sample : Json → Bool
is_blank_sample null = true
is_blank_sample (text s) = str_eq s "" || str_eq s "None"
is_blank_sample _ = false

module _ {E : Type 0} (b : Books E) where
  abbrev pub sample_of : Json → RateGiven
  sample_of value = if is_blank_sample value then not_given else read_number b value (b.float value)

  abbrev pub dry_run : List TaxRow → RateGiven → RateGiven → DryRun
  dry_run rows (unreadable value) cess = rate_not_a_number value
  dry_run rows rate (unreadable value) = cess_not_a_number value
  dry_run rows rate not_given =
      let (reconciled, discrepancies) = reconcile_rate rate (preview_stamp b rows) in
      verdict ((preview_stamp b rows).rows_to_stamp) ((preview_stamp b rows).is_mapped) (pos 0)
        reconciled discrepancies
  dry_run rows rate (given cess) =
      let (reconciled, discrepancies) = reconcile_rate rate (preview_stamp b rows) in
      verdict ((preview_stamp b rows).rows_to_stamp) ((preview_stamp b rows).is_mapped) cess
        reconciled discrepancies

  -- A user without the right to read the map gets `not_permitted`.
  unfoldable pub test_resolve : Bool → E → String → Json → Json → TaxStore → Result E DryRun
  test_resolve may_read not_permitted n sample_tax_rate sample_cess st =
      if may_read
      then ok (elim (map_named n (st.maps)) [
        | none ↦ not_found
        | some m ↦ dry_run (m.taxes) (sample_of sample_tax_rate) (sample_of sample_cess)
      ])
      else err not_permitted
