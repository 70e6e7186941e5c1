-- ===== src/Tests/Tax.antt =====
-- easyecom_tax_rule_map.py: tests of an item that two companies tax.
use ecommerce_super.Base.{
  ◌≡◌, refl, ◌≢◌, length, String, Bool, true, false, Option, none, some, List, [], ◌∷◌, str_eq, ℤ,
  pos, negsuc, Result, ok, err, if◌then◌else◌,
}
use ecommerce_super.Payload.{null, number, text}
use ecommerce_super.Tax.{
  TaxRow, TaxRuleMap, TaxedItem, TaxProduct, TaxResolutionResult, Books, TaxStore, effective_rate,
  Discrepancy,
}
use ecommerce_super.Tax.Resolver.{resolve_and_stamp_tax, resolve_all}
use ecommerce_super.Tax.Samples.{verdict, test_resolve}
use ecommerce_super.Tax.Ownership.Stamps.{Stamped, resolve_and_stamp_tax-Stamped}
use ecommerce_super.Tax.Ownership.Companies.{AllStamped, resolve_all-AllStamped}
use ecommerce_super.Tax.Verdict.{any_row}
use ecommerce_super.Tax.Verdict.DryRuns.{
  resolve_and_stamp_tax-any_row, test_resolve-resolve_and_stamp_tax, test_resolve-disagrees,
}

abbrev row_of : String → TaxRow
row_of template = record {
  item_tax_template = template;
  tax_category = "";
  valid_from = "";
  minimum_net_rate = pos 0;
  maximum_net_rate = pos 0;
}

abbrev map_of : String → String → List TaxRow → TaxRuleMap
map_of n company rows = record {
  name = n;
  tax_rule_name = "GST";
  company = company;
  workflow_state = "Configured";
  taxes = rows;
}

-- `18% - A` has a reverse charge beside its output tax, `5% - B` the two halves. The text `0.18` is a number.
abbrev books : Books String
books = record {
  template_company =
      λ t. if str_eq t "18% - A" then some "A" else if str_eq t "5% - B" then some "B" else none;
  details = λ t.
      if str_eq t "18% - A"
      then some (("Output Tax IGST RCM - A", negsuc 1799) ∷ ("Output Tax IGST - A", pos 1800) ∷ [])
      else if str_eq t "5% - B"
      then some (("Output Tax CGST - B", pos 250) ∷ ("Output Tax SGST - B", pos 250) ∷ [])
      else none;
  float = λ value. elim value [ number n ↦ some n | text s ↦ some (pos 1800) | _ ↦ none ];
  not_a_float = "not a float";
  has_cess_field = true;
  map_name = λ rule company. company;
}

rate_of_a : effective_rate books "18% - A" ≡ some (pos 1800)
unfolding effective_rate ecommerce_super.Tax.is_canonical_output
rate_of_a = refl

rate_of_b : effective_rate books "5% - B" ≡ some (pos 500)
unfolding effective_rate ecommerce_super.Tax.is_canonical_output ecommerce_super.Base.◌+ℤ◌
rate_of_b = refl

abbrev rows_a : List TaxRow
rows_a = row_of "18% - A" ∷ []

abbrev rows_b : List TaxRow
rows_b = row_of "5% - B" ∷ []

abbrev both_maps : TaxStore
both_maps = record { maps = map_of "MA" "A" rows_a ∷ map_of "MB" "B" rows_b ∷ []; notified = [] }

abbrev pan : TaxedItem
pan = record {
  taxes = row_of "5% - B" ∷ row_of "gone" ∷ row_of "18% - A" ∷ [];
  ecs_cess = pos 0;
  flags_cess = pos 0;
}

abbrev sold : TaxProduct
sold = record { tax_rule_name = "GST"; tax_rate = text "0.18"; cess = null }

ruled : sold.tax_rule_name ≢ ""
ruled = λ same. cc

abbrev reached : TaxResolutionResult × TaxedItem × TaxStore
reached = (
  record {
    is_mapped = true;
    auto_created = false;
    map_docname = some "MA";
    stamped_count = 1;
    cess = pos 0;
    reconciled = true;
    discrepancies = [];
  },
  record {
    taxes = row_of "5% - B" ∷ row_of "gone" ∷ row_of "18% - A" ∷ [];
    ecs_cess = pos 0;
    flags_cess = pos 0;
  },
  both_maps,
)

resolved : resolve_and_stamp_tax books sold "A" pan both_maps ≡ ok reached
unfolding resolve_and_stamp_tax ecommerce_super.Mapping.Transforms.truthy
    ecommerce_super.Tax.Resolver.by_map ecommerce_super.Tax.Resolver.stamp_and_reconcile
    ecommerce_super.Tax.preview_stamp ecommerce_super.Tax.reconcile_rate
    ecommerce_super.Tax.Resolver.stamp_preview ecommerce_super.Tax.read_rate
    ecommerce_super.Tax.Resolver.siblings ecommerce_super.Tax.Resolver.apply_cess
    ecommerce_super.Tax.template_rates_from ecommerce_super.Tax.Resolver.is_own effective_rate
    ecommerce_super.Tax.is_canonical_output ecommerce_super.Base.put_at
    ecommerce_super.Tax.any_within
resolved = refl

resolve_and_stamp_tax-Stamped_example : Stamped books sold "A" pan both_maps reached
unfolding ecommerce_super.Tax.Resolver.is_own
resolve_and_stamp_tax-Stamped_example =
    resolve_and_stamp_tax-Stamped books sold "A" pan both_maps (((refl, tt), ((refl, tt), tt)))
      resolved

abbrev last_of : TaxedItem × TaxStore
last_of = (
  record {
    taxes = row_of "gone" ∷ row_of "18% - A" ∷ row_of "5% - B" ∷ [];
    ecs_cess = pos 0;
    flags_cess = pos 0;
  },
  both_maps,
)

both_resolved : resolve_all books sold ("A" ∷ "B" ∷ []) pan both_maps ≡ ok last_of
unfolding resolve_all resolve_and_stamp_tax ecommerce_super.Mapping.Transforms.truthy
    ecommerce_super.Tax.Resolver.by_map ecommerce_super.Tax.Resolver.stamp_and_reconcile
    ecommerce_super.Tax.preview_stamp ecommerce_super.Tax.Resolver.stamp_preview
    ecommerce_super.Tax.Resolver.siblings ecommerce_super.Tax.Resolver.apply_cess
    ecommerce_super.Tax.Resolver.is_own
both_resolved = refl

resolve_all-AllStamped_example :
    AllStamped books sold (both_maps.maps) (last_of.0.taxes) ("A" ∷ "B" ∷ [])
unfolding ecommerce_super.Tax.Resolver.is_own
resolve_all-AllStamped_example =
    resolve_all-AllStamped books sold ("A" ∷ "B" ∷ []) pan both_maps ruled
      ((refl, tt), ((refl, tt), tt)) (refl, (refl, tt)) both_resolved

resolve_and_stamp_tax-any_row_example : true ≡ any_row books (pos 1800) rows_a
unfolding ecommerce_super.Tax.read_rate
resolve_and_stamp_tax-any_row_example =
    resolve_and_stamp_tax-any_row books sold "A" pan both_maps (map_of "MA" "A" rows_a) (pos 1800)
      ruled refl (λ same. cc) refl resolved

dry :
    test_resolve books true "no right" "MA" (text "0.18") null both_maps
    ≡ ok (verdict rows_a true (pos 0) true [])
unfolding test_resolve ecommerce_super.Tax.preview_stamp ecommerce_super.Tax.reconcile_rate
    ecommerce_super.Tax.template_rates_from effective_rate ecommerce_super.Tax.is_canonical_output
    ecommerce_super.Base.put_at ecommerce_super.Tax.any_within
dry = refl

test_resolve-resolve_and_stamp_tax_example :
    (true ≡ reached.0.reconciled)
    × ([] ≡ reached.0.discrepancies)
    × (length rows_a ≡ reached.0.stamped_count)
test_resolve-resolve_and_stamp_tax_example =
    test_resolve-resolve_and_stamp_tax books "MA" "no right" null sold "A" pan both_maps
      (map_of "MA" "A" rows_a) ruled refl refl (λ same. cc) refl dry resolved

abbrev unset : TaxStore
unset = record { maps = map_of "MA" "A" [] ∷ []; notified = [] }

abbrev refused : TaxResolutionResult × TaxedItem × TaxStore
refused = (
  record {
    is_mapped = true;
    auto_created = false;
    map_docname = some "MA";
    stamped_count = 0;
    cess = pos 0;
    reconciled = false;
    discrepancies = Discrepancy.no_rows ∷ [];
  },
  pan,
  unset,
)

unset_resolved : resolve_and_stamp_tax books sold "A" pan unset ≡ ok refused
unfolding resolve_and_stamp_tax ecommerce_super.Mapping.Transforms.truthy
    ecommerce_super.Tax.Resolver.by_map ecommerce_super.Tax.Resolver.stamp_and_reconcile
    ecommerce_super.Tax.preview_stamp ecommerce_super.Tax.Resolver.apply_cess
unset_resolved = refl

unset_dry :
    test_resolve books true "no right" "MA" null null unset ≡ ok (verdict [] false (pos 0) true [])
unfolding test_resolve ecommerce_super.Tax.preview_stamp ecommerce_super.Tax.reconcile_rate
unset_dry = refl

test_resolve-disagrees_example :
    (true ≡ true) × (refused.0.reconciled ≡ false) × (refused.0.stamped_count ≡ 0)
test_resolve-disagrees_example =
    test_resolve-disagrees books "MA" "no right" null sold "A" pan unset (map_of "MA" "A" []) ruled
      refl refl refl unset_dry unset_resolved

-- A company without a map gets one that nobody has filled, and its users are told.
created_map :
    resolve_all books sold ("C" ∷ []) pan both_maps
    ≡ ok (
      pan,
      record {
        maps =
            map_of "MA" "A" rows_a
            ∷ map_of "MB" "B" rows_b
            ∷ record (map_of "C" "C" []) { workflow_state = "To Configure" }
            ∷ [];
        notified = "C" ∷ [];
      },
    )
unfolding resolve_all resolve_and_stamp_tax ecommerce_super.Mapping.Transforms.truthy
    ecommerce_super.Tax.Resolver.by_map ecommerce_super.Tax.Resolver.apply_cess
    ecommerce_super.Tax.Resolver.auto_create
created_map = refl
