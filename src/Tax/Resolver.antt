-- ===== src/Tax/Resolver.antt =====
-- easyecom_tax_rule_map.py: resolve_and_stamp_tax, and the loop of item_pull.py over companies.
use ecommerce_super.Base.{
  String, Bool, true, false, ◌&&◌, Option, none, some, List, [], ◌∷◌, ◌++◌, str_eq, if◌then◌else◌,
  ℤ, pos, length, Result, ok, err, ◌>>=◌,
}
use ecommerce_super.Payload.{Json}
use ecommerce_super.Mapping.Transforms.{truthy}
use ecommerce_super.Tax.{
  TaxRow, TaxRuleMap, TaxedItem, TaxProduct, no_rule_name, no_rows, no_map, TaxResolutionResult,
  StampPreview, Books, TaxStore, reconcile_rate, read_rate, preview_stamp,
}

abbrev pub find_map : String → String → List TaxRuleMap → Option TaxRuleMap
find_map rule company [] = none
find_map rule company (m ∷ maps) =
    if str_eq (m.tax_rule_name) rule && str_eq (m.company) company
    then some m
    else find_map rule company maps

module _ {E : Type 0} (b : Books E) where
  -- The owner of a row's template: none for an empty or unknown one.
  abbrev pub owner : TaxRow → Option String
  owner r =
      if str_eq (r.item_tax_template) "" then none else b.template_company (r.item_tax_template)

  unfoldable pub is_own : String → TaxRow → Bool
  is_own company r = elim (owner r) [ none ↦ false | some c ↦ str_eq c company ]

  unfoldable pub siblings : String → List TaxRow → List TaxRow
  siblings company [] = []
  siblings company (r ∷ rows) =
      if is_own company r then siblings company rows else r ∷ siblings company rows

  -- `_stamp_preview_onto_item`
  unfoldable pub stamp_preview : String → StampPreview → TaxedItem → TaxedItem
  stamp_preview company preview item = record item {
    taxes = siblings company (item.taxes) ++ preview.rows_to_stamp;
  }

  -- `float((product or {}).get("cess") or 0.0)`
  abbrev pub cess_of : Json → Result E ℤ
  cess_of value =
      if truthy value
      then (elim (b.float value) [ none ↦ err (b.not_a_float) | some cess ↦ ok cess ])
      else ok (pos 0)

  unfoldable pub apply_cess : ℤ → TaxedItem → TaxedItem
  apply_cess cess item = record item {
    ecs_cess = if b.has_cess_field then cess else item.ecs_cess;
    flags_cess = cess;
  }

  abbrev pub initial_workflow_state : String
  initial_workflow_state = "To Configure"

  -- `_auto_create_to_configure_map`, and the notification.
  unfoldable pub auto_create : String → String → TaxStore → TaxStore
  auto_create rule company st = record {
    maps =
        st.maps
        ++ (record {
          name = b.map_name rule company;
          tax_rule_name = rule;
          company = company;
          workflow_state = initial_workflow_state;
          taxes = [];
        }
            ∷ []);
    notified = st.notified ++ (b.map_name rule company ∷ []);
  }

  unfoldable pub stamp_and_reconcile :
      TaxProduct
      → String
      → TaxRuleMap
      → StampPreview
      → ℤ
      → TaxedItem
      → TaxResolutionResult × TaxedItem
  stamp_and_reconcile p company m preview cess item =
      let (reconciled, discrepancies) = reconcile_rate (read_rate b (p.tax_rate)) preview in
      if preview.is_mapped
      then (
        record {
          is_mapped = true;
          auto_created = false;
          map_docname = some (m.name);
          stamped_count = length (preview.rows_to_stamp);
          cess = cess;
          reconciled = reconciled;
          discrepancies = discrepancies;
        },
        stamp_preview company preview item,
      )
      else (
        record {
          is_mapped = true;
          auto_created = false;
          map_docname = some (m.name);
          stamped_count = 0;
          cess = cess;
          reconciled = false;
          discrepancies = no_rows ∷ [];
        },
        item,
      )

  unfoldable pub by_map :
      TaxProduct
      → String
      → Option TaxRuleMap
      → ℤ
      → TaxedItem
      → TaxStore
      → TaxResolutionResult × TaxedItem × TaxStore
  by_map p company none cess item st = (
    record {
      is_mapped = false;
      auto_created = true;
      map_docname = some (b.map_name (p.tax_rule_name) company);
      stamped_count = 0;
      cess = cess;
      reconciled = false;
      discrepancies = no_map (b.map_name (p.tax_rule_name) company) ∷ [];
    },
    item,
    auto_create (p.tax_rule_name) company st,
  )
  by_map p company (some m) cess item st =
      let (result, after) = stamp_and_reconcile p company m (preview_stamp b (m.taxes)) cess item in
      (result, after, st)

  abbrev pub unruled : ℤ → TaxResolutionResult
  unruled cess = record {
    is_mapped = false;
    auto_created = false;
    map_docname = none;
    stamped_count = 0;
    cess = cess;
    reconciled = false;
    discrepancies = no_rule_name ∷ [];
  }

  unfoldable pub resolve_and_stamp_tax :
      TaxProduct
      → String
      → TaxedItem
      → TaxStore
      → Result E (TaxResolutionResult × TaxedItem × TaxStore)
  resolve_and_stamp_tax p company item st = cess_of (p.cess) >>= (λ cess.
      if str_eq (p.tax_rule_name) ""
      then ok (unruled cess, item, st)
      else ok (
          by_map p company (find_map (p.tax_rule_name) company (st.maps)) cess
            (apply_cess cess item) st))

  -- The companies of an account, one after the other on the same item.
  unfoldable pub resolve_all :
      TaxProduct → List String → TaxedItem → TaxStore → Result E (TaxedItem × TaxStore)
  resolve_all p [] item st = ok (item, st)
  resolve_all p (c ∷ companies) item st =
      resolve_and_stamp_tax p c item st
      >>= (λ (result, after, left). resolve_all p companies after left)
