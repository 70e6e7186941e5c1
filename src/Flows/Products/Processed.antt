-- ===== src/Flows/Products/Processed.antt =====
-- ecommerce_super/easyecom/flows/item_pull.py: what becomes of one product.
use ecommerce_super.Base.{
  String, ◌≡◌, refl, sym, ◌⊎◌, inl, inr, false, ◌||◌, not, Option, none, some, List, ◌++◌, eq_iff,
  str_eq, Bool-cases, has, lookup, is_there, ok, ◌>>=◌, first_returned, passed_guard, passed_check,
  ok_injective, taken, left_out,
}
use mathlib.Core.Path.{subst}
use ecommerce_super.Payload.{Entries}
use ecommerce_super.Flows.Products.Catalogue.{
  Reason, unknown_hsn, unsupported_type, MapRow, Item, Catalogue, EeProduct, ProductOutcome, Desk,
  Linked, supported_types, combo_type, flagged_row, with_flag, validate_item_map, flag_not_created,
  field_of,
}
use ecommerce_super.Flows.Products.Upsert.{
  refresh_existing_item, create_item, item_of, attached_row, load_or_refresh, match_or_create, link,
  sync_ean_barcode, disable_inactive, taxed, finalised, upsert, gate_hsn, with_uom,
  process_one_product,
}

module _ {E : Type 0} (d : Desk E) where
  -- A row that stands for an item of a name.
  abbrev pub IsAttached : Linked → Type 0
  IsAttached l = (l.row.erpnext_doctype ≡ "Item") × (l.row.erpnext_name ≡ l.name)

  attached_row-target :
      (n : String) (fields : Entries) (o : Option MapRow)
      → ((attached_row d n fields o).erpnext_doctype ≡ "Item")
        × ((attached_row d n fields o).erpnext_name ≡ n)
  unfolding attached_row
  attached_row-target n fields none = (refl, refl)
  attached_row-target n fields (some row) = (refl, refl)

  match_or_create-IsAttached :
      (p : EeProduct) (fields : Entries) (cat : Catalogue) (o : Option MapRow) {l : Linked}
      → match_or_create d p fields cat o ≡ ok l
      → IsAttached l
  unfolding match_or_create
  match_or_create-IsAttached p fields cat o returned =
      elim (Bool-cases (is_there (p.sku) (cat.items))) [
        | inl e ↦
            let (item, _, same) =
              first_returned
                (item_of d cat (p.sku) >>= (λ item. refresh_existing_item d item fields)) _
                (taken (is_there (p.sku) (cat.items)) _ e returned) in
            subst IsAttached (ok_injective same) (attached_row-target (p.sku) fields o)
        | inr e ↦
            let ((n, item), _, same) =
              first_returned (create_item d cat fields) _
                (left_out (is_there (p.sku) (cat.items)) _ e returned) in
            subst IsAttached (ok_injective same) (attached_row-target n fields o)
      ]

  link-IsAttached :
      (p : EeProduct) (fields : Entries) (cat : Catalogue) (o : Option MapRow) {l : Linked}
      → link d p fields cat o ≡ ok l
      → IsAttached l
  unfolding link load_or_refresh
  link-IsAttached p fields cat none returned = match_or_create-IsAttached p fields cat none returned
  link-IsAttached p fields cat (some row) returned =
      elim (Bool-cases (str_eq (row.erpnext_name) "")) [
        | inl e ↦
            match_or_create-IsAttached p fields cat (some row)
              (taken (str_eq (row.erpnext_name) "") _ e returned)
        | inr e ↦
            let (to_item, loaded) =
              passed_check (str_eq (row.erpnext_doctype) "Item") (d.wrong_target)
                (left_out (str_eq (row.erpnext_name) "") _ e returned) in
            let (item, _, same) =
              first_returned
                (item_of d cat (row.erpnext_name) >>= (λ item. refresh_existing_item d item fields))
                _ loaded in
            subst IsAttached (ok_injective same)
              ((eq_iff (row.erpnext_doctype) "Item").0 to_item, refl)
      ]

  flag_not_created-with_flag :
      (p : EeProduct) (reason : Reason) (cat : Catalogue) {out : ProductOutcome × Catalogue}
      → flag_not_created d p reason cat ≡ ok out
      → out ≡ with_flag p reason cat
  unfolding flag_not_created
  flag_not_created-with_flag p reason cat returned =
      let (row, valid, same) =
        first_returned (validate_item_map d cat (flagged_row p reason (lookup (p.sku) (cat.maps))))
          _ returned in
      sym (ok_injective same)

  -- What processing a product returns: a flag and no item, or an item with its row.
  abbrev pub Processed : EeProduct → Catalogue → ProductOutcome × Catalogue → Type 0
  Processed p cat out =
      ((reason : Reason) × (out ≡ with_flag p reason cat))
      ⊎ ((l : Linked) × ((item : Item) × ((reasons : List Reason) × ((out
                  ≡ finalised d p cat l item reasons)
                × IsAttached l))))

  upsert-Processed :
      (p : EeProduct) (cat : Catalogue) (fields : Entries) (reasons : List Reason)
      {out : ProductOutcome × Catalogue}
      → upsert d p cat fields reasons ≡ ok out
      → Processed p cat out
  unfolding upsert
  upsert-Processed p cat fields reasons returned =
      let (l, linked, rest) =
        first_returned (link d p fields cat (lookup (p.sku) (cat.maps))) _ returned in
      let ((item, untaxed_at), _, same) =
        first_returned
          (sync_ean_barcode d (l.item) (p.eanupc)
            >>= (λ item. disable_inactive d p item)
            >>= (λ item. taxed d (d.enabled_companies) p item))
          _ rest in
      inr (
        l,
        (
          item,
          (
            reasons ++ untaxed_at,
            (
              sym (ok_injective same),
              link-IsAttached p fields cat (lookup (p.sku) (cat.maps)) linked,
            ),
          ),
        ),
      )

  gate_hsn-Processed :
      (p : EeProduct) (cat : Catalogue) (fields : Entries) {out : ProductOutcome × Catalogue}
      → gate_hsn d p cat fields ≡ ok out
      → Processed p cat out
  unfolding gate_hsn
  gate_hsn-Processed p cat fields returned =
      let missing =
        str_eq (field_of "gst_hsn_code" fields) ""
        || not (d.hsn_exists (field_of "gst_hsn_code" fields)) in
      elim (Bool-cases missing) [
        | inl e ↦
            inl (
              unknown_hsn,
              flag_not_created-with_flag p unknown_hsn cat (taken missing _ e returned),
            )
        | inr e ↦
            upsert-Processed p cat ((with_uom d p fields cat).0) ((with_uom d p fields cat).1)
              (left_out missing (flag_not_created d p unknown_hsn cat) e returned)
      ]

  -- What processing a product returns, in onboarding mode and for a product that is no combo.
  pub process_one_product-Processed :
      (p : EeProduct) (cat : Catalogue) {out : ProductOutcome × Catalogue}
      → d.erpnext_mastered ≡ false
      → str_eq (p.product_type) combo_type ≡ false
      → process_one_product d p cat ≡ ok out
      → Processed p cat out
  unfolding process_one_product
  process_one_product-Processed p cat onboarding single returned =
      let named = passed_guard (str_eq (p.sku) "") (d.no_sku) returned in
      let unmastered = left_out (d.erpnext_mastered) (d.detect_drift p cat) onboarding named in
      elim (Bool-cases (not (has (p.product_type) supported_types))) [
        | inl e ↦ inl (
          unsupported_type,
          flag_not_created-with_flag p unsupported_type cat
              (taken (not (has (p.product_type) supported_types)) _ e unmastered),
        )
        | inr e ↦
            let plain =
              left_out (str_eq (p.product_type) combo_type) (d.process_combo p cat) single (
                left_out (not (has (p.product_type) supported_types))
                  (flag_not_created d p unsupported_type cat) e unmastered) in
            let (fields, _, gated) = first_returned (d.translate p) _ plain in
            gate_hsn-Processed p cat fields gated
      ]
