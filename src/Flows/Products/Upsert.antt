-- ===== src/Flows/Products/Upsert.antt =====
-- ecommerce_super/easyecom/flows/item_pull.py: one product becomes an item and a row of the map. A call that raises leaves
-- no trace, since the batch rolls it back.
use ecommerce_super.Flows.Products.Catalogue.{
  Status, Reason, MapRow, Item, Catalogue, EeProduct, ProductOutcome, Desk, supported_types,
  combo_type, field_of, or_text, flag_not_created, updated, without_kept, Linked, mapped,
  created_flagged, unsupported_type, unknown_hsn, dirty_uom, untaxed,
}
use ecommerce_super.Base.{
  String, Bool, true, false, ◌&&◌, ◌||◌, not, Option, none, some, List, [], ◌∷◌, ◌++◌, str_eq,
  if◌then◌else◌, has, lookup, put_at, is_there, codes, strip, Result, ok, err, ◌>>=◌,
}
use ecommerce_super.Payload.{text, Entries, no_entries, get}
use ecommerce_super.Payload.Path.Writing.{put}
use ecommerce_super.Mapping.Transforms.{same_folded}

module _ {E : Type 0} (d : Desk E) where
  -- `_refresh_existing_item`
  unfoldable pub refresh_existing_item : Item → Entries → Result E Item
  unfolding updated without_kept
  refresh_existing_item item fields =
      d.save (record item { doc = updated (item.doc) (without_kept fields) })

  abbrev pub with_group : Entries → Result E Entries
  with_group doc =
      if str_eq (field_of "item_group" doc) ""
      then d.default_item_group >>= (λ group. ok (put "item_group" group doc))
      else ok doc

  abbrev pub named_new : Catalogue → String → Result E String
  named_new cat n = if str_eq n "" || is_there n (cat.items) then err (d.duplicate_entry) else ok n

  -- `_create_item`; ERPNext names an item by its code.
  unfoldable pub create_item : Catalogue → Entries → Result E (String × Item)
  unfolding updated put get
  create_item cat fields = with_group (updated no_entries fields) >>= (λ doc.
      named_new cat (field_of "item_code" doc) >>= (λ n.
        d.save (record { doc = doc; disabled = false; barcodes = [] }) >>= (λ item. ok (n, item))))

  abbrev pub item_of : Catalogue → String → Result E Item
  item_of cat n = elim (lookup n (cat.items)) [
    | none ↦ err (d.does_not_exist)
    | some item ↦ ok item
  ]

  -- The item that a SKU stands for, or the empty text.
  abbrev pub linked_item : Catalogue → String → Option MapRow → String
  linked_item cat sku none = if is_there sku (cat.items) then sku else ""
  linked_item cat sku (some row) =
      let own = if is_there sku (cat.items) then sku else "" in
      if str_eq (row.erpnext_name) ""
      then own
      else if str_eq (row.erpnext_doctype) "Item"
      then row.erpnext_name
      else if str_eq (row.erpnext_doctype) "Product Bundle"
      then or_text (d.bundle_item (row.erpnext_name)) own
      else own

  abbrev pub uom_of : Option Item → String
  uom_of none = ""
  uom_of (some item) = field_of "stock_uom" (item.doc)

  -- `_known_stock_uom`, with the empty text for None.
  unfoldable pub known_stock_uom : Catalogue → String → String
  unfolding get
  known_stock_uom cat sku =
      let uom = uom_of (lookup (linked_item cat sku (lookup sku (cat.maps))) (cat.items)) in
      if not (str_eq uom "") && d.uom_exists uom then uom else ""

  -- Step 4: the fields with a unit that exists, and the reasons to flag.
  unfoldable pub with_uom : EeProduct → Entries → Catalogue → Entries × List Reason
  unfolding known_stock_uom put get
  with_uom p fields cat =
      let raw = field_of "stock_uom" fields in
      let known = known_stock_uom cat (p.sku) in
      if not (str_eq raw "") && d.uom_exists raw
      then (fields, [])
      else if not (str_eq known "")
      then (put "stock_uom" (text known) fields, [])
      else (put "stock_uom" (text (or_text (d.default_uom) "Nos")) fields, dirty_uom ∷ [])

  -- The row of an item that was found or created: `_create_map_row`, or `_attach_map_row` of a row without a target.
  unfoldable pub attached_row : String → Entries → Option MapRow → MapRow
  unfolding get
  attached_row n fields none = record {
    erpnext_doctype = "Item";
    erpnext_name = n;
    ee_product_id = field_of "ecs_ee_product_id" fields;
    ee_cp_id = field_of "ecs_ee_cp_id" fields;
    status = mapped;
    flag_reasons = [];
  }
  attached_row n fields (some row) = record {
    erpnext_doctype = "Item";
    erpnext_name = n;
    ee_product_id = or_text (field_of "ecs_ee_product_id" fields) (row.ee_product_id);
    ee_cp_id = or_text (field_of "ecs_ee_cp_id" fields) (row.ee_cp_id);
    status = mapped;
    flag_reasons = [];
  }

  -- `_load_or_refresh_item_from_map`
  unfoldable pub load_or_refresh : Catalogue → Entries → MapRow → Result E Linked
  unfolding refresh_existing_item get
  load_or_refresh cat fields row =
      if str_eq (row.erpnext_doctype) "Item"
      then item_of cat (row.erpnext_name)
        >>= (λ item. refresh_existing_item item fields)
        >>= (λ item. ok record {
          name = row.erpnext_name;
          item = item;
          row = record row {
            ee_product_id = field_of "ecs_ee_product_id" fields;
            ee_cp_id = field_of "ecs_ee_cp_id" fields;
          };
          created = false;
        })
      else err (d.wrong_target)

  -- A product without an attached row.
  unfoldable pub match_or_create : EeProduct → Entries → Catalogue → Option MapRow → Result E Linked
  unfolding refresh_existing_item create_item attached_row
  match_or_create p fields cat row =
      if is_there (p.sku) (cat.items)
      then item_of cat (p.sku) >>= (λ item. refresh_existing_item item fields) >>= (λ item.
        ok record {
          name = p.sku;
          item = item;
          row = attached_row (p.sku) fields row;
          created = false;
        })
      else create_item cat fields >>= (λ (n, item).
        ok record { name = n; item = item; row = attached_row n fields row; created = true })

  -- Step 5, by the row of the SKU.
  unfoldable pub link : EeProduct → Entries → Catalogue → Option MapRow → Result E Linked
  unfolding load_or_refresh match_or_create
  link p fields cat none = match_or_create p fields cat none
  link p fields cat (some row) =
      if str_eq (row.erpnext_name) ""
      then match_or_create p fields cat (some row)
      else load_or_refresh cat fields row

  abbrev pub junk_barcodes : List String
  junk_barcodes = "NA" ∷ "N/A" ∷ "-" ∷ "0" ∷ "NIL" ∷ "NONE" ∷ "NULL" ∷ []

  unfoldable pub is_junk : List String → String → Bool
  unfolding same_folded
  is_junk [] s = false
  is_junk (w ∷ words) s = same_folded (codes s) (codes w) || is_junk words s

  -- `_sync_ean_barcode`
  unfoldable pub sync_ean_barcode : Item → String → Result E Item
  unfolding strip is_junk
  sync_ean_barcode item eanupc =
      let ean = strip eanupc in
      if str_eq ean "" || is_junk junk_barcodes ean || is_there ean (item.barcodes)
      then ok item
      else d.save (record item { barcodes = item.barcodes ++ ((ean, "EAN") ∷ []) })

  -- Step 6.
  abbrev pub disable_inactive : EeProduct → Item → Result E Item
  disable_inactive p item =
      if p.inactive && not (item.disabled)
      then d.save (record item { disabled = true })
      else ok item

  -- Step 7: the taxes of each company, with those to flag.
  unfoldable pub stamp_taxes : List String → EeProduct → Item → Item × List Reason
  stamp_taxes [] p item = (item, [])
  stamp_taxes (c ∷ companies) p item =
      let (stamped, clean) = d.stamp_tax c p item in
      let (last, reasons) = stamp_taxes companies p stamped in
      (last, if clean then reasons else untaxed c ∷ reasons)

  abbrev pub taxed : List String → EeProduct → Item → Result E (Item × List Reason)
  taxed [] p item = ok (item, [])
  taxed (c ∷ companies) p item =
      d.save ((stamp_taxes (c ∷ companies) p item).0)
      >>= (λ saved. ok (saved, (stamp_taxes (c ∷ companies) p item).1))

  abbrev pub final_status : List Reason → Status
  final_status [] = mapped
  final_status (r ∷ reasons) = created_flagged

  -- Step 8, and what is written.
  unfoldable pub finalised :
      EeProduct → Catalogue → Linked → Item → List Reason → ProductOutcome × Catalogue
  unfolding put_at
  finalised p cat l item reasons = (
    record {
      ee_sku = p.sku;
      status = final_status reasons;
      erpnext_name = some (l.name);
      created = l.created;
      flag_reasons = reasons;
    },
    record {
      maps =
          put_at (p.sku) (record (l.row) { status = final_status reasons; flag_reasons = reasons })
            (cat.maps);
      items = put_at (l.name) item (cat.items);
    },
  )

  -- Steps 5 to 8, for fields whose unit exists.
  unfoldable pub upsert :
      EeProduct → Catalogue → Entries → List Reason → Result E (ProductOutcome × Catalogue)
  unfolding link sync_ean_barcode stamp_taxes finalised
  upsert p cat fields reasons = link p fields cat (lookup (p.sku) (cat.maps)) >>= (λ l.
      sync_ean_barcode (l.item) (p.eanupc)
      >>= (λ item. disable_inactive p item)
      >>= (λ item. taxed (d.enabled_companies) p item)
      >>= (λ (item, untaxed_at). ok (finalised p cat l item (reasons ++ untaxed_at))))

  -- Step 3.
  unfoldable pub gate_hsn : EeProduct → Catalogue → Entries → Result E (ProductOutcome × Catalogue)
  unfolding flag_not_created with_uom upsert get
  gate_hsn p cat fields =
      if str_eq (field_of "gst_hsn_code" fields) ""
        || not (d.hsn_exists (field_of "gst_hsn_code" fields))
      then flag_not_created d p unknown_hsn cat
      else upsert p cat ((with_uom p fields cat).0) ((with_uom p fields cat).1)

  -- `process_one_product`
  unfoldable pub process_one_product : EeProduct → Catalogue → Result E (ProductOutcome × Catalogue)
  unfolding flag_not_created gate_hsn
  process_one_product p cat =
      if str_eq (p.sku) ""
      then err (d.no_sku)
      else if d.erpnext_mastered
      then d.detect_drift p cat
      else if not (has (p.product_type) supported_types)
      then flag_not_created d p unsupported_type cat
      else if str_eq (p.product_type) combo_type
      then d.process_combo p cat
      else d.translate p >>= (λ fields. gate_hsn p cat fields)
