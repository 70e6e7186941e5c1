-- ===== src/Flows/Products/Catalogue.antt =====
-- ecommerce_super/easyecom/flows/item_pull.py: the map of products and the items, and what a pull of one product reads
-- and calls. ERPNext, the field mapping, taxes, and the branches of drift detection and of combos are what a desk provides.
use ecommerce_super.Base.{
  String, Bool, false, ◌||◌, ◌&&◌, not, Option, none, some, List, [], ◌∷◌, str_eq, if◌then◌else◌,
  lookup, put_at, is_there, Result, ok, err, ◌>>=◌,
}
use ecommerce_super.Payload.{Json, null, text, Entries, no_entries, entry, get}
use ecommerce_super.Payload.Path.Writing.{put}

pub data Status : Type 0 where
  mapped created_flagged flagged_not_created drift : Status

-- `flag_reason`
pub data Reason : Type 0 where
  unsupported_type unknown_hsn dirty_uom : Reason
  untaxed : (company : String) → Reason

-- A row of EasyEcom Item Map, under its SKU; an empty column is the empty text.
pub record MapRow : Type 0 where
  pub erpnext_doctype : String
  pub erpnext_name : String
  pub ee_product_id : String
  pub ee_cp_id : String
  pub status : Status
  pub flag_reasons : List Reason

-- An ERPNext item, under its name.
pub record Item : Type 0 where
  pub doc : Entries
  pub disabled : Bool
  pub barcodes : List (String × String)

pub record Catalogue : Type 0 where
  pub maps : List (String × MapRow)
  pub items : List (String × Item)

-- A product as the pull reads it. `inactive` is `active in (0, "0", False)`.
pub record EeProduct : Type 0 where
  pub sku : String
  pub product_type : String
  pub product_id : String
  pub cp_id : String
  pub inactive : Bool
  pub eanupc : String
  pub body : Entries

pub record ProductOutcome : Type 0 where
  pub ee_sku : String
  pub status : Status
  pub erpnext_name : Option String
  pub created : Bool
  pub flag_reasons : List Reason

pub record Desk (E : Type 0) : Type 0 where
  pub erpnext_mastered : Bool
  pub default_uom : String
  pub enabled_companies : List String
  pub translate : EeProduct → Result E Entries
  pub hsn_exists : String → Bool
  pub uom_exists : String → Bool
  pub bundle_item : String → String
  pub default_item_group : Result E Json
  pub save : Item → Result E Item
  pub stamp_tax : String → EeProduct → Item → Item × Bool
  pub detect_drift : EeProduct → Catalogue → Result E (ProductOutcome × Catalogue)
  pub process_combo : EeProduct → Catalogue → Result E (ProductOutcome × Catalogue)
  pub no_sku : E
  pub wrong_target : E
  pub does_not_exist : E
  pub duplicate_entry : E
  pub bundle_exists : String → Bool
  pub unsupported_link : E
  pub broken_link : E

abbrev pub supported_types : List String
supported_types = "normal_product" ∷ "child_product" ∷ "combo_product" ∷ []

abbrev pub combo_type : String
combo_type = "combo_product"

-- A field as a text.
abbrev pub as_text : Option Json → String
as_text (some (text s)) = s
as_text _ = ""

abbrev pub field_of : String → Entries → String
field_of k fields = as_text (get k fields)

-- `x or y` on texts.
abbrev pub or_text : String → String → String
or_text s t = if str_eq s "" then t else s

abbrev pub outcome_not_created : EeProduct → Reason → ProductOutcome
outcome_not_created p reason = record {
  ee_sku = p.sku;
  status = flagged_not_created;
  erpnext_name = none;
  created = false;
  flag_reasons = reason ∷ [];
}

-- The row of a product that cannot be created.
abbrev pub flagged_row : EeProduct → Reason → Option MapRow → MapRow
flagged_row p reason none = record {
  erpnext_doctype = "";
  erpnext_name = "";
  ee_product_id = p.product_id;
  ee_cp_id = p.cp_id;
  status = flagged_not_created;
  flag_reasons = reason ∷ [];
}
flagged_row p reason (some row) = record row {
  ee_product_id = or_text (p.product_id) (row.ee_product_id);
  ee_cp_id = or_text (p.cp_id) (row.ee_cp_id);
  status = flagged_not_created;
  flag_reasons = reason ∷ [];
}

-- What `_flag_not_created` answers and writes.
unfoldable pub with_flag : EeProduct → Reason → Catalogue → ProductOutcome × Catalogue
unfolding put_at
with_flag p reason cat = (
  outcome_not_created p reason,
  record cat {
    maps = put_at (p.sku) (flagged_row p reason (lookup (p.sku) (cat.maps))) (cat.maps);
  },
)

module _ {E : Type 0} (d : Desk E) where
  -- `frappe.db.exists(self.erpnext_doctype, self.erpnext_name)` for the two kinds of target.
  abbrev pub target_exists : Catalogue → MapRow → Bool
  target_exists cat row =
      if str_eq (row.erpnext_doctype) "Item"
      then is_there (row.erpnext_name) (cat.items)
      else d.bundle_exists (row.erpnext_name)

  -- `EasyEcomItemMap.validate`, on the save of a row.
  unfoldable pub validate_item_map : Catalogue → MapRow → Result E MapRow
  validate_item_map cat row =
      if str_eq (row.erpnext_doctype) ""
      then ok row
      else if not (str_eq (row.erpnext_doctype) "Item")
          && not (str_eq (row.erpnext_doctype) "Product Bundle")
      then err (d.unsupported_link)
      else if str_eq (row.erpnext_name) "" || target_exists cat row
      then ok row
      else err (d.broken_link)

  -- `_flag_not_created`
  unfoldable pub flag_not_created :
      EeProduct → Reason → Catalogue → Result E (ProductOutcome × Catalogue)
  unfolding with_flag validate_item_map
  flag_not_created p reason cat =
      validate_item_map cat (flagged_row p reason (lookup (p.sku) (cat.maps)))
      >>= (λ row. ok (with_flag p reason cat))

-- `{k: v for k, v in fields.items() if v is not None}` over a document.
unfoldable pub updated : Entries → Entries → Entries
unfolding put
updated doc no_entries = doc
updated doc (entry k null fields) = updated doc fields
updated doc (entry k v fields) = updated (put k v doc) fields

abbrev pub is_kept : String → Bool
is_kept k = str_eq k "item_code" || str_eq k "stock_uom"

unfoldable pub without_kept : Entries → Entries
without_kept no_entries = no_entries
without_kept (entry k v fields) =
    let rest = without_kept fields in if is_kept k then rest else entry k v rest

-- The item, its name and the row that goes with it.
pub record Linked : Type 0 where
  pub name : String
  pub item : Item
  pub row : MapRow
  pub created : Bool
