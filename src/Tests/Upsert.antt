-- ===== src/Tests/Upsert.antt =====
-- ecommerce_super/easyecom/flows/item_pull.py: tests of one product.
use ecommerce_super.Base.{String, ◌≡◌, refl, true, false, none, some, [], ◌∷◌, str_eq, ok, err}
use ecommerce_super.Payload.{text, Entries, no_entries, entry}
use ecommerce_super.Flows.Products.Catalogue.{
  unknown_hsn, mapped, flagged_not_created, MapRow, Item, Catalogue, EeProduct, ProductOutcome,
  Desk,
}
use ecommerce_super.Flows.Products.Upsert.{process_one_product}
use ecommerce_super.Flows.Products.Linked.{
  IsSound, IsRecorded, KeepsTarget, process_one_product-IsSound, process_one_product-IsRecorded,
  process_one_product-KeepsTarget,
}

abbrev pot : String → EeProduct
pot kind = record {
  sku = "POT";
  product_type = kind;
  product_id = "17";
  cp_id = "9";
  inactive = true;
  eanupc = " na ";
  body = no_entries;
}

-- The fields have a unit, and an HSN code or none.
abbrev desk : Entries → Desk String
desk fields = record {
  erpnext_mastered = false;
  default_uom = "";
  enabled_companies = "ACME" ∷ [];
  translate = λ p. ok fields;
  hsn_exists = λ code. str_eq code "3924";
  uom_exists = λ uom. str_eq uom "Nos";
  bundle_item = λ n. "";
  default_item_group = ok (text "All Item Groups");
  save = λ item. ok item;
  stamp_tax = λ company p item. (item, true);
  detect_drift = λ p cat. err "drift";
  process_combo = λ p cat. err "combo";
  no_sku = "no sku";
  wrong_target = "wrong target";
  does_not_exist = "does not exist";
  duplicate_entry = "duplicate";
  bundle_exists = λ n. false;
  unsupported_link = "link";
  broken_link = "broken";
}

abbrev full : Entries
full =
    entry "item_code" (text "POT")
      (entry "gst_hsn_code" (text "3924") (entry "stock_uom" (text "Nos") no_entries))

abbrev blank : Entries
blank = entry "item_code" (text "POT") no_entries

abbrev nothing : Catalogue
nothing = record { maps = []; items = [] }

abbrev row_of_pot : MapRow
row_of_pot = record {
  erpnext_doctype = "Item";
  erpnext_name = "POT";
  ee_product_id = "";
  ee_cp_id = "";
  status = mapped;
  flag_reasons = [];
}

abbrev pot_item : Item
pot_item = record {
  doc = entry "item_code" (text "POT") (
      entry "gst_hsn_code" (text "3924")
        (entry "stock_uom" (text "Nos") (entry "item_group" (text "All Item Groups") no_entries)));
  disabled = true;
  barcodes = [];
}

abbrev with_pot : Catalogue
with_pot = record { maps = ("POT", row_of_pot) ∷ []; items = ("POT", pot_item) ∷ [] }

abbrev created_outcome : ProductOutcome
created_outcome = record {
  ee_sku = "POT";
  status = mapped;
  erpnext_name = some "POT";
  created = true;
  flag_reasons = [];
}

pot_created :
    process_one_product (desk full) (pot "normal_product") nothing ≡ ok (created_outcome, with_pot)
unfolding process_one_product
pot_created = refl

process_one_product-IsSound_example : IsSound with_pot
process_one_product-IsSound_example =
    process_one_product-IsSound (desk full) (pot "normal_product") nothing refl refl tt pot_created

process_one_product-IsRecorded_example :
    IsRecorded (desk full) (pot "normal_product") nothing (created_outcome, with_pot)
process_one_product-IsRecorded_example =
    process_one_product-IsRecorded (desk full) (pot "normal_product") nothing refl refl pot_created

-- The HSN code went missing after the item was created.
abbrev kept_target : ProductOutcome × Catalogue
kept_target = (
  record {
    ee_sku = "POT";
    status = flagged_not_created;
    erpnext_name = none;
    created = false;
    flag_reasons = unknown_hsn ∷ [];
  },
  record {
    maps =
        (
          "POT",
          record row_of_pot {
            ee_product_id = "17";
            ee_cp_id = "9";
            status = flagged_not_created;
            flag_reasons = unknown_hsn ∷ [];
          },
        )
        ∷ [];
    items = ("POT", pot_item) ∷ [];
  },
)

hsn_went_missing : process_one_product (desk blank) (pot "normal_product") with_pot ≡ ok kept_target
unfolding process_one_product
hsn_went_missing = refl

process_one_product-KeepsTarget_example :
    KeepsTarget (desk blank) (pot "normal_product") row_of_pot kept_target
process_one_product-KeepsTarget_example =
    process_one_product-KeepsTarget (desk blank) (pot "normal_product") with_pot row_of_pot refl
      refl refl hsn_went_missing refl
