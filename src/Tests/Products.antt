-- ===== src/Tests/Products.antt =====
-- ecommerce_super/easyecom/flows/item_pull.py: tests.
use ecommerce_super.Base.{
  ℕ, suc, ◌+◌, String, ◌≡◌, refl, sym, ap, ◌∙◌, true, false, Option, none, some, List, [], ◌∷◌,
  str_eq, if◌then◌else◌, lookup, ok,
}
use ecommerce_super.Flows.Products.{
  Product, product, no_dict, Account, at_cursor, from_start, Pull, values,
  dedupe_to_primary_location, pull_products,
}
use ecommerce_super.Flows.Products.Dedupe.{chosen, dedupe_to_primary_location_lem}
use ecommerce_super.Flows.Products.Resume.{resumed, pull_products-resumed}
use ecommerce_super.Flows.Products.Watermark.{next_request, pull_products-forgets}

abbrev at_warehouse : ℕ → String → String → Product
at_warehouse body sku company = record { sku = sku; company_name = company; body = body }

abbrev listing : List (Option Product)
listing =
    some (at_warehouse 1 "A" "Pune")
    ∷ none
    ∷ some (at_warehouse 2 "" "HQ")
    ∷ some (at_warehouse 3 "B" "Pune")
    ∷ some (at_warehouse 4 "A" "HQ")
    ∷ some (at_warehouse 5 "B" "Delhi")
    ∷ []

primary_kept :
    values (dedupe_to_primary_location "HQ" listing)
    ≡ at_warehouse 4 "A" "HQ" ∷ at_warehouse 3 "B" "Pune" ∷ []
unfolding dedupe_to_primary_location
primary_kept = refl

first_kept :
    values (dedupe_to_primary_location "" listing)
    ≡ at_warehouse 1 "A" "Pune" ∷ at_warehouse 3 "B" "Pune" ∷ []
unfolding dedupe_to_primary_location
first_kept = refl

dedupe_to_primary_location_lem_example :
    lookup "A" (dedupe_to_primary_location "HQ" listing) ≡ chosen "HQ" "A" listing
dedupe_to_primary_location_lem_example =
    dedupe_to_primary_location_lem "HQ" "A" listing
      (λ e. let differ : false ≡ true = ap (λ s. str_eq s "") e in cc)

-- Two pages; the product of the first one fails.
abbrev two_pages : Pull (List String) String String
two_pages = record {
  fetch = λ r. elim r [
    | from_start updated_after ↦
        ok
          (record { records = some (product (at_warehouse 1 "A" "") ∷ []); next_url = some "next" })
    | at_cursor cursor ↦
        ok (record { records = some (product (at_warehouse 2 "B" "") ∷ []); next_url = none })
  ];
  process_page = λ products done. elim products [
    | [] ↦ (done, [])
    | r ∷ rs ↦ if str_eq (r.sku) "A" then (done, r.sku ∷ []) else (r.sku ∷ done, [])
  ];
  primary_location = "";
  attribute_error = "AttributeError";
  now = 9;
}

-- A text among the records, and no primary location: the page is not handled.
abbrev text_page : Pull (List String) String String
text_page = record two_pages {
  fetch = λ r. ok (record {
    records = some (product (at_warehouse 1 "B" "") ∷ no_dict true ∷ []);
    next_url = none;
  });
}

abbrev account : Account
account = record { item_pull_cursor = none; item_pull_last_updated_at = some 5 }

text_raises : (pull_products text_page 0 false [] account).raised ≡ some "AttributeError"
unfolding pull_products
text_raises = refl

text_skipped :
    (pull_products (record text_page { primary_location = "HQ" }) 0 false [] account).content
    ≡ "B" ∷ []
unfolding pull_products dedupe_to_primary_location
text_skipped = refl

stopped : (pull_products two_pages 0 false [] account).outcome.last_cursor ≡ some "next"
unfolding pull_products
stopped = refl

first_failed : (pull_products two_pages 0 false [] account).outcome.page_failures ≡ "A" ∷ []
unfolding pull_products dedupe_to_primary_location
first_failed = refl

resumed_clean : (resumed two_pages 0 0 false [] account).outcome.page_failures ≡ []
unfolding pull_products dedupe_to_primary_location
resumed_clean = refl

pull_products-resumed_example :
    ((pull_products two_pages (0 + suc 0) false [] account).content
      ≡ (resumed two_pages 0 0 false [] account).content)
    × ((pull_products two_pages (0 + suc 0) false [] account).account.item_pull_cursor
        ≡ (resumed two_pages 0 0 false [] account).account.item_pull_cursor)
    × ((pull_products two_pages (0 + suc 0) false [] account).raised
        ≡ (resumed two_pages 0 0 false [] account).raised)
    × ((pull_products two_pages (0 + suc 0) false [] account).outcome.pages_walked
        ≡ (pull_products two_pages 0 false [] account).outcome.pages_walked
          + (resumed two_pages 0 0 false [] account).outcome.pages_walked)
    × ((pull_products two_pages (0 + suc 0) false [] account).outcome.products_processed
        ≡ (pull_products two_pages 0 false [] account).outcome.products_processed
          + (resumed two_pages 0 0 false [] account).outcome.products_processed)
unfolding pull_products
pull_products-resumed_example =
    pull_products-resumed two_pages 0 0 false [] account "next" refl refl stopped

pull_products-forgets_example :
    (next_request two_pages ((resumed two_pages 0 0 false [] account).account)
      ≡ from_start (some 9))
    × (next_request two_pages ((pull_products two_pages (0 + suc 0) false [] account).account)
        ≡ from_start (some 5))
unfolding pull_products
pull_products-forgets_example =
    pull_products-forgets two_pages 0 0 false [] account "next" refl refl stopped
      (λ e. let found : "A" ∷ [] ≡ [] = sym first_failed ∙ e in cc) refl refl resumed_clean
