-- ===== src/Flows/Products/Dedupe.antt =====
-- ecommerce_super/easyecom/flows/item_pull.py: the record of a SKU that a page keeps.
use ecommerce_super.Base.{
  String, ◌≡◌, refl, ap, ◌∙◌, ◌≢◌, inl, inr, Bool, true, false, ◌&&◌, ◌||◌, not, Option, none, some,
  List, [], ◌∷◌, arith, eq_iff, str_eq, if◌then◌else◌, Bool-cases, has, lookup,
}
use ecommerce_super.Flows.Products.{
  Product, put_by, is_some, in_dict, first_seen, prefer, dedupe_to_primary_location,
}

-- The first record of a SKU.
unfoldable pub first_of : String → List (Option Product) → Option Product
first_of sku [] = none
first_of sku (none ∷ records) = first_of sku records
first_of sku (some r ∷ records) =
    let rest = first_of sku records in if str_eq (r.sku) sku then some r else rest

-- The last record of a SKU at a location.
unfoldable pub last_at : String → String → List (Option Product) → Option Product
last_at location sku [] = none
last_at location sku (none ∷ records) = last_at location sku records
last_at location sku (some r ∷ records) =
    let rest = last_at location sku records in
    if str_eq (r.sku) sku && (str_eq (r.company_name) location && not (is_some rest))
    then some r
    else rest

abbrev pub or_option : Option Product → Option Product → Option Product
or_option none o = o
or_option (some r) o = some r

-- The record of the primary location, or the first one.
unfoldable pub chosen : String → String → List (Option Product) → Option Product
unfolding first_of last_at
chosen primary sku records =
    if str_eq primary ""
    then first_of sku records
    else or_option (last_at primary sku records) (first_of sku records)

lookup-put_by :
    (k j : String) (r : Product) (m : List (String × Product))
    → lookup k (put_by j r m) ≡ (if str_eq j k then some r else lookup k m)
unfolding put_by
lookup-put_by k j r [] = ground arith
lookup-put_by k j r ((i, q) ∷ m) =
    ground (arith, eq_iff i j, eq_iff j k, eq_iff i k, lookup-put_by k j r m)

-- Without a primary location, what is already there stays, and the first record of any other SKU is added.
first_seen-lookup :
    (k : String) (records : List (Option Product)) (seen : List (String × Product))
    → k ≢ ""
    → lookup k (first_seen records seen) ≡ or_option (lookup k seen) (first_of k records)
unfolding first_seen first_of
first_seen-lookup k [] seen named = ground arith
first_seen-lookup k (none ∷ records) seen named = first_seen-lookup k records seen named
first_seen-lookup k (some r ∷ records) seen named = ground (
  arith,
  eq_iff (r.sku) k,
  eq_iff (r.sku) "",
  first_seen-lookup k records seen named,
  first_seen-lookup k records (put_by (r.sku) r seen) named,
  lookup-put_by k (r.sku) r seen,
)

listed-put_by :
    (k : String) (r : Product) (by_sku : List (String × Product)) (primary_seen : List String)
    → (not (has k primary_seen) || in_dict k by_sku) ≡ true
    → (not (has k primary_seen) || in_dict k (put_by (r.sku) r by_sku)) ≡ true
listed-put_by k r by_sku primary_seen listed = ground (arith, lookup-put_by k (r.sku) r by_sku)

listed_add :
    (k : String) (r : Product) (by_sku : List (String × Product)) (primary_seen : List String)
    → (not (has k primary_seen) || in_dict k by_sku) ≡ true
    → (not (has k (r.sku ∷ primary_seen)) || in_dict k (put_by (r.sku) r by_sku)) ≡ true
listed_add k r by_sku primary_seen listed = ground (arith, lookup-put_by k (r.sku) r by_sku)

lookup_if :
    (k : String) (b : Bool) (m n : List (String × Product))
    → lookup k (if b then m else n) ≡ (if b then lookup k m else lookup k n)
lookup_if k true m n = refl
lookup_if k false m n = refl

lookup_ifs :
    (k : String) (b c : Bool) (l m n : List (String × Product))
    → lookup k (if b then l else if c then m else n)
      ≡ (if b then lookup k l else if c then lookup k m else lookup k n)
lookup_ifs k true c l m n = refl
lookup_ifs k false true l m n = refl
lookup_ifs k false false l m n = refl

apart : (k sku : String) → k ≢ "" → (not (str_eq sku k) || not (str_eq sku "")) ≡ true
apart k sku named = ground (arith, eq_iff sku k, eq_iff sku "")

-- A record of the SKU is a fallback exactly when the SKU is not there.
unseen :
    (k sku : String) (by_sku : List (String × Product)) (primary_seen : List String)
    → (not (has k primary_seen) || in_dict k by_sku) ≡ true
    → str_eq sku k ≡ true
    → (not (has sku primary_seen) && not (in_dict sku by_sku)) ≡ not (is_some (lookup k by_sku))
unseen k sku by_sku primary_seen listed same =
    let found : sku ≡ k = (eq_iff sku k).0 same in
    ap (λ s. not (has s primary_seen) && not (in_dict s by_sku)) found
    ∙ absent (has k primary_seen) (in_dict k by_sku) listed
  where
    absent : (s d : Bool) → (not s || d) ≡ true → (not s && not d) ≡ not d
    absent true true l = refl
    absent true false l = cc
    absent false d l = refl

-- One record of the loop, by its tests.
one_record :
    (same blank master fallback : Bool) (r : Product) (last there first : Option Product)
    {kept added added_too found : Option Product}
    → (not same || not blank) ≡ true
    → (same ≡ true → fallback ≡ not (is_some there))
    → kept ≡ or_option last (or_option there first)
    → found ≡ (if master then added else if fallback then added_too else kept)
    → added ≡ or_option last (or_option (if same then some r else there) first)
    → added_too ≡ or_option last (or_option (if same then some r else there) first)
    → (if blank then kept else found)
      ≡ or_option
          (if same && (master && not (is_some last)) then some r else last)
          (or_option there (if same then some r else first))
one_record false true master fallback r last there first named unseen keeps finds adds adds_too =
    keeps
one_record false false true fallback r last there first named unseen keeps finds adds adds_too =
    finds ∙ adds
one_record false false false true r last there first named unseen keeps finds adds adds_too =
    finds ∙ adds_too
one_record false false false false r last there first named unseen keeps finds adds adds_too =
    finds ∙ keeps
one_record true true master fallback r last there first named unseen keeps finds adds adds_too = cc
one_record true false true fallback r none there first named unseen keeps finds adds adds_too =
    finds ∙ adds
one_record true false true fallback r (some l) there first named unseen keeps finds adds adds_too =
    finds ∙ adds
one_record true false false true r last none first named unseen keeps finds adds adds_too =
    finds ∙ adds_too
one_record true false false true r last (some t) first named unseen keeps finds adds adds_too =
    let no_room = unseen refl in cc
one_record true false false false r last none first named unseen keeps finds adds adds_too =
    let no_room = unseen refl in cc
one_record true false false false r last (some t) first named unseen keeps finds adds adds_too =
    finds ∙ keeps

-- With one, its last record of a SKU replaces what is there; `primary_seen` lists SKUs that are there.
prefer-lookup :
    (primary k : String) (records : List (Option Product)) (by_sku : List (String × Product))
    (primary_seen : List String)
    → k ≢ ""
    → (not (has k primary_seen) || in_dict k by_sku) ≡ true
    → lookup k (prefer primary records by_sku primary_seen)
      ≡ or_option (last_at primary k records) (or_option (lookup k by_sku) (first_of k records))
unfolding prefer first_of last_at
prefer-lookup primary k [] by_sku primary_seen named listed = ground arith
prefer-lookup primary k (none ∷ records) by_sku primary_seen named listed =
    prefer-lookup primary k records by_sku primary_seen named listed
prefer-lookup primary k (some r ∷ records) by_sku primary_seen named listed =
    lookup_if k (str_eq (r.sku) "") _ _
    ∙ (one_record (str_eq (r.sku) k) (str_eq (r.sku) "") (str_eq (r.company_name) primary)
        (not (has (r.sku) primary_seen) && not (in_dict (r.sku) by_sku)) r
        (last_at primary k records) (lookup k by_sku) (first_of k records) (apart k (r.sku) named)
        (unseen k (r.sku) by_sku primary_seen listed)
        (prefer-lookup primary k records by_sku primary_seen named listed)
        (lookup_ifs k (str_eq (r.company_name) primary)
          (not (has (r.sku) primary_seen) && not (in_dict (r.sku) by_sku)) _ _ _)
        (prefer-lookup primary k records (put_by (r.sku) r by_sku) (r.sku ∷ primary_seen) named
            (listed_add k r by_sku primary_seen listed)
          ∙ ap (λ o. or_option (last_at primary k records) (or_option o (first_of k records)))
              (lookup-put_by k (r.sku) r by_sku))
        (prefer-lookup primary k records (put_by (r.sku) r by_sku) primary_seen named
            (listed-put_by k r by_sku primary_seen listed)
          ∙ ap (λ o. or_option (last_at primary k records) (or_option o (first_of k records)))
              (lookup-put_by k (r.sku) r by_sku)))

-- For each SKU, what a page keeps is the last record of the primary location, or else the first record; without a primary
-- location it is the first record.
pub dedupe_to_primary_location_lem :
    (primary k : String) (records : List (Option Product))
    → k ≢ ""
    → lookup k (dedupe_to_primary_location primary records) ≡ chosen primary k records
unfolding dedupe_to_primary_location chosen
dedupe_to_primary_location_lem primary k records named = elim (Bool-cases (str_eq primary "")) [
  | inl e ↦ rw e (first_seen-lookup k records [] named)
  | inr e ↦ rw e (prefer-lookup primary k records [] [] named refl)
]
