-- ===== src/Flows/Products/Linked.antt =====
-- ecommerce_super/easyecom/flows/item_pull.py: the map and the items after one product.
use ecommerce_super.Flows.Products.Processed.{IsAttached, process_one_product-Processed}
use ecommerce_super.Base.{
  String, ◌≡◌, refl, sym, ap, ◌∙◌, ◌≢◌, ◌⊎◌, inl, inr, Bool, true, false, ◌||◌, not, Option, none,
  some, List, [], ◌∷◌, arith, eq_iff, str_eq, Bool-cases, All, lookup, lookup_hit, lookup_miss,
  put_at, put_at_hit, put_at_miss, is_there, lookup-put_at, ok,
}
use mathlib.Core.Path.{subst}
use ecommerce_super.Flows.Products.Catalogue.{
  mapped, created_flagged, flagged_not_created, Reason, MapRow, Item, Catalogue, EeProduct,
  ProductOutcome, Desk, Linked, combo_type, flagged_row, with_flag,
}
use ecommerce_super.Flows.Products.Upsert.{final_status, finalised, process_one_product}

some_row : {a b : MapRow} → some a ≡ some b → a ≡ b
some_row same = cc

-- A row without a target, with a target that is no item, or with an item that is there.
abbrev pub is_linked : List (String × Item) → MapRow → Bool
is_linked items row =
    str_eq (row.erpnext_name) ""
    || (not (str_eq (row.erpnext_doctype) "Item") || is_there (row.erpnext_name) items)

abbrev pub IsSound : Catalogue → Type 0
IsSound cat = All (λ (sku, row). is_linked (cat.items) row ≡ true) (cat.maps)

-- A property of every row stays when a row that has it is put.
All-put_at :
    (P : MapRow → Type 0) (k : String) (row : MapRow) (m : List (String × MapRow))
    → All (λ (j, w). P w) m
    → P row
    → All (λ (j, w). P w) (put_at k row m)
unfolding put_at
All-put_at P k row [] all this = (this, tt)
All-put_at P k row ((j, w) ∷ m) (first, rest) this = elim (Bool-cases (str_eq j k)) [
  | inl e ↦ subst (All (λ (i, v). P v)) (sym (put_at_hit k j row w m e)) (this, rest)
  | inr e ↦
      subst (All (λ (i, v). P v)) (sym (put_at_miss k j row w m e))
        (first, All-put_at P k row m rest this)
]

-- More items link the same rows.
All-linked :
    (items : List (String × Item)) (n : String) (item : Item) (m : List (String × MapRow))
    → All (λ (j, w). is_linked items w ≡ true) m
    → All (λ (j, w). is_linked (put_at n item items) w ≡ true) m
All-linked items n item [] linked = tt
All-linked items n item ((j, w) ∷ m) (first, rest) =
    (still_linked items n item w first, All-linked items n item m rest)
  where
    still_linked :
        (items : List (String × Item)) (n : String) (item : Item) (w : MapRow)
        → is_linked items w ≡ true
        → is_linked (put_at n item items) w ≡ true
    still_linked items n item w linked = ground (arith, lookup-put_at (w.erpnext_name) n item items)

found_linked :
    (items : List (String × Item)) (k : String) (m : List (String × MapRow)) {row : MapRow}
    → All (λ (j, w). is_linked items w ≡ true) m
    → lookup k m ≡ some row
    → is_linked items row ≡ true
found_linked items k [] linked found = cc
found_linked items k ((j, w) ∷ m) (first, rest) found = elim (Bool-cases (str_eq j k)) [
  | inl e ↦
      subst (λ r. is_linked items r ≡ true) (some_row (sym (lookup_hit k j w m e) ∙ found)) first
  | inr e ↦ found_linked items k m rest (sym (lookup_miss k j w m e) ∙ found)
]

flagged_row-is_linked :
    (items : List (String × Item)) (p : EeProduct) (reason : Reason) (o : Option MapRow)
    → ((row : MapRow) → o ≡ some row → is_linked items row ≡ true)
    → is_linked items (flagged_row p reason o) ≡ true
flagged_row-is_linked items p reason none linked = refl
flagged_row-is_linked items p reason (some row) linked = linked row refl

attached-is_linked :
    (items : List (String × Item)) (n : String) (item : Item) (row : MapRow)
    → row.erpnext_name ≡ n
    → is_linked (put_at n item items) row ≡ true
attached-is_linked items n item row named =
    ground
      (arith, named, eq_iff n (row.erpnext_name), lookup-put_at (row.erpnext_name) n item items)

put_there :
    (k : String) (row : MapRow) (m : List (String × MapRow)) → lookup k (put_at k row m) ≡ some row
put_there k row m = ground (arith, eq_iff k k, lookup-put_at k k row m)

named_there :
    (items : List (String × Item)) (n : String) (item : Item) (row : MapRow)
    → row.erpnext_name ≡ n
    → is_there (row.erpnext_name) (put_at n item items) ≡ true
named_there items n item row named =
    ground
      (arith, named, eq_iff n (row.erpnext_name), lookup-put_at (row.erpnext_name) n item items)

flagged_status :
    (p : EeProduct) (reason : Reason) (o : Option MapRow)
    → (flagged_row p reason o).status ≡ flagged_not_created
flagged_status p reason none = refl
flagged_status p reason (some row) = refl

flagged_reasons :
    (p : EeProduct) (reason : Reason) (o : Option MapRow)
    → (flagged_row p reason o).flag_reasons ≡ reason ∷ []
flagged_reasons p reason none = refl
flagged_reasons p reason (some row) = refl

module _ {E : Type 0} (d : Desk E) where
  -- In onboarding mode, a product that is no combo leaves each row of the map without a target, with a target that is no
  -- item, or with an item that is there, when the rows were so before.
  pub process_one_product-IsSound :
      (p : EeProduct) (cat : Catalogue) {out : ProductOutcome × Catalogue}
      → d.erpnext_mastered ≡ false
      → str_eq (p.product_type) combo_type ≡ false
      → IsSound cat
      → process_one_product d p cat ≡ ok out
      → IsSound (out.1)
  unfolding with_flag finalised
  process_one_product-IsSound p cat onboarding single sound returned =
      elim (process_one_product-Processed d p cat onboarding single returned) [
        | inl (reason, same) ↦
            subst (λ o. IsSound (o.1)) (sym same)
              (All-put_at (λ w. is_linked (cat.items) w ≡ true) (p.sku) _ (cat.maps) sound
                (flagged_row-is_linked (cat.items) p reason (lookup (p.sku) (cat.maps))
                  (λ row found. found_linked (cat.items) (p.sku) (cat.maps) sound found)))
        | inr (l, (item, (reasons, (same, (to_item, named))))) ↦
            subst (λ o. IsSound (o.1)) (sym same)
              (All-put_at (λ w. is_linked (put_at (l.name) item (cat.items)) w ≡ true) (p.sku)
                (record (l.row) { status = final_status d reasons; flag_reasons = reasons })
                (cat.maps) (All-linked (cat.items) (l.name) item (cat.maps) sound)
                (attached-is_linked (cat.items) (l.name) item
                  (record (l.row) { status = final_status d reasons; flag_reasons = reasons })
                  named))
      ]

  -- The row of a product says what the outcome says.
  abbrev pub IsRecorded : EeProduct → Catalogue → ProductOutcome × Catalogue → Type 0
  IsRecorded p cat out =
      (row : MapRow) × (lookup (p.sku) (out.1.maps) ≡ some row)
      × (row.status ≡ out.0.status)
      × (row.flag_reasons ≡ out.0.flag_reasons)
      × (((row.status ≡ flagged_not_created) × (out.1.items ≡ cat.items))
          ⊎ ((row.erpnext_doctype ≡ "Item")
              × (is_there (row.erpnext_name) (out.1.items) ≡ true)
              × (out.0.erpnext_name ≡ some (row.erpnext_name))
              × (((row.flag_reasons ≡ []) × (row.status ≡ mapped))
                  ⊎ ((row.flag_reasons ≢ []) × (row.status ≡ created_flagged)))))

  flagged-IsRecorded :
      (p : EeProduct) (reason : Reason) (cat : Catalogue)
      → IsRecorded p cat (with_flag p reason cat)
  unfolding with_flag
  flagged-IsRecorded p reason cat = (
    flagged_row p reason (lookup (p.sku) (cat.maps)),
    put_there (p.sku) _ (cat.maps),
    flagged_status p reason (lookup (p.sku) (cat.maps)),
    flagged_reasons p reason (lookup (p.sku) (cat.maps)),
    inl (flagged_status p reason (lookup (p.sku) (cat.maps)), refl),
  )

  -- Mapped without reasons, and Created-Flagged with some.
  status_by :
      (reasons : List Reason)
      → ((reasons ≡ []) × (final_status d reasons ≡ mapped))
        ⊎ ((reasons ≢ []) × (final_status d reasons ≡ created_flagged))
  status_by [] = inl (refl, refl)
  status_by (r ∷ reasons) = inr (λ same. cc, refl)

  finalised-IsRecorded :
      (p : EeProduct) (cat : Catalogue) (l : Linked) (item : Item) (reasons : List Reason)
      → IsAttached d l
      → IsRecorded p cat (finalised d p cat l item reasons)
  unfolding finalised
  finalised-IsRecorded p cat l item reasons (to_item, named) = (
    record (l.row) { status = final_status d reasons; flag_reasons = reasons },
    put_there (p.sku) _ (cat.maps),
    refl,
    refl,
    inr (
      to_item,
      named_there (cat.items) (l.name) item (l.row) named,
      ap some (sym named),
      status_by reasons,
    ),
  )

  -- In onboarding mode, a product that is no combo has a row whose status and reasons are those of the outcome, and either it is
  -- Flagged-Not-Created and no item changed, or it names an item that is there and its status is Mapped without reasons and
  -- Created-Flagged with some.
  pub process_one_product-IsRecorded :
      (p : EeProduct) (cat : Catalogue) {out : ProductOutcome × Catalogue}
      → d.erpnext_mastered ≡ false
      → str_eq (p.product_type) combo_type ≡ false
      → process_one_product d p cat ≡ ok out
      → IsRecorded p cat out
  process_one_product-IsRecorded p cat onboarding single returned =
      elim (process_one_product-Processed d p cat onboarding single returned) [
        | inl (reason, same) ↦ subst (IsRecorded p cat) (sym same) (flagged-IsRecorded p reason cat)
        | inr (l, (item, (reasons, (same, attached)))) ↦
            subst (IsRecorded p cat) (sym same) (finalised-IsRecorded p cat l item reasons attached)
      ]

  -- A row with a target and the status that no item was created.
  abbrev pub KeepsTarget : EeProduct → MapRow → ProductOutcome × Catalogue → Type 0
  KeepsTarget p row out =
      (after : MapRow) × (lookup (p.sku) (out.1.maps) ≡ some after)
      × (after.status ≡ flagged_not_created)
      × (after.erpnext_name ≡ row.erpnext_name)
      × (after.erpnext_doctype ≡ row.erpnext_doctype)

  flagged-KeepsTarget :
      (p : EeProduct) (reason : Reason) (cat : Catalogue) (row : MapRow)
      → lookup (p.sku) (cat.maps) ≡ some row
      → KeepsTarget p row (with_flag p reason cat)
  unfolding with_flag
  flagged-KeepsTarget p reason cat row found = (
    flagged_row p reason (lookup (p.sku) (cat.maps)),
    put_there (p.sku) _ (cat.maps),
    flagged_status p reason (lookup (p.sku) (cat.maps)),
    ap (λ o. (flagged_row p reason o).erpnext_name) found,
    ap (λ o. (flagged_row p reason o).erpnext_doctype) found,
  )

  finalised_status :
      (p : EeProduct) (cat : Catalogue) (l : Linked) (item : Item) (reasons : List Reason)
      → (finalised d p cat l item reasons).0.status ≢ flagged_not_created
  unfolding finalised
  finalised_status p cat l item [] same = cc
  finalised_status p cat l item (r ∷ reasons) same = cc

  -- In onboarding mode, when a product that is no combo comes out as Flagged-Not-Created although its row had a target, the
  -- row is Flagged-Not-Created and keeps that target: the status says that no item was created, and the row names one.
  pub process_one_product-KeepsTarget :
      (p : EeProduct) (cat : Catalogue) (row : MapRow) {out : ProductOutcome × Catalogue}
      → d.erpnext_mastered ≡ false
      → str_eq (p.product_type) combo_type ≡ false
      → lookup (p.sku) (cat.maps) ≡ some row
      → process_one_product d p cat ≡ ok out
      → out.0.status ≡ flagged_not_created
      → KeepsTarget p row out
  process_one_product-KeepsTarget p cat row onboarding single found returned flagged =
      elim (process_one_product-Processed d p cat onboarding single returned) [
        | inl (reason, same) ↦
            subst (KeepsTarget p row) (sym same) (flagged-KeepsTarget p reason cat row found)
        | inr (l, (item, (reasons, (same, attached)))) ↦
            elim (finalised_status p cat l item reasons
              (ap (λ o. o.0.status) (sym same) ∙ flagged)) [ ]
      ]
