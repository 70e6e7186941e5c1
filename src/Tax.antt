-- ===== src/Tax.antt =====
-- ecommerce_super/easyecom/doctype/easyecom_tax_rule_map/easyecom_tax_rule_map.py: the taxes of an item, from a map of
-- EasyEcom's tax rules. Rates are decimals in ten-thousandths (a template's percentages in hundredths), without rounding.
pub mod Resolver
pub mod Samples
pub mod Ownership
pub mod Verdict
use ecommerce_super.Base.{
  ℕ, zero, suc, ◌≡◌, String, Bool, true, false, ◌&&◌, ◌||◌, not, Option, none, some, List, [], ◌∷◌,
  ◌++◌, leb, str_eq, if◌then◌else◌, ℤ, pos, negsuc, ◌+ℤ◌, ◌-ℤ◌, pos_part, neg_part, ◌+◌, append,
  starts_with, contains, put_at, lookup, length, Result, ok, err, ◌>>=◌,
}
use ecommerce_super.Payload.{Json, null, text}
use ecommerce_super.Mapping.Transforms.{truthy}

-- A row of a map's taxes, and of an item's; an empty column is the empty text.
pub record TaxRow : Type 0 where
  pub item_tax_template : String
  pub tax_category : String
  pub valid_from : String
  pub minimum_net_rate : ℤ
  pub maximum_net_rate : ℤ

-- A row of EasyEcom Tax Rule Map.
pub record TaxRuleMap : Type 0 where
  pub name : String
  pub tax_rule_name : String
  pub company : String
  pub workflow_state : String
  pub taxes : List TaxRow

-- What the resolver reads and writes of an item: `ecs_cess` is the column, `flags_cess` the attribute.
pub record TaxedItem : Type 0 where
  pub taxes : List TaxRow
  pub ecs_cess : ℤ
  pub flags_cess : ℤ

-- `product`, with null for a missing key.
pub record TaxProduct : Type 0 where
  pub tax_rule_name : String
  pub tax_rate : Json
  pub cess : Json

-- An entry of `discrepancies`.
pub data Discrepancy : Type 0 where
  no_rule_name no_rows : Discrepancy
  no_map : (auto_name : String) → Discrepancy
  not_a_number : (value : Json) → Discrepancy
  no_effective_rate : (templates : ℕ) → Discrepancy
  no_match : (rate : ℤ) (rates : List ℤ) → Discrepancy

pub record TaxResolutionResult : Type 0 where
  pub is_mapped : Bool
  pub auto_created : Bool
  pub map_docname : Option String
  pub stamped_count : ℕ
  pub cess : ℤ
  pub reconciled : Bool
  pub discrepancies : List Discrepancy

-- `empty_reason` is given just when the map has no rows.
pub record StampPreview : Type 0 where
  pub rows_to_stamp : List TaxRow
  pub template_rates : List (String × ℤ)
  pub is_mapped : Bool

-- ERPNext and Python. `details` are the rows of an Item Tax Template, none when they cannot be read; `float` is none where
-- Python raises, which as an exception is `not_a_float`.
pub record Books (E : Type 0) : Type 0 where
  pub template_company : String → Option String
  pub details : String → Option (List (String × ℤ))
  pub float : Json → Option ℤ
  pub not_a_float : E
  pub has_cess_field : Bool
  pub map_name : String → String → String

-- The documents that a resolution reads and writes: the maps, and the names that users were notified of.
pub record TaxStore : Type 0 where
  pub maps : List TaxRuleMap
  pub notified : List String

-- `_is_canonical_output`
unfoldable pub is_canonical_output : String → String → Bool
unfolding contains
is_canonical_output tt head =
    not (contains "RCM" tt || contains "Refund" tt)
    && (starts_with (append (append "Output Tax " head) " ") tt
        || str_eq tt (append "Output Tax " head))

abbrev pub first_canonical : String → List (String × ℤ) → Option ℤ
first_canonical head [] = none
first_canonical head ((tt, rate) ∷ rows) =
    if is_canonical_output tt head then some rate else first_canonical head rows

abbrev pub sum_canonical : String → List (String × ℤ) → ℤ
sum_canonical head [] = pos 0
sum_canonical head ((tt, rate) ∷ rows) =
    if is_canonical_output tt head then rate +ℤ sum_canonical head rows else sum_canonical head rows

abbrev pub is_zero : ℤ → Bool
is_zero (pos zero) = true
is_zero (pos (suc n)) = false
is_zero (negsuc n) = false

abbrev pub rate_of_rows : List (String × ℤ) → Option ℤ
rate_of_rows rows = elim (first_canonical "IGST" rows) [
  | some igst ↦ some igst
  | none ↦
      let cgst = sum_canonical "CGST" rows in
      let sgst = sum_canonical "SGST" rows in
      if not (is_zero cgst) || not (is_zero sgst) then some (cgst +ℤ sgst) else none
]

-- `abs(a - b) <= RATE_RECONCILE_TOLERANCE`
abbrev pub within_tolerance : ℤ → ℤ → Bool
within_tolerance a b =
    let left = pos_part a + neg_part b in
    let right = pos_part b + neg_part a in leb left (suc right) && leb right (suc left)

unfoldable pub any_within : ℤ → List (String × ℤ) → Bool
any_within rate [] = false
any_within rate ((t, r) ∷ rates) = within_tolerance rate r || any_within rate rates

abbrev pub rates_of : List (String × ℤ) → List ℤ
rates_of [] = []
rates_of ((t, r) ∷ rates) = r ∷ rates_of rates

abbrev pub against : ℤ → StampPreview → List (String × ℤ) → Bool × List Discrepancy
against rate preview [] = (false, no_effective_rate (length (preview.rows_to_stamp)) ∷ [])
against rate preview (r ∷ rates) =
    if any_within rate (r ∷ rates)
    then (true, [])
    else (false, no_match rate (rates_of (r ∷ rates)) ∷ [])

-- What `resolved_rate` is: None, something that `float` refuses, or a number.
pub data RateGiven : Type 0 where
  not_given : RateGiven
  unreadable : (value : Json) → RateGiven
  given : (rate : ℤ) → RateGiven

unfoldable pub reconcile_rate : RateGiven → StampPreview → Bool × List Discrepancy
reconcile_rate not_given preview = (true, [])
reconcile_rate (unreadable value) preview = (false, not_a_number value ∷ [])
reconcile_rate (given rate) preview = against rate preview (preview.template_rates)

abbrev pub is_null : Json → Bool
is_null null = true
is_null _ = false

module _ {E : Type 0} (b : Books E) where
  -- `_effective_rate_for_template`
  unfoldable pub effective_rate : String → Option ℤ
  effective_rate template =
      if str_eq template ""
      then none
      else elim (b.details template) [ none ↦ none | some rows ↦ rate_of_rows rows ]

  unfoldable pub template_rates_from : List (String × ℤ) → List TaxRow → List (String × ℤ)
  template_rates_from rates [] = rates
  template_rates_from rates (r ∷ rows) = elim (effective_rate (r.item_tax_template)) [
    | none ↦ template_rates_from rates rows
    | some rate ↦ template_rates_from (put_at (r.item_tax_template) rate rates) rows
  ]

  unfoldable pub preview_stamp : List TaxRow → StampPreview
  preview_stamp [] = record { rows_to_stamp = []; template_rates = []; is_mapped = false }
  preview_stamp (r ∷ rows) = record {
    rows_to_stamp = r ∷ rows;
    template_rates = template_rates_from [] (r ∷ rows);
    is_mapped = true;
  }

  -- `resolved_rate` as `float` reads it.
  abbrev pub read_number : Json → Option ℤ → RateGiven
  read_number value none = unreadable value
  read_number value (some rate) = given rate

  unfoldable pub read_rate : Json → RateGiven
  read_rate value = if is_null value then not_given else read_number value (b.float value)
