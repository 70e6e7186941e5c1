-- ===== src/Tax/Ownership/Stamps.antt =====
-- easyecom_tax_rule_map.py: what a resolution does to the rows of an item.
use mathlib.Core.Path.{subst}
use ecommerce_super.Base.{
  ◌≡◌, refl, sym, ap, ◌∙◌, ◌≢◌, ◌⊎◌, inl, inr, String, Bool, true, false, Option, none, some, List,
  [], ◌∷◌, length, str_eq, eq_iff, if◌then◌else◌, ℤ, Result, ok, first_returned, ok_injective,
}
use ecommerce_super.Tax.{
  TaxRow, TaxRuleMap, TaxedItem, TaxProduct, TaxResolutionResult, Books, TaxStore, preview_stamp,
}
use ecommerce_super.Tax.Resolver.{
  stamp_preview, stamp_and_reconcile, by_map, apply_cess, find_map, resolve_and_stamp_tax, cess_of,
  unruled,
}
use ecommerce_super.Tax.Ownership.{AllOwn, Replaced, OwnMaps, replaced, find_map-AllOwn}

module _ {E : Type 0} (b : Books E) where
  -- What a resolution did to the taxes of an item: nothing, or a stamp of the rows of the company's map.
  abbrev pub Stamped :
      TaxProduct
      → String
      → TaxedItem
      → TaxStore
      → TaxResolutionResult × TaxedItem × TaxStore
      → Type 0
  Stamped p c item st out =
      ((out.0.stamped_count ≡ 0)
        × (out.0.reconciled ≡ false)
        × (out.1.taxes ≡ item.taxes)
        × ((p.tax_rule_name ≡ "")
            ⊎ ((m : TaxRuleMap) → find_map (p.tax_rule_name) c (st.maps) ≡ some m → m.taxes ≡ [])))
      ⊎ ((m : TaxRuleMap) × (find_map (p.tax_rule_name) c (st.maps) ≡ some m)
          × (out.0.stamped_count ≡ length (m.taxes))
          × Replaced b c (m.taxes) (item.taxes) (out.1.taxes))

  cess_taxes : (cess : ℤ) (item : TaxedItem) → (apply_cess b cess item).taxes ≡ item.taxes
  unfolding apply_cess
  cess_taxes cess item = refl

  none_found : {o : Option TaxRuleMap} {m : TaxRuleMap} → o ≡ none → o ≢ some m
  none_found missing found = cc

  same_map : {m n : TaxRuleMap} → some m ≡ some n → m ≡ n
  same_map same = cc

  by_map-Stamped :
      (p : TaxProduct) (c : String) (cess : ℤ) (item : TaxedItem) (st : TaxStore)
      (found : Option TaxRuleMap)
      → find_map (p.tax_rule_name) c (st.maps) ≡ found
      → OwnMaps b (st.maps)
      → Stamped p c item st (by_map b p c found cess (apply_cess b cess item) st)
  unfolding by_map stamp_and_reconcile stamp_preview preview_stamp apply_cess
  by_map-Stamped p c cess item st none same owned =
      inl (refl, refl, refl, inr (λ m found. elim (none_found same found) [ ]))
  by_map-Stamped p c cess item st (some m) same owned = rows (m.taxes) refl
    where
      rows :
          (taxes : List TaxRow)
          → m.taxes ≡ taxes
          → Stamped p c item st (by_map b p c (some m) cess (apply_cess b cess item) st)
      rows [] empty = inl (
        rw (empty) refl,
        rw (empty) refl,
        rw (empty) refl,
        inr (λ n found. ap (λ x. x.taxes) (same_map (sym found ∙ same)) ∙ empty),
      )
      rows (r ∷ taxes) full = inr (
        m,
        same,
        rw (full) refl,
        rw (full) (
            replaced b c (r ∷ taxes) (item.taxes) (
              subst (AllOwn b c) full
                (find_map-AllOwn b (p.tax_rule_name) c (st.maps) owned same))),
      )

  -- When every map has rows of its own company only, a resolution that returns either leaves the taxes of the item as they
  -- were, stamps nothing and reports no agreement, which happens only for a product without a rule name or a company
  -- without a map of that rule with rows; or it stamps the map that the rule and the company have: the company's rows
  -- become those of the map, the rows that belong to no company or to another one stay in their order, and so do those of
  -- each other company.
  pub resolve_and_stamp_tax-Stamped :
      (p : TaxProduct) (c : String) (item : TaxedItem) (st : TaxStore)
      {out : TaxResolutionResult × TaxedItem × TaxStore}
      → OwnMaps b (st.maps)
      → resolve_and_stamp_tax b p c item st ≡ ok out
      → Stamped p c item st out
  unfolding resolve_and_stamp_tax
  resolve_and_stamp_tax-Stamped p c item st {out} owned returned =
      let (cess, read, after) = first_returned (cess_of b (p.cess)) _ returned in
      named (str_eq (p.tax_rule_name) "") refl cess after
    where
      named :
          (unnamed : Bool)
          → str_eq (p.tax_rule_name) "" ≡ unnamed
          → (cess : ℤ)
          → Path
              (Result E (TaxResolutionResult × TaxedItem × TaxStore))
              (if unnamed
                then ok (unruled b cess, item, st)
                else ok (
                    by_map b p c
                      (find_map (p.tax_rule_name) c (st.maps))
                      cess
                      (apply_cess b cess item)
                      st))
              (ok out)
          → Stamped p c item st out
      named true blank cess same =
          subst (Stamped p c item st) (ok_injective same)
            (inl (refl, refl, refl, inl ((eq_iff (p.tax_rule_name) "").0 blank)))
      named false filled cess same =
          subst (Stamped p c item st) (ok_injective same)
            (by_map-Stamped p c cess item st _ refl owned)
