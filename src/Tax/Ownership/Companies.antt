-- ===== src/Tax/Ownership/Companies.antt =====
-- item_pull.py, the taxes of an item for one company after the other, by the resolver of easyecom_tax_rule_map.py.
use mathlib.Core.Path.{subst}
use ecommerce_super.Base.{
  ◌≡◌, refl, sym, ap, ◌∙◌, ◌≢◌, ◌⊎◌, inl, inr, String, Bool, true, false, Option, none, some, List,
  [], ◌∷◌, ◌++◌, has, All, str_eq, eq_iff, arith, if◌then◌else◌, ℤ, Result, ok, first_returned,
  ok_injective, ◌&&◌,
}
use ecommerce_super.Tax.{
  TaxRow, TaxRuleMap, TaxedItem, TaxProduct, TaxResolutionResult, Books, TaxStore,
}
use ecommerce_super.Tax.Resolver.{
  by_map, apply_cess, auto_create, find_map, resolve_and_stamp_tax, cess_of, unruled, resolve_all,
}
use ecommerce_super.Tax.Ownership.{own, OwnMaps, auto_create-OwnMaps}
use ecommerce_super.Tax.Ownership.Stamps.{Stamped, resolve_and_stamp_tax-Stamped}

-- No company stands twice.
abbrev pub Distinct : List String → Type 0
Distinct [] = Unit
Distinct (c ∷ cs) = (has c cs ≡ false) × Distinct cs

module _ {E : Type 0} (b : Books E) where
  -- The maps that a resolution leaves: those it found, and perhaps one without rows.
  abbrev pub Grown : List TaxRuleMap → List TaxRuleMap → Type 0
  Grown maps after =
      (after ≡ maps) ⊎ ((m : TaxRuleMap) × (m.taxes ≡ []) × (after ≡ maps ++ (m ∷ [])))

  by_map-Grown :
      (p : TaxProduct) (c : String) (found : Option TaxRuleMap) (cess : ℤ) (item : TaxedItem)
      (st : TaxStore)
      → Grown (st.maps) ((by_map b p c found cess item st).2.maps)
  unfolding by_map auto_create
  by_map-Grown p c none cess item st = inr (_, refl, refl)
  by_map-Grown p c (some m) cess item st = inl refl

  resolve_and_stamp_tax-Grown :
      (p : TaxProduct) (c : String) (item : TaxedItem) (st : TaxStore)
      {out : TaxResolutionResult × TaxedItem × TaxStore}
      → resolve_and_stamp_tax b p c item st ≡ ok out
      → Grown (st.maps) (out.2.maps)
  unfolding resolve_and_stamp_tax
  resolve_and_stamp_tax-Grown p c item st {out} returned =
      let (cess, read, after) = first_returned (cess_of b (p.cess)) _ returned in
      named (str_eq (p.tax_rule_name) "") cess after
    where
      named :
          (unnamed : Bool) (cess : ℤ)
          → Path
              (Result E (TaxResolutionResult × TaxedItem × TaxStore))
              (if unnamed
                then ok (unruled b cess, item, st)
                else ok (
                    by_map b p c
                      (find_map (p.tax_rule_name) c (st.maps))
                      cess
                      (apply_cess b cess item)
                      st))
              (ok out)
          → Grown (st.maps) (out.2.maps)
      named true cess same = inl (ap (λ o. o.2.maps) (sym (ok_injective same)))
      named false cess same =
          subst (λ o. Grown (st.maps) (o.2.maps)) (ok_injective same)
            (by_map-Grown p c (find_map (p.tax_rule_name) c (st.maps)) cess (apply_cess b cess item)
              st)

  find_map-append :
      (rule c : String) (maps more : List TaxRuleMap) {m : TaxRuleMap}
      → find_map rule c maps ≡ some m
      → find_map rule c (maps ++ more) ≡ some m
  find_map-append rule c [] more found = cc
  find_map-append rule c (n ∷ maps) more {m} found =
      here (str_eq (n.tax_rule_name) rule && str_eq (n.company) c) found
        (λ later. find_map-append rule c maps more later)
    where
      here :
          (t : Bool)
          → (if t then some n else find_map rule c maps) ≡ some m
          → (find_map rule c maps ≡ some m → find_map rule c (maps ++ more) ≡ some m)
          → (if t then some n else find_map rule c (maps ++ more)) ≡ some m
      here true same later = same
      here false same later = later same

  still_found :
      (rule c : String) {maps after : List TaxRuleMap} {m : TaxRuleMap}
      → Grown maps after
      → find_map rule c maps ≡ some m
      → find_map rule c after ≡ some m
  still_found rule c (inl same) found = ap (find_map rule c) same ∙ found
  still_found rule c {maps} (inr (n, empty, same)) found =
      ap (find_map rule c) same ∙ find_map-append rule c maps (n ∷ []) found

  still_own : {maps after : List TaxRuleMap} → Grown maps after → OwnMaps b maps → OwnMaps b after
  still_own (inl same) owned = subst (OwnMaps b) (sym same) owned
  still_own {maps} (inr (m, empty, same)) owned =
      subst (OwnMaps b) (sym same) (auto_create-OwnMaps b "" "" maps m empty owned)

  Stamped-other :
      (p : TaxProduct) (c other : String) (item : TaxedItem) (st : TaxStore)
      (out : TaxResolutionResult × TaxedItem × TaxStore)
      → other ≢ c
      → Stamped b p c item st out
      → own b other (out.1.taxes) ≡ own b other (item.taxes)
  Stamped-other p c other item st out differ (inl (none_there, disagree, same, why)) =
      ap (own b other) same
  Stamped-other p c other item st out differ (inr (m, found, count, (own_rows, others, each))) =
      each other differ

  Stamped-own :
      (p : TaxProduct) (c : String) (item : TaxedItem) (st : TaxStore)
      (out : TaxResolutionResult × TaxedItem × TaxStore) (m : TaxRuleMap)
      → p.tax_rule_name ≢ ""
      → find_map (p.tax_rule_name) c (st.maps) ≡ some m
      → m.taxes ≢ []
      → Stamped b p c item st out
      → own b c (out.1.taxes) ≡ m.taxes
  Stamped-own p c item st out m ruled found full (inl (none_there, disagree, same, inl blank)) =
      elim (ruled blank) [ ]
  Stamped-own p c item st out m ruled found full (inl (none_there, disagree, same, inr empty)) =
      elim (full (empty m found)) [ ]
  Stamped-own p c item st out m ruled found full
        (inr (n, found', count, (own_rows, others, each))) =
      own_rows ∙ ap (λ o. rows_of o) (sym found' ∙ found)
    where
      rows_of : Option TaxRuleMap → List TaxRow
      rows_of none = []
      rows_of (some x) = x.taxes

  not_in : (c d : String) (cs : List String) → has c (d ∷ cs) ≡ false → (c ≢ d) × (has c cs ≡ false)
  not_in c d cs out_of = (λ same. cc ((eq_iff d c).1 (sym same), differs), later)
    where
      differs : str_eq d c ≡ false
      differs = ground arith

      later : has c cs ≡ false
      later = ground arith

  -- Companies that are not in the list keep their rows.
  resolve_all-others :
      (p : TaxProduct) (c : String) (cs : List String) (item : TaxedItem) (st : TaxStore)
      {out : TaxedItem × TaxStore}
      → OwnMaps b (st.maps)
      → has c cs ≡ false
      → resolve_all b p cs item st ≡ ok out
      → own b c (out.0.taxes) ≡ own b c (item.taxes)
  unfolding resolve_all
  resolve_all-others p c [] item st owned out_of returned =
      ap (λ o. own b c (o.0.taxes)) (sym (ok_injective returned))
  resolve_all-others p c (d ∷ cs) item st owned out_of returned =
      let ((result, after, left), read, rest) =
        first_returned (resolve_and_stamp_tax b p d item st) _ returned in
      let (differ, later) = not_in c d cs out_of in
      resolve_all-others p c cs after left
        (still_own (resolve_and_stamp_tax-Grown p d item st read) owned) later rest
      ∙ Stamped-other p d c item st (result, after, left) differ
          (resolve_and_stamp_tax-Stamped b p d item st owned read)

  -- Each company has the rows of its map.
  abbrev pub AllStamped : TaxProduct → List TaxRuleMap → List TaxRow → List String → Type 0
  AllStamped p maps taxes cs =
      All
        (λ c.
          (m : TaxRuleMap)
          → find_map (p.tax_rule_name) c maps ≡ some m
          → m.taxes ≢ []
          → own b c taxes ≡ m.taxes)
        cs

  stamped_before :
      (p : TaxProduct) (taxes : List TaxRow) (cs : List String) {maps after : List TaxRuleMap}
      → Grown maps after
      → AllStamped p after taxes cs
      → AllStamped p maps taxes cs
  stamped_before p taxes [] grown all_stamped = tt
  stamped_before p taxes (c ∷ cs) grown (this, all_stamped) = (
    λ m found full. this m (still_found (p.tax_rule_name) c grown found) full,
    stamped_before p taxes cs grown all_stamped,
  )

  -- When every map has rows of its own company only and no company stands twice, resolving a product with a rule name for
  -- one company after the other, when it returns, leaves each company that has a map of the rule with rows exactly those
  -- rows, whatever came before or after it.
  pub resolve_all-AllStamped :
      (p : TaxProduct) (cs : List String) (item : TaxedItem) (st : TaxStore)
      {out : TaxedItem × TaxStore}
      → p.tax_rule_name ≢ ""
      → OwnMaps b (st.maps)
      → Distinct cs
      → resolve_all b p cs item st ≡ ok out
      → AllStamped p (st.maps) (out.0.taxes) cs
  unfolding resolve_all
  resolve_all-AllStamped p [] item st ruled owned distinct returned = tt
  resolve_all-AllStamped p (c ∷ cs) item st {out} ruled owned (once, distinct) returned =
      let ((result, after, left), read, rest) =
        first_returned (resolve_and_stamp_tax b p c item st) _ returned in
      let grown = resolve_and_stamp_tax-Grown p c item st read in
      let own_left = still_own grown owned in
      (
        λ m found full.
            resolve_all-others p c cs after left own_left once rest
            ∙ Stamped-own p c item st (result, after, left) m ruled found full
                (resolve_and_stamp_tax-Stamped b p c item st owned read),
        stamped_before p (out.0.taxes) cs grown
            (resolve_all-AllStamped p cs after left ruled own_left distinct rest),
      )
