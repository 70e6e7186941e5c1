-- ===== src/Mapping/Args/Accepted.antt =====
-- ecommerce_super/easyecom/field_mapping/transformers.py: transformers on the arguments that their validators took.
use ecommerce_super.Mapping.Args.Clean.{
  IsClean, ok-IsClean, refused-IsClean, other-IsClean, raised-IsClean, chain-IsClean, test-IsClean,
  found_or_refused-IsClean, filled_or_refused-IsClean, required_arg-IsClean, first_key, key-IsClean,
  default-IsClean, map_dict-IsClean, yn_to_bool-IsClean, IsSettled-when, IsSettled-unless, differs,
  sentinel,
}
use ecommerce_super.Base.{
  String, ◌≡◌, refl, sym, ap, ◌∙◌, ◌≢◌, ◌⊎◌, inl, Bool, true, false, ◌||◌, not, Option, none, some,
  List, [], ◌∷◌, eq_iff, str_eq, has, strip, Result, ok, ◌>>=◌, first_returned, passed_check,
  left_out,
}
use ecommerce_super.Payload.{
  Json, null, flag, number, text, array, dict, Items, no_items, item, Entries, entry, get,
}
use ecommerce_super.Mapping.{Fault, unknown_transformer, compose_name}
use ecommerce_super.Mapping.Sandbox.{Node}
use ecommerce_super.Mapping.Args.{
  transformers, require_keys, check_condition, require_both, check_condition_items,
  check_conditions, check_args, validate_transformer_args,
}
use ecommerce_super.Mapping.Transforms.{
  Trouble, Site, Context, truthy, is_missing, bool_to_yn, required_arg, enum_map, value_or_raised,
  evaluated, when_true, first_condition, over_conditions, conditional_constant, computed_value,
  computed, custom_python, lookup_id, reverse_lookup_id, lookup_field, str_strip, names_of,
  apply_transformer,
}

module _ (site : Site) where
  computed_value-IsClean : (n : Json) (ctx : Context) → IsClean (computed_value site n ctx)
  computed_value-IsClean (text n) ctx = found_or_refused-IsClean (get n (ctx.computed_values))
  computed_value-IsClean null ctx = refused-IsClean
  computed_value-IsClean (flag b) ctx = refused-IsClean
  computed_value-IsClean (number n) ctx = refused-IsClean
  computed_value-IsClean (array xs) ctx = other-IsClean
  computed_value-IsClean (dict es) ctx = other-IsClean

  value_or_raised-IsClean : (o : Option Json) → IsClean (value_or_raised site o)
  value_or_raised-IsClean none = raised-IsClean
  value_or_raised-IsClean (some v) = ok-IsClean v

  evaluated-IsClean :
      (helpers : Bool) (names : Entries) (e : Json) → IsClean (evaluated site helpers names e)
  evaluated-IsClean helpers names (text e) =
      value_or_raised-IsClean (site.safe_eval (strip e) helpers names)
  evaluated-IsClean helpers names null = other-IsClean
  evaluated-IsClean helpers names (flag b) = other-IsClean
  evaluated-IsClean helpers names (number n) = other-IsClean
  evaluated-IsClean helpers names (array xs) = other-IsClean
  evaluated-IsClean helpers names (dict es) = other-IsClean

  lookup_id-IsClean :
      (value : Json) (args : Entries)
      → require_keys ("doctype" ∷ "target_field" ∷ []) args ≡ ok tt
      → IsClean (lookup_id site value args)
  unfolding lookup_id
  lookup_id-IsClean value args passed = test-IsClean (is_missing value) _ _ (ok-IsClean null) (
      key-IsClean "doctype" ("target_field" ∷ []) args _ passed (λ doctype _.
        key-IsClean "target_field" [] args _
          ((first_key "doctype" ("target_field" ∷ []) args passed).1)
          (λ field _. found_or_refused-IsClean _)))

  reverse_lookup_id-IsClean :
      (value : Json) (args : Entries)
      → require_keys ("doctype" ∷ "source_field" ∷ []) args ≡ ok tt
      → IsClean (reverse_lookup_id site value args)
  unfolding reverse_lookup_id
  reverse_lookup_id-IsClean value args passed =
      test-IsClean (is_missing value) _ _ (ok-IsClean null) (
        key-IsClean "doctype" ("source_field" ∷ []) args _ passed (λ doctype _.
          key-IsClean "source_field" [] args _
            ((first_key "doctype" ("source_field" ∷ []) args passed).1)
            (λ field _. found_or_refused-IsClean _)))

  lookup_field-IsClean :
      (value : Json) (args : Entries)
      → require_keys ("doctype" ∷ "filter_field" ∷ "target_field" ∷ []) args ≡ ok tt
      → IsClean (lookup_field site value args)
  unfolding lookup_field
  lookup_field-IsClean value args passed =
      let (_, two) = first_key "doctype" ("filter_field" ∷ "target_field" ∷ []) args passed in
      let (_, one) = first_key "filter_field" ("target_field" ∷ []) args two in
      test-IsClean (is_missing value) _ _ (ok-IsClean null) (
        key-IsClean "doctype" ("filter_field" ∷ "target_field" ∷ []) args _ passed (λ doctype _.
          key-IsClean "filter_field" ("target_field" ∷ []) args _ two (λ field _.
            key-IsClean "target_field" [] args _ one
              (λ wanted _. filled_or_refused-IsClean (site.by_field doctype field value wanted)))))

  when_true-IsClean :
      (v : Json) (o : Option Json) {then_value : Json} (rest : Result Trouble Json)
      → o ≡ some then_value
      → IsClean rest
      → IsClean (when_true site v o rest)
  when_true-IsClean v o rest found clean =
      test-IsClean (truthy v) _ _ (required_arg-IsClean o found) clean

  both_some :
      (o p : Option Json) (rest : Result Fault Unit)
      → require_both o p rest ≡ ok tt
      → ((v : Json) × (o ≡ some v)) × ((w : Json) × (p ≡ some w))
  both_some none p rest passed = cc
  both_some (some v) none rest passed = cc
  both_some (some v) (some w) rest passed = ((v, refl), (w, refl))

  module _ (nodes_of : String → Option (List Node)) where
    first_condition-IsClean :
        (cs : Items) (args : Entries) (ctx : Context)
        → check_condition_items nodes_of cs ≡ ok tt
        → IsClean (first_condition site cs args ctx)
    unfolding first_condition check_condition_items
    first_condition-IsClean no_items args ctx passed = default-IsClean args
    first_condition-IsClean (item (dict c) cs) args ctx passed =
        let (_, this, others) =
          first_returned (check_condition nodes_of (dict c))
            (λ _. check_condition_items nodes_of cs) passed in
        let ((e, when_there), (v, then_there)) = both_some (get "when" c) (get "then" c) _ this in
        chain-IsClean (required_arg (get "when" c) >>= (λ e. evaluated site false (names_of ctx) e))
          _
          (chain-IsClean (required_arg (get "when" c)) _
            (required_arg-IsClean (get "when" c) when_there)
            (evaluated-IsClean false (names_of ctx)))
          (λ v.
            when_true-IsClean v (get "then" c) _ then_there
              (first_condition-IsClean cs args ctx others))
    first_condition-IsClean (item null cs) args ctx passed = other-IsClean
    first_condition-IsClean (item (flag b) cs) args ctx passed = other-IsClean
    first_condition-IsClean (item (number n) cs) args ctx passed = other-IsClean
    first_condition-IsClean (item (text s) cs) args ctx passed = other-IsClean
    first_condition-IsClean (item (array xs) cs) args ctx passed = other-IsClean

    over_conditions-IsClean :
        (cs : Json) (args : Entries) (ctx : Context)
        → check_conditions nodes_of (some cs) ≡ ok tt
        → IsClean (over_conditions site cs args ctx)
    over_conditions-IsClean (array no_items) args ctx passed = cc
    over_conditions-IsClean (array (item c cs)) args ctx passed =
        first_condition-IsClean (item c cs) args ctx passed
    over_conditions-IsClean null args ctx passed = other-IsClean
    over_conditions-IsClean (flag b) args ctx passed = other-IsClean
    over_conditions-IsClean (number n) args ctx passed = other-IsClean
    over_conditions-IsClean (text s) args ctx passed = other-IsClean
    over_conditions-IsClean (dict es) args ctx passed = other-IsClean

    conditional_constant-IsClean :
        (args : Entries) (ctx : Context)
        → (require_keys ("conditions" ∷ []) args
            >>= (λ _. check_conditions nodes_of (get "conditions" args)))
          ≡ ok tt
        → IsClean (conditional_constant site args ctx)
    unfolding conditional_constant
    conditional_constant-IsClean args ctx passed =
        let (_, there, checked) = first_returned (require_keys ("conditions" ∷ []) args) _ passed in
        key-IsClean "conditions" [] args _ there (λ cs found.
          over_conditions-IsClean cs args ctx
            (ap (check_conditions nodes_of) (sym found) ∙ checked))

    -- The validator of a name, where the name is known.
    args_of :
        (n k : String) (args : Entries)
        → check_args nodes_of n args ≡ ok tt
        → str_eq n k ≡ true
        → check_args nodes_of k args ≡ ok tt
    args_of n k args valid same =
        ap (λ m. check_args nodes_of m args) (sym ((eq_iff n k).0 same)) ∙ valid

    first_check :
        (keys : List String) (args : Entries) (more : Result Fault Unit)
        → (require_keys keys args >>= (λ _. more)) ≡ ok tt
        → require_keys keys args ≡ ok tt
    first_check keys args more passed =
        let (_, there, _) = first_returned (require_keys keys args) (λ _. more) passed in there

    -- A transformer whose arguments the compiler took is one of the registry and never misses one of its arguments, unless
    -- it is one of the number, date and case converters, which a site provides. An expression among the arguments may
    -- still raise.
    pub apply_transformer-validate_transformer_args :
        (n : String) (value : Json) (args : Entries) (ctx : Context)
        → n ≢ ""
        → n ≢ compose_name
        → validate_transformer_args nodes_of n args ≡ ok tt
        → (apply_transformer site n value args ctx ≡ site.converted n value args)
          ⊎ IsClean (apply_transformer site n value args ctx)
    unfolding apply_transformer validate_transformer_args enum_map computed custom_python
    apply_transformer-validate_transformer_args n value args ctx there alone passed =
        let named = left_out (str_eq n "") (ok tt) (differs n "" there) passed in
        let plain =
          left_out (str_eq n compose_name) (require_keys ("ruleset" ∷ []) args)
            (differs n compose_name alone) named in
        let (known, valid) = passed_check (has n transformers) unknown_transformer plain in
        let no_sentinel : (not (has n transformers) || str_eq n compose_name) ≡ false =
          sentinel (has n transformers) (str_eq n compose_name) known
            (differs n compose_name alone) in
        IsSettled-unless _ _ _ _ no_sentinel (
          IsSettled-when (str_eq n "identity") _ _ _ (λ same. ok-IsClean value)
            (IsSettled-when (str_eq n "noop") _ _ _ (λ same. ok-IsClean null)
              (IsSettled-when (str_eq n "bool_to_yn") _ _ _ (λ same. ok-IsClean (bool_to_yn value))
                (IsSettled-when (str_eq n "yn_to_bool") _ _ _ (λ same. yn_to_bool-IsClean value)
                  (IsSettled-when (str_eq n "str_strip") _ _ _
                    (λ same. ok-IsClean (str_strip site value))
                    (IsSettled-when (str_eq n "lookup_id") _ _ _
                      (λ same. lookup_id-IsClean value args (args_of n "lookup_id" args valid same))
                      (IsSettled-when (str_eq n "reverse_lookup_id") _ _ _
                        (λ same.
                          reverse_lookup_id-IsClean value args
                            (args_of n "reverse_lookup_id" args valid same))
                        (IsSettled-when (str_eq n "lookup_field") _ _ _
                          (λ same.
                            lookup_field-IsClean value args
                              (args_of n "lookup_field" args valid same))
                          (IsSettled-when (str_eq n "enum_map") _ _ _
                            (λ same.
                              key-IsClean "map" [] args _
                                (first_check ("map" ∷ []) args _
                                  (args_of n "enum_map" args valid same))
                                (λ m _. map_dict-IsClean m value args))
                            (IsSettled-when (str_eq n "conditional_constant") _ _ _
                              (λ same.
                                conditional_constant-IsClean args ctx
                                  (args_of n "conditional_constant" args valid same))
                              (IsSettled-when (str_eq n "computed") _ _ _
                                (λ same.
                                  key-IsClean "name" [] args _
                                    (args_of n "computed" args valid same)
                                    (λ m _. computed_value-IsClean m ctx))
                                (IsSettled-when (str_eq n "custom_python") _ _ _
                                  (λ same.
                                    key-IsClean "expression" [] args _
                                      (first_check ("expression" ∷ []) args _
                                        (args_of n "custom_python" args valid same))
                                      (λ e _.
                                        evaluated-IsClean true (entry "value" value (names_of ctx))
                                          e))
                                  (inl refl)))))))))))))
