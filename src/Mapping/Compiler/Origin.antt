-- ===== src/Mapping/Compiler/Origin.antt =====
-- ecommerce_super/easyecom/field_mapping/compiler.py: the row that a compiled rule comes from.
use ecommerce_super.Base.{
  ℕ, suc, String, ◌≡◌, refl, sym, ap, ◌∙◌, ◌⊎◌, inl, inr, true, ◌||◌, Option, none, some, List, [],
  ◌∷◌, map, arith, str_eq, has, Result, ok, err, ◌>>=◌, first_returned, ok_injective, at_value,
}
use ecommerce_super.Payload.{Json, Entries}
use ecommerce_super.Mapping.{compose_name, FieldMapping, Fault, Rule, CompiledRule, CompiledRuleset}
use mathlib.Core.Path.{subst}
use ecommerce_super.Mapping.Compiler.Accepted.{Row, this_row, later_row, Composing}
use ecommerce_super.Mapping.Compiler.Composition.{once_passed, Composes}
use ecommerce_super.Mapping.Sandbox.{Node, allowed_names_condition}
use ecommerce_super.Mapping.Args.{validate_transformer_args}
use ecommerce_super.Mapping.Compiler.{
  text, get, compile_at, compile_stored, assembled, compile_computed, with_row, validate_path,
  compile_doc, compile_rule, compile_rules, uses_compose, coerce_args, check_composition,
  check_side, check_stripped, compile_with, compiled_rule,
}

-- The first of some rows, or one of the others.
row_cases :
    (first : CompiledRule × List String) (rest : Result Fault (List CompiledRule × List String))
    {out : List CompiledRule × List String} (c : CompiledRule)
    → with_row first rest ≡ ok out
    → Row c (out.0)
    → (first.0 ≡ c)
      ⊎ ((others : List CompiledRule × List String) × (rest ≡ ok others) × Row c (others.0))
row_cases first (err raised) c returned row = cc
row_cases (first, composed) (ok (cs, more)) c returned row =
    in_cons first (at_value (λ o. Row c (o.0)) returned row)
  where
    in_cons :
        (d : CompiledRule)
        → Row c (d ∷ cs)
        → (d ≡ c)
          ⊎ ((others : List CompiledRule × List String) × (Path
                (Result Fault (List CompiledRule × List String))
                (ok (cs, more))
                (ok others))
              × Row c (others.0))
    in_cons d (this_row _ _) = inl refl
    in_cons d (later_row _ later) = inr ((cs, more), refl, later)

module _ (json_loads : String → Option Json) (nodes_of : String → Option (List Node)) where
  -- A compiled rule is a row with its arguments read.
  pub record IsFrom (r : Rule) (c : CompiledRule) : Type 0 where
    args : Entries
    coerced : coerce_args json_loads (r.transform_args) ≡ ok args
    same : c ≡ compiled_rule r args

  module _ (compile : String → Result Fault CompiledRuleset) where
    with_origin :
        (names : List String) (r : Rule) (args : Entries) {out : CompiledRule × List String}
        → compile_with json_loads nodes_of compile names r args ≡ ok out
        → out.0 ≡ compiled_rule r args
    unfolding compile_with
    with_origin names r args returned =
        let (composed, _, rest) =
          first_returned
            (validate_transformer_args nodes_of (r.transform_push) args
              >>= (λ _. validate_transformer_args nodes_of (r.transform_pull) args)
              >>= (λ _. check_side names (r.transform_push) args)
              >>= (λ _. check_side names (r.transform_pull) args)
              >>= (λ _. check_composition json_loads nodes_of compile (uses_compose r) args))
            _ returned in
        let (_, _, last) =
          first_returned (check_stripped nodes_of (r.condition) allowed_names_condition) _ rest in
        ap (λ p. p.0) (sym (ok_injective last))

    rule_origin :
        (names : List String) (r : Rule) {out : CompiledRule × List String}
        → compile_rule json_loads nodes_of compile names r ≡ ok out
        → IsFrom r (out.0)
    unfolding compile_rule
    rule_origin names r returned =
        let (args, read, accepted) =
          first_returned
            (validate_path (r.erpnext_path)
              >>= (λ _. validate_path (r.easyecom_path))
              >>= (λ _. coerce_args json_loads (r.transform_args)))
            (compile_with json_loads nodes_of compile names r) returned in
        let (_, _, coerced) =
          first_returned (validate_path (r.erpnext_path) >>= (λ _. validate_path (r.easyecom_path)))
            (λ _. coerce_args json_loads (r.transform_args)) read in
        record { args = args; coerced = coerced; same = with_origin names r args accepted }

    -- Each compiled rule comes from a row.
    rules_origin :
        (names : List String) (rs : List Rule) {out : List CompiledRule × List String}
        (c : CompiledRule)
        → compile_rules json_loads nodes_of compile names rs ≡ ok out
        → Row c (out.0)
        → (r : Rule) × Row r rs × IsFrom r c
    unfolding compile_rules
    rules_origin names [] c returned row = elim (at_value (λ o. Row c (o.0)) returned row) [ ]
    rules_origin names (r ∷ rs) c returned row =
        let (first, compiled, rest) =
          first_returned (compile_rule json_loads nodes_of compile names r) _ returned in
        elim (row_cases first (compile_rules json_loads nodes_of compile names rs) c rest row) [
          | inl same ↦ (r, this_row r rs, subst (IsFrom r) same (rule_origin names r compiled))
          | inr (others, returned, later) ↦
              let (s, place, origin) = rules_origin names rs c returned later in
              (s, later_row r place, origin)
        ]

    -- So do the rules of a document that compiles.
    pub doc_origin :
        (doc : FieldMapping) {out : CompiledRuleset} (c : CompiledRule)
        → compile_doc json_loads nodes_of compile doc ≡ ok out
        → Row c (out.rules)
        → (r : Rule) × Row r (doc.rules) × IsFrom r c
    unfolding compile_doc assembled
    doc_origin doc c returned row =
        let (computed, _, rest) =
          first_returned
            (check_stripped nodes_of (doc.preconditions) allowed_names_condition
              >>= (λ _. compile_computed nodes_of [] (doc.computed_fields)))
            _ returned in
        let (rules, compiled, last) =
          first_returned
            (compile_rules json_loads nodes_of compile (map (λ c. c.field_name) computed)
              (doc.rules))
            _ rest in
        rules_origin (map (λ c. c.field_name) computed) (doc.rules) c compiled
          (at_value (λ o. Row c (o.rules)) last row)

  -- A rule whose transform on a side is a composition comes from a row that composes the mapping its
  -- arguments name.
  row-Composing :
      (r : Rule) (c : CompiledRule) (target : String)
      → IsFrom r c
      → (str_eq (c.transform_push) compose_name ≡ true)
        ⊎ (str_eq (c.transform_pull) compose_name ≡ true)
      → get "ruleset" (c.transform_args) ≡ some (text target)
      → Composing json_loads nodes_of r target
  unfolding uses_compose
  row-Composing r c target origin side named = record {
    composing = composing_of (
        subst
          (λ d.
            (str_eq (d.transform_push) compose_name ≡ true)
            ⊎ (str_eq (d.transform_pull) compose_name ≡ true))
          (origin.same) side);
    args = origin.args;
    coerced = origin.coerced;
    named = sym (ap (λ d. get "ruleset" (d.transform_args)) (origin.same)) ∙ named;
  }
    where
      composing_of :
          (str_eq (r.transform_push) compose_name ≡ true)
            ⊎ (str_eq (r.transform_pull) compose_name ≡ true)
          → (str_eq (r.transform_push) compose_name || str_eq (r.transform_pull) compose_name)
            ≡ true
      composing_of s = ground arith

  module _ (docs : String → Option FieldMapping) where
    stored_Composes :
        (compile : String → Result Fault CompiledRuleset) (name target : String)
        (o : Option FieldMapping) {out : CompiledRuleset} (c : CompiledRule)
        → docs name ≡ o
        → compile_stored json_loads nodes_of compile o ≡ ok out
        → Row c (out.rules)
        → (str_eq (c.transform_push) compose_name ≡ true)
          ⊎ (str_eq (c.transform_pull) compose_name ≡ true)
        → get "ruleset" (c.transform_args) ≡ some (text target)
        → Composes json_loads nodes_of docs name target
    unfolding compile_stored
    stored_Composes compile name target none c stored returned row side named = cc
    stored_Composes compile name target (some doc) c stored returned row side named =
        let (r, place, origin) = doc_origin compile doc c returned row in
        record {
          doc = doc;
          stored = stored;
          rule = r;
          row = place;
          composing = row-Composing r c target origin side named;
        }

    -- What a compiled rule composes, its mapping composes.
    pub compiled_Composes :
        (left : ℕ) (name target : String) {out : CompiledRuleset} (c : CompiledRule)
        → compile_at json_loads nodes_of docs (suc left) [] name ≡ ok out
        → Row c (out.rules)
        → (str_eq (c.transform_push) compose_name ≡ true)
          ⊎ (str_eq (c.transform_pull) compose_name ≡ true)
        → get "ruleset" (c.transform_args) ≡ some (text target)
        → Composes json_loads nodes_of docs name target
    unfolding compile_at
    compiled_Composes left name target c returned row side named =
        let (_, opened) = once_passed (has name []) _ returned in
        stored_Composes _ name target (docs name) c refl opened row side named
