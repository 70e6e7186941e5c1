-- ===== src/Mapping/Compiler/Accepted.antt =====
-- ecommerce_super/easyecom/field_mapping/compiler.py: what a mapping that compiles has gone through.
use ecommerce_super.Base.{
  String, ◌≡◌, refl, sym, ap, ◌∙◌, true, Option, some, List, [], ◌∷◌, map, str_eq, Result, ok, err,
  ◌>>=◌, first_returned, passed_guard,
}
use ecommerce_super.Payload.{Json, text, Entries, get}
use ecommerce_super.Mapping.{
  missing_ruleset, FieldMapping, CompiledRule, CompiledRuleset, Fault, Rule,
}
use ecommerce_super.Mapping.Paths.{validate_path}
use ecommerce_super.Mapping.Sandbox.{Node}
use ecommerce_super.Mapping.Compiler.{
  compile_computed, check_composition, allowed_names_condition, check_stripped, check_side,
  validate_transformer_args, compile_doc, compile_rules, compile_with, with_row, compile_rule,
  compose_target, uses_compose, coerce_args,
}

-- A row of a table.
pub data Row {A : Type 0} : A → List A → Type 0 where
  this_row : (r : A) (rs : List A) → Row r (r ∷ rs)
  later_row : {r : A} (s : A) {rs : List A} → Row r rs → Row r (s ∷ rs)

ok_injective : {a b : Entries} → Path (Result Fault Entries) (ok a) (ok b) → a ≡ b
ok_injective e = cc

with_row_ok :
    (c : CompiledRule × List String) (rest : Result Fault (List CompiledRule × List String))
    {out : List CompiledRule × List String}
    → with_row c rest ≡ ok out
    → (others : List CompiledRule × List String) × (rest ≡ ok others)
with_row_ok (c, composed) (err raised) returned = cc
with_row_ok (c, composed) (ok (cs, more)) returned = ((cs, more), refl)

module _ (json_loads : String → Option Json) (nodes_of : String → Option (List Node)) where
  -- A row composes a mapping, where its arguments are read.
  pub record Composing (r : Rule) (target : String) : Type 0 where
    pub composing : uses_compose r ≡ true
    pub args : Entries
    pub coerced : coerce_args json_loads (r.transform_args) ≡ ok args
    pub named : get "ruleset" args ≡ some (text target)

  module _ (compile : String → Result Fault CompiledRuleset) where
    -- The target of a row that compiles compiles.
    text_compiled :
        (target : String) {composed : List String}
        → compose_target json_loads nodes_of compile (some (text target)) ≡ ok composed
        → (r : CompiledRuleset) × (compile target ≡ ok r)
    text_compiled target returned =
        let (r, compiled, _) =
          first_returned (compile target) (λ _. ok (target ∷ []))
            (passed_guard (str_eq target "") missing_ruleset returned) in
        (r, compiled)

    with_compiled :
        (names : List String) (r : Rule) (args : Entries) (target : String)
        {out : CompiledRule × List String}
        → uses_compose r ≡ true
        → get "ruleset" args ≡ some (text target)
        → compile_with json_loads nodes_of compile names r args ≡ ok out
        → (c : CompiledRuleset) × (compile target ≡ ok c)
    unfolding compile_with
    with_compiled names r args target composing named returned =
        let (_, checked, _) =
          first_returned
            (validate_transformer_args nodes_of (r.transform_push) args
              >>= (λ _. validate_transformer_args nodes_of (r.transform_pull) args)
              >>= (λ _. check_side names (r.transform_push) args)
              >>= (λ _. check_side names (r.transform_pull) args)
              >>= (λ _. check_composition json_loads nodes_of compile (uses_compose r) args))
            _ returned in
        let (_, _, target_checked) =
          first_returned
            (validate_transformer_args nodes_of (r.transform_push) args
              >>= (λ _. validate_transformer_args nodes_of (r.transform_pull) args)
              >>= (λ _. check_side names (r.transform_push) args)
              >>= (λ _. check_side names (r.transform_pull) args))
            _ checked in
        text_compiled target (
          ap (compose_target json_loads nodes_of compile) (sym named)
          ∙ (ap (λ b. check_composition json_loads nodes_of compile b args) (sym composing)
              ∙ target_checked))

    row_compiled :
        (names : List String) (r : Rule) (target : String) (composed : Composing r target)
        {out : CompiledRule × List String}
        → compile_rule json_loads nodes_of compile names r ≡ ok out
        → (c : CompiledRuleset) × (compile target ≡ ok c)
    unfolding compile_rule
    row_compiled names r target composed returned =
        let (args, read, accepted) =
          first_returned
            (validate_path (r.erpnext_path)
              >>= (λ _. validate_path (r.easyecom_path))
              >>= (λ _. coerce_args json_loads (r.transform_args)))
            (compile_with json_loads nodes_of compile names r) returned in
        let (_, _, coerced) =
          first_returned (validate_path (r.erpnext_path) >>= (λ _. validate_path (r.easyecom_path)))
            (λ _. coerce_args json_loads (r.transform_args)) read in
        let given : composed.args ≡ args = ok_injective (sym (composed.coerced) ∙ coerced) in
        with_compiled names r args target (composed.composing)
          (sym (ap (get "ruleset") given) ∙ composed.named) accepted

    rows_compiled :
        (names : List String) (rs : List Rule) (r : Rule) (target : String)
        {out : List CompiledRule × List String}
        → Row r rs
        → Composing r target
        → compile_rules json_loads nodes_of compile names rs ≡ ok out
        → (c : CompiledRuleset) × (compile target ≡ ok c)
    unfolding compile_rules
    rows_compiled names [] r target row composed returned = elim row [ ]
    rows_compiled names (_ ∷ _) _ target (this_row r rs) composed returned =
        let (c, compiled, _) =
          first_returned (compile_rule json_loads nodes_of compile names r) _ returned in
        row_compiled names r target composed compiled
    rows_compiled names (_ ∷ rs) r target (later_row s row) composed returned =
        let (c, _, rest) =
          first_returned (compile_rule json_loads nodes_of compile names s) _ returned in
        let (_, others) = with_row_ok c (compile_rules json_loads nodes_of compile names rs) rest in
        rows_compiled names rs r target row composed others

    -- A mapping that a document composes compiles where the document does.
    pub doc_compiled :
        (doc : FieldMapping) (r : Rule) (target : String) {out : CompiledRuleset}
        → Row r (doc.rules)
        → Composing r target
        → compile_doc json_loads nodes_of compile doc ≡ ok out
        → (c : CompiledRuleset) × (compile target ≡ ok c)
    unfolding compile_doc
    doc_compiled doc r target row composed returned =
        let (computed, _, rest) =
          first_returned
            (check_stripped nodes_of (doc.preconditions) allowed_names_condition
              >>= (λ _. compile_computed nodes_of [] (doc.computed_fields)))
            _ returned in
        let (_, rules, _) =
          first_returned
            (compile_rules json_loads nodes_of compile (map (λ c. c.field_name) computed)
              (doc.rules))
            _ rest in
        rows_compiled (map (λ c. c.field_name) computed) (doc.rules) r target row composed rules
