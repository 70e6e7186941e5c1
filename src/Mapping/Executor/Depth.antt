-- ===== src/Mapping/Executor/Depth.antt =====
-- ecommerce_super/easyecom/field_mapping/executor.py: the rules of a ruleset do not end in RecursionError when what they
-- compose does not.
use ecommerce_super.Base.{
  String, ◌≡◌, refl, ap, ◌≢◌, Bool, true, ◌&&◌, not, Option, none, some, List, [], ◌∷◌, str_eq,
  Result, ok, err, err_injective,
}
use ecommerce_super.Mapping.Executor.Endings.{
  branch_ends, chain_ends, test_ends, in_rule-ends, values_at-ends, set_output-ends,
  set_iterated-ends,
}
use ecommerce_super.Payload.{Json, null, flag, number, text, array, dict, no_items, Entries, get}
use ecommerce_super.Mapping.{compose_name, CompiledRule}
use ecommerce_super.Mapping.Compiler.Accepted.{Row, this_row, later_row}
use ecommerce_super.Mapping.Transforms.{Direction, Site, Context, truthy}
use ecommerce_super.Mapping.Executor.{
  Failure, recursion, Mark, transform_for, source_path, target_path, has_iteration, default_of,
  rows_of, from_list, set_output, set_iterated,
}
use ecommerce_super.Mapping.Executor.Checks.{values_of, first_value}
use ecommerce_super.Mapping.Executor.Rules.{
  noted, is_rule_error, Applied, with_applied, after_rule, marked, run_transformer, transform_all,
  emit_scalar, or_default, scalar_value, apply_iterated, run_rows, compose_rows, compose_named,
  apply_named, apply_rule, apply_rules, condition_holds,
}

-- A child executor is made and maps a row without RecursionError.
abbrev pub Ends : Result Failure (Json → Result Failure Entries) → Type 0
Ends child =
    (child ≢ err recursion)
    × ((apply : Json → Result Failure Entries)
        → child ≡ ok apply
        → (row : Json) → apply row ≢ err recursion)

module _ (site : Site) where
  transform_all-ends :
      (r : CompiledRule) (n : String) (vs : List Json) (ctx : Context)
      → transform_all site r n vs ctx ≢ err recursion
  unfolding transform_all
  transform_all-ends r n [] ctx deep = cc
  transform_all-ends r n (v ∷ vs) ctx deep =
      chain_ends (run_transformer site r n v ctx) _ (in_rule-ends (r.idx) _)
        (λ w _.
          chain_ends (transform_all site r n vs ctx) _ (transform_all-ends r n vs ctx)
            (λ ws _ e. cc))
        deep

  emit_scalar-ends :
      (r : CompiledRule) (n : String) (v : Json) (ctx : Context) (output : Entries)
      → emit_scalar site r n v ctx output ≢ err recursion
  emit_scalar-ends r n v ctx output =
      chain_ends (run_transformer site r n v ctx) _ (in_rule-ends (r.idx) _) (λ result _.
        chain_ends (set_output output (target_path r (ctx.direction)) result) _
          (set_output-ends output (target_path r (ctx.direction)) result) (λ next _ e. cc))

  scalar_value-ends :
      (policy : String) (r : CompiledRule) (n : String) (v : Json) (ctx : Context)
      (output : Entries)
      → scalar_value site policy r n v ctx output ≢ err recursion
  scalar_value-ends policy r n null ctx output = defaulted (default_of r)
    where
      defaulted : (o : Option Json) → or_default site policy r n o ctx output ≢ err recursion
      defaulted (some value) = emit_scalar-ends r n value ctx output
      defaulted none =
          test_ends (str_eq policy "Drop") _ _ (λ e. cc)
            (test_ends (str_eq policy "Strict" && not (r.required)) _ _ (λ e. cc)
              (emit_scalar-ends r n null ctx output))
  scalar_value-ends policy r n (flag b) ctx output = emit_scalar-ends r n (flag b) ctx output
  scalar_value-ends policy r n (number i) ctx output = emit_scalar-ends r n (number i) ctx output
  scalar_value-ends policy r n (text s) ctx output = emit_scalar-ends r n (text s) ctx output
  scalar_value-ends policy r n (array xs) ctx output = emit_scalar-ends r n (array xs) ctx output
  scalar_value-ends policy r n (dict es) ctx output = emit_scalar-ends r n (dict es) ctx output

  pub first_value-ends :
      (source : Json) (path : String) (default : Json)
      → first_value site source path default ≢ err recursion
  first_value-ends source path default =
      chain_ends (values_of site source path) _ (values_at-ends _) (λ values _ e. cc)

  apply_iterated-ends :
      (r : CompiledRule) (n : String) (ctx : Context) (output : Entries)
      → apply_iterated site r n ctx output ≢ err recursion
  apply_iterated-ends r n ctx output =
      chain_ends (values_of site (ctx.source) (source_path r (ctx.direction))) _ (values_at-ends _)
        (λ values _.
          chain_ends (transform_all site r n values ctx) _ (transform_all-ends r n values ctx)
            (λ results _.
              chain_ends (set_iterated output (target_path r (ctx.direction)) results) _
                (set_iterated-ends output (target_path r (ctx.direction)) results)
                (λ next _ e. cc)))

  run_rows-ends :
      (apply : Json → Result Failure Entries) (rows : List Json)
      → ((row : Json) → apply row ≢ err recursion)
      → run_rows site apply rows ≢ err recursion
  unfolding run_rows
  run_rows-ends apply [] each deep = cc
  run_rows-ends apply (row ∷ rows) each deep =
      chain_ends (apply row) _ (each row)
        (λ es _.
          chain_ends (run_rows site apply rows) _ (run_rows-ends apply rows each)
            (λ outputs _ e. cc))
        deep

  compose_rows-ends :
      (r : CompiledRule) (ctx : Context) (output : Entries) (apply : Json → Result Failure Entries)
      → ((row : Json) → apply row ≢ err recursion)
      → compose_rows site r ctx output apply ≢ err recursion
  compose_rows-ends r ctx output apply each =
      chain_ends (first_value site (ctx.source) (source_path r (ctx.direction)) (array no_items)) _
        (first_value-ends (ctx.source) (source_path r (ctx.direction)) (array no_items))
        (λ rows _.
          chain_ends (run_rows site apply (rows_of rows)) _
            (run_rows-ends apply (rows_of rows) each)
            (λ outputs _.
              chain_ends
                (set_output output (target_path r (ctx.direction)) (array (from_list outputs))) _
                (set_output-ends output (target_path r (ctx.direction)) (array (from_list outputs)))
                (λ next _ e. cc)))

  module _ (child : String → Result Failure (Json → Result Failure Entries)) where
    compose_named-Ends :
        (r : CompiledRule) (ctx : Context) (output : Entries) (o : Option Json)
        → ((n : String) → o ≡ some (text n) → Ends (child n))
        → compose_named site child r ctx output o ≢ err recursion
    compose_named-Ends r ctx output none ends deep = cc
    compose_named-Ends r ctx output (some (text n)) ends deep =
        test_ends (str_eq n "") _ _ (λ e. cc)
          (chain_ends (child n) _ ((ends n refl).0)
            (λ apply made. compose_rows-ends r ctx output apply ((ends n refl).1 apply made)))
          deep
    compose_named-Ends r ctx output (some null) ends deep =
        test_ends (truthy null) _ _ (λ e. cc) (λ e. cc) deep
    compose_named-Ends r ctx output (some (flag b)) ends deep =
        test_ends (truthy (flag b)) _ _ (λ e. cc) (λ e. cc) deep
    compose_named-Ends r ctx output (some (number i)) ends deep =
        test_ends (truthy (number i)) _ _ (λ e. cc) (λ e. cc) deep
    compose_named-Ends r ctx output (some (array xs)) ends deep =
        test_ends (truthy (array xs)) _ _ (λ e. cc) (λ e. cc) deep
    compose_named-Ends r ctx output (some (dict es)) ends deep =
        test_ends (truthy (dict es)) _ _ (λ e. cc) (λ e. cc) deep

    -- What a rule composes on the side of a direction.
    abbrev pub Composed : CompiledRule → Direction → String → Type 0
    Composed r direction n =
        (str_eq (transform_for r direction) compose_name ≡ true)
        × (get "ruleset" (r.transform_args) ≡ some (text n))

    apply_named-Ends :
        (policy : String) (r : CompiledRule) (ctx : Context) (output : Entries)
        → ((n : String) → Composed r (ctx.direction) n → Ends (child n))
        → apply_named site child policy r (transform_for r (ctx.direction)) ctx output
          ≢ err recursion
    apply_named-Ends policy r ctx output ends =
        test_ends (str_eq (transform_for r (ctx.direction)) "") _ _ (λ e. cc)
          (branch_ends (str_eq (transform_for r (ctx.direction)) compose_name) _ _
            (λ composing.
              compose_named-Ends r ctx output (get "ruleset" (r.transform_args))
                (λ n named. ends n (composing, named)))
            (λ _.
              test_ends (has_iteration r (ctx.direction)) _ _
                (apply_iterated-ends r (transform_for r (ctx.direction)) ctx output)
                (chain_ends (first_value site (ctx.source) (source_path r (ctx.direction)) null) _
                  (first_value-ends (ctx.source) (source_path r (ctx.direction)) null)
                  (λ value _.
                    scalar_value-ends policy r (transform_for r (ctx.direction)) value ctx
                      output))))

    apply_rule-Ends :
        (policy : String) (r : CompiledRule) (ctx : Context) (output : Entries)
        → ((n : String) → Composed r (ctx.direction) n → Ends (child n))
        → apply_rule site child policy r ctx output ≢ err recursion
    unfolding apply_rule
    apply_rule-Ends policy r ctx output ends =
        test_ends (condition_holds site r ctx) _ _ (apply_named-Ends policy r ctx output ends)
          (λ e. cc)

    with_applied-ends :
        (f : Applied → Applied) (rest : Result Failure Applied)
        → rest ≢ err recursion
        → with_applied f rest ≢ err recursion
    with_applied-ends f (err raised) ends deep = ends deep
    with_applied-ends f (ok done) ends deep = cc

    after_rule-ends :
        (collect : Bool) (result : Result Failure (Entries × Mark)) (output : Entries)
        (go_on : Entries → Result Failure Applied)
        → result ≢ err recursion
        → ((next : Entries) → go_on next ≢ err recursion)
        → after_rule collect result output go_on ≢ err recursion
    after_rule-ends collect (ok (found, mark)) output go_on ends next =
        with_applied-ends (marked mark) (go_on found) (next found)
    after_rule-ends collect (err raised) output go_on ends next =
        test_ends (collect && is_rule_error raised) _ _
          (with_applied-ends (noted raised) (go_on output) (next output))
          (λ deep. ends (ap err (err_injective deep)))

    pub apply_rules-Ends :
        (collect : Bool) (policy : String) (rules : List CompiledRule) (ctx : Context)
        (output : Entries)
        → ((r : CompiledRule) (n : String)
            → Row r rules
            → Composed r (ctx.direction) n
            → Ends (child n))
        → apply_rules site child collect policy rules ctx output ≢ err recursion
    unfolding apply_rules
    apply_rules-Ends collect policy [] ctx output ends deep = cc
    apply_rules-Ends collect policy (r ∷ rs) ctx output ends deep =
        after_rule-ends collect (apply_rule site child policy r ctx output) output _
          (apply_rule-Ends policy r ctx output (λ n composed. ends r n (this_row r rs) composed))
          (λ next.
            apply_rules-Ends collect policy rs ctx next
              (λ s n place composed. ends s n (later_row r place) composed))
          deep
