-- ===== src/Mapping/Executor/Nested.antt =====
-- ecommerce_super/easyecom/field_mapping/executor.py: executors inside one another, for mappings that the compiler
-- took.
use ecommerce_super.Mapping.Executor.Depth.{Ends, Composed, first_value-ends, apply_rules-Ends}
use ecommerce_super.Base.{
  ℕ, zero, suc, ◌<◌, String, ◌≡◌, ap, ◌≢◌, ◌⊎◌, inl, inr, true, false, Option, none, some, List, [],
  ◌∷◌, arith, str_eq, has, strip, Result, ok, err, ◌>>=◌, first_returned, passed_check,
  ok_injective,
}
use ecommerce_super.Mapping.Executor.Endings.{chain_ends, test_ends}
use ecommerce_super.Payload.{Json, null, text, dict, Entries, no_entries, get}
use ecommerce_super.Mapping.{
  Fault, compose_name, FieldMapping, CompiledRule, CompiledRuleset, CompiledComputed,
}
use mathlib.Core.Path.{subst}
use ecommerce_super.Mapping.Sandbox.{Node}
use ecommerce_super.Mapping.Compiler.{max_composition_depth, compile_ruleset}
use ecommerce_super.Mapping.Compiler.Accepted.{Row}
use ecommerce_super.Mapping.Compiler.Composition.{
  Composes, Chain, here, through, compile_ruleset-bounded,
}
use ecommerce_super.Mapping.Compiler.Origin.{compiled_Composes}
use ecommerce_super.Mapping.Transforms.{Direction, push, pull, Site, truthy, names_of}
use ecommerce_super.Mapping.Executor.{Failure, out_of_scope, recursion, transform_for, target_path}
use ecommerce_super.Mapping.Executor.Checks.{
  with_value, first_value, check_required, check_valid, resolve_computed, context,
  check_preconditions, precondition_value, all_exist, to_validate, is_produced,
}
use ecommerce_super.Mapping.Executor.Run.{apply_all, run, opened, in_scope, executor, map_record}

module _ (site : Site) where
  check_required-ends :
      (rules : List CompiledRule) (direction : Direction) (output : Entries)
      → check_required site rules direction output ≢ err recursion
  unfolding check_required
  check_required-ends [] direction output deep = cc
  check_required-ends (r ∷ rs) direction output deep =
      test_ends (r.required) _ _
        (chain_ends (first_value site (dict output) (target_path r direction) null) _
          (first_value-ends site (dict output) (target_path r direction) null)
          (λ produced _.
            test_ends (is_produced site produced) _ _ (check_required-ends rs direction output)
              (λ e. cc)))
        (check_required-ends rs direction output) deep

  check_valid-ends :
      (rules : List CompiledRule) (direction : Direction) (output : Entries)
      → check_valid site rules direction output ≢ err recursion
  unfolding check_valid
  check_valid-ends [] direction output deep = cc
  check_valid-ends (r ∷ rs) direction output deep =
      test_ends (str_eq (r.validate_against) "") _ _ (check_valid-ends rs direction output)
        (chain_ends (first_value site (dict output) (target_path r direction) null) _
          (first_value-ends site (dict output) (target_path r direction) null)
          (λ value _.
            test_ends (all_exist site (r.validate_against) (to_validate site value)) _ _
              (check_valid-ends rs direction output) (λ e. cc)))
        deep

  with_value-ends :
      (name : String) (o : Option Json) (rest : Result Failure Entries)
      → rest ≢ err recursion
      → with_value site name o rest ≢ err recursion
  with_value-ends name none rest ends deep = cc
  with_value-ends name (some v) rest ends deep = chain_ends rest _ ends (λ values _ e. cc) deep

  resolve_computed-ends :
      (referenced : List String) (cfs : List CompiledComputed) (names : Entries)
      → resolve_computed site referenced cfs names ≢ err recursion
  unfolding resolve_computed
  resolve_computed-ends referenced [] names deep = cc
  resolve_computed-ends referenced (cf ∷ cfs) names deep =
      test_ends (has (cf.field_name) referenced) _ _
        (with_value-ends (cf.field_name) (site.safe_eval (strip (cf.expression)) true names) _
          (resolve_computed-ends referenced cfs names))
        (resolve_computed-ends referenced cfs names) deep

  precondition_value-ends : (o : Option Json) → precondition_value site o ≢ err recursion
  precondition_value-ends none deep = cc
  precondition_value-ends (some v) deep = test_ends (truthy v) _ _ (λ e. cc) (λ e. cc) deep

  check_preconditions-ends :
      (compiled : CompiledRuleset) (direction : Direction) (company : String) (source : Json)
      → check_preconditions site compiled direction company source ≢ err recursion
  unfolding check_preconditions
  check_preconditions-ends compiled direction company source =
      test_ends (str_eq (compiled.preconditions) "") _ _ (λ e. cc)
        (precondition_value-ends (
          site.safe_eval (strip (compiled.preconditions)) false
            (names_of (context direction company source no_entries))))

  run-Ends :
      (child : String → Result Failure (Json → Result Failure Entries)) (compiled : CompiledRuleset)
      (company : String) (direction : Direction) (source : Json)
      → ((r : CompiledRule) (n : String)
          → Row r (compiled.rules)
          → Composed site child r direction n
          → Ends (child n))
      → run site child compiled company direction source ≢ err recursion
  unfolding run apply_all
  run-Ends child compiled company direction source ends =
      test_ends (compiled.active) _ _
        (chain_ends
          (check_preconditions site compiled direction company source
            >>= (λ _. apply_all site child false compiled company direction source))
          _
          (chain_ends (check_preconditions site compiled direction company source) _
            (check_preconditions-ends compiled direction company source)
            (λ _ _.
              chain_ends _ _
                (chain_ends _ _ (resolve_computed-ends _ (compiled.computed_fields) _) (λ values _.
                  apply_rules-Ends site child false (compiled.missing_field_policy) (compiled.rules)
                    (context direction company source values) no_entries ends))
                (λ done _.
                  chain_ends _ _
                    (chain_ends (check_required site (compiled.rules) direction (done.output)) _
                      (check_required-ends (compiled.rules) direction (done.output))
                      (λ _ _. check_valid-ends (compiled.rules) direction (done.output)))
                    (λ _ _ e. cc))))
          (λ done _ e. cc))
        (λ e. cc)

  module _ (json_loads : String → Option Json) (nodes_of : String → Option (List Node))
      (docs : String → Option FieldMapping) where
    opened_compiled :
        (result : Result Fault CompiledRuleset) (company : String)
        (compile : String → Result Fault CompiledRuleset) {compiled : CompiledRuleset}
        → opened site compile result company ≡ ok compiled
        → result ≡ ok compiled
    opened_compiled (err fault) company compile made = cc
    opened_compiled (ok c) company compile made =
        let (_, same) = passed_check (in_scope site (c.company_scope) company) out_of_scope made in
        ap ok (ok_injective same)

    opened-ends :
        (result : Result Fault CompiledRuleset) (company : String)
        (compile : String → Result Fault CompiledRuleset)
        → opened site compile result company ≢ err recursion
    opened-ends (err fault) company compile deep = cc
    opened-ends (ok c) company compile deep =
        test_ends (in_scope site (c.company_scope) company) _ _ (λ e. cc) (λ e. cc) deep

    side_of :
        (r : CompiledRule) (direction : Direction)
        → str_eq (transform_for r direction) compose_name ≡ true
        → (str_eq (r.transform_push) compose_name ≡ true)
          ⊎ (str_eq (r.transform_pull) compose_name ≡ true)
    side_of r push composing = inl composing
    side_of r pull composing = inr composing

    composed_by :
        (name target : String) (r : CompiledRule) {compiled : CompiledRuleset}
        → compile_ruleset json_loads nodes_of docs name ≡ ok compiled
        → Row r (compiled.rules)
        → (str_eq (r.transform_push) compose_name ≡ true)
          ⊎ (str_eq (r.transform_pull) compose_name ≡ true)
        → get "ruleset" (r.transform_args) ≡ some (text target)
        → Composes json_loads nodes_of docs name target
    unfolding compile_ruleset
    composed_by name target r taken place side named =
        compiled_Composes json_loads nodes_of docs max_composition_depth name target r taken place
          side named

    -- Executors end where the chains of compositions do.
    executor-Ends :
        (levels : ℕ) (company : String) (direction : Direction) (name : String)
        → ((n : ℕ) (last : String) → Chain json_loads nodes_of docs n name last → n < levels)
        → Ends
            (executor site (compile_ruleset json_loads nodes_of docs) levels company direction name)
    unfolding executor
    executor-Ends zero company direction name short = (
      λ _. omega (arith, short 0 name (here name)),
      λ apply made row _. omega (arith, short 0 name (here name)),
    )
    executor-Ends (suc levels) company direction name short = (
      chain_ends
          (opened site (compile_ruleset json_loads nodes_of docs)
            (compile_ruleset json_loads nodes_of docs name) company)
          _
          (opened-ends (compile_ruleset json_loads nodes_of docs name) company
            (compile_ruleset json_loads nodes_of docs))
          (λ compiled _ e. cc),
      λ apply made row.
          let (compiled, accepted, same) =
            first_returned
              (opened site (compile_ruleset json_loads nodes_of docs)
                (compile_ruleset json_loads nodes_of docs name) company)
              _ made in
          let taken =
            opened_compiled (compile_ruleset json_loads nodes_of docs name) company
              (compile_ruleset json_loads nodes_of docs) accepted in
          subst (λ a. a row ≢ err recursion) (ok_injective same)
            (run-Ends
              (executor site (compile_ruleset json_loads nodes_of docs) levels company direction)
              compiled company direction row
              (λ r n place (composing, named).
                executor-Ends levels company direction n (λ k last chain. omega (
                  arith,
                  short (suc k) last (
                      through
                        (composed_by name n r taken place (side_of r direction composing) named)
                        chain),
                )))),
    )

    -- A record is mapped without RecursionError by a mapping that compiles, with as many executors inside
    -- one another as the depth of composition allows and one: the compiler's bound is enough for the executor.
    pub map_record-Ends :
        (company : String) (direction : Direction) (name : String) (source : Json)
        {compiled : CompiledRuleset}
        → compile_ruleset json_loads nodes_of docs name ≡ ok compiled
        → map_record site
            (compile_ruleset json_loads nodes_of docs)
            (suc max_composition_depth)
            company
            direction
            name
            source
          ≢ err recursion
    unfolding map_record
    map_record-Ends company direction name source accepted =
        let (made, ends) =
          executor-Ends (suc max_composition_depth) company direction name (λ n last chain.
            omega (arith, compile_ruleset-bounded json_loads nodes_of docs name chain accepted)) in
        chain_ends
          (executor site (compile_ruleset json_loads nodes_of docs) (suc max_composition_depth)
            company direction name)
          _ made (λ apply same. ends apply same source)
