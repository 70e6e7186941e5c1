-- ===== src/Mapping/Executor/Run.antt =====
-- ecommerce_super/easyecom/field_mapping/executor.py: a ruleset on one source, and the executors of the rulesets
-- that it composes.
use ecommerce_super.Base.{
  ℕ, zero, suc, String, Bool, true, false, ◌||◌, List, [], ◌∷◌, str_eq, if◌then◌else◌, has, Result,
  ok, err, ◌>>=◌,
}
use ecommerce_super.Payload.{Json, Entries, no_entries}
use ecommerce_super.Mapping.{Fault, CompiledRuleset}
use ecommerce_super.Mapping.Executor.Checks.{
  check_required, check_valid, resolve_computed, computed_referenced_in, context,
  check_preconditions,
}
use ecommerce_super.Mapping.Executor.Rules.{Applied, apply_rules}
use ecommerce_super.Mapping.Transforms.{Direction, Site, names_of}
use ecommerce_super.Mapping.Executor.{Failure, compile_failed, out_of_scope, recursion}

module _ (site : Site) where
  abbrev pub checked : CompiledRuleset → Direction → Applied → Result Failure Applied
  checked compiled direction done =
      check_required site (compiled.rules) direction (done.output)
      >>= (λ _. check_valid site (compiled.rules) direction (done.output))
      >>= (λ _. ok done)

  module _ (child : String → Result Failure (Json → Result Failure Entries)) where
    -- `_apply`
    unfoldable pub apply_all :
        Bool → CompiledRuleset → String → Direction → Json → Result Failure Applied
    unfolding resolve_computed computed_referenced_in
    apply_all collect compiled company direction source =
        resolve_computed site (computed_referenced_in direction (compiled.rules))
          (compiled.computed_fields) (names_of (context direction company source no_entries))
        >>= (λ values.
            apply_rules site child collect (compiled.missing_field_policy) (compiled.rules)
              (context direction company source values) no_entries)
        >>= (λ done. checked compiled direction done)

    -- `push` and `pull`
    unfoldable pub run : CompiledRuleset → String → Direction → Json → Result Failure Entries
    unfolding apply_all check_preconditions
    run compiled company direction source =
        if compiled.active
        then check_preconditions site compiled direction company source
          >>= (λ _. apply_all false compiled company direction source)
          >>= (λ done. ok (done.output))
        else ok no_entries

    -- `test_with_sample`
    unfoldable pub test_with_sample :
        CompiledRuleset → String → Direction → Json → Result Failure Applied
    unfolding apply_all
    test_with_sample compiled company direction sample =
        apply_all true compiled company direction sample

  -- `_validate_scope`
  abbrev pub in_scope : List String → String → Bool
  in_scope [] company = true
  in_scope (c ∷ cs) company = str_eq company "" || has company (c ∷ cs)

  module _ (compile : String → Result Fault CompiledRuleset) where
    abbrev pub opened : Result Fault CompiledRuleset → String → Result Failure CompiledRuleset
    opened (err fault) company = err (compile_failed fault)
    opened (ok compiled) company =
        if in_scope (compiled.company_scope) company then ok compiled else err out_of_scope

    -- `FieldMappingExecutor(name, company)`, then `push` or `pull`, with so many executors inside one another at most.
    unfoldable pub executor :
        ℕ → String → Direction → String → Result Failure (Json → Result Failure Entries)
    unfolding run
    executor zero company direction name = err recursion
    executor (suc levels) company direction name =
        opened (compile name) company
        >>= (λ compiled. ok (run (executor levels company direction) compiled company direction))

    -- `FieldMappingExecutor(name, company).push(source)` or `.pull(source)`.
    unfoldable pub map_record : ℕ → String → Direction → String → Json → Result Failure Entries
    map_record levels company direction name source =
        executor levels company direction name >>= (λ apply. apply source)
