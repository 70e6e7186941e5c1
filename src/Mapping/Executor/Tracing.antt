-- ===== src/Mapping/Executor/Tracing.antt =====
-- ecommerce_super/easyecom/field_mapping/executor.py: the test run of a ruleset on a sample, against the run itself.
use ecommerce_super.Base.{
  String, ◌≡◌, refl, sym, ap, ◌∙◌, ◌↔◌, ◌⊎◌, inl, inr, Bool, true, false, List, [], ◌∷◌, Bool-cases,
  Result, ok, err, ◌>>=◌, first_returned, ok_injective, taken, left_out,
}
use ecommerce_super.Payload.{Json, Entries, no_entries}
use ecommerce_super.Mapping.{CompiledRule, CompiledRuleset}
use ecommerce_super.Mapping.Transforms.{Direction, Site, Context, names_of}
use ecommerce_super.Mapping.Executor.{Failure, Mark}
use ecommerce_super.Mapping.Executor.Checks.{
  check_required, check_valid, resolve_computed, computed_referenced_in, context,
}
use ecommerce_super.Mapping.Executor.Rules.{
  Applied, with_applied, marked, noted, is_rule_error, after_rule, apply_rule, apply_rules,
}
use ecommerce_super.Mapping.Executor.Collected.{
  NoRuleError, chain-NoRuleError, checked-NoRuleError, apply_rules-NoRuleError,
}
use ecommerce_super.Mapping.Executor.Run.{checked, apply_all, test_with_sample}

inner_applied :
    (f : Applied → Applied) (rest : Result Failure Applied) {done : Applied}
    → with_applied f rest ≡ ok done
    → (inner : Applied) × (rest ≡ ok inner) × (f inner ≡ done)
inner_applied f (err raised) returned = cc
inner_applied f (ok inner) returned = (inner, refl, ok_injective returned)

-- A run without failed rules is the same with and without a trace, past one rule.
after_rule-traced :
    (result : Result Failure (Entries × Mark)) (output : Entries)
    (go_on traced : Entries → Result Failure Applied) {done : Applied}
    → ((next : Entries) (rest : Applied)
        → go_on next ≡ ok rest
        → (traced next ≡ ok rest) × (rest.errors ≡ []))
    → after_rule false result output go_on ≡ ok done
    → (after_rule true result output traced ≡ ok done) × (done.errors ≡ [])
after_rule-traced (err raised) output go_on traced same returned = cc
after_rule-traced (ok (next, mark)) output go_on traced same returned =
    let (inner, rest, whole) = inner_applied (marked mark) (go_on next) returned in
    let (again, clean) = same next inner rest in
    (ap (with_applied (marked mark)) again ∙ ap ok whole, ap (λ d. d.errors) (sym whole) ∙ clean)

after_rule-untraced :
    (result : Result Failure (Entries × Mark)) (output : Entries)
    (go_on traced : Entries → Result Failure Applied) {done : Applied}
    → ((next : Entries) (rest : Applied)
        → traced next ≡ ok rest
        → rest.errors ≡ []
        → go_on next ≡ ok rest)
    → after_rule true result output traced ≡ ok done
    → done.errors ≡ []
    → after_rule false result output go_on ≡ ok done
after_rule-untraced (err raised) output go_on traced same returned clean =
    elim (Bool-cases (is_rule_error raised)) [
      | inl e ↦
          let (inner, rest, whole) =
            inner_applied (noted raised) (traced output)
              (taken (is_rule_error raised) (err raised) e returned) in
          let none_failed = ap (λ d. d.errors) whole ∙ clean in cc
      | inr e ↦
          let stopped =
            left_out (is_rule_error raised) (with_applied (noted raised) (traced output)) e
              returned in
          cc
    ]
after_rule-untraced (ok (next, mark)) output go_on traced same returned clean =
    let (inner, rest, whole) = inner_applied (marked mark) (traced next) returned in
    ap (with_applied (marked mark)) (same next inner rest (ap (λ d. d.errors) whole ∙ clean))
    ∙ ap ok whole

module _ (site : Site) (child : String → Result Failure (Json → Result Failure Entries)) where
  apply_rules-traced :
      (policy : String) (rules : List CompiledRule) (ctx : Context) (output : Entries)
      {done : Applied}
      → apply_rules site child false policy rules ctx output ≡ ok done
      → (apply_rules site child true policy rules ctx output ≡ ok done) × (done.errors ≡ [])
  unfolding apply_rules
  apply_rules-traced policy [] ctx output returned =
      (returned, ap (λ d. d.errors) (sym (ok_injective returned)))
  apply_rules-traced policy (r ∷ rs) ctx output returned =
      after_rule-traced (apply_rule site child policy r ctx output) output _ _
        (λ next rest same. apply_rules-traced policy rs ctx next same) returned

  apply_rules-untraced :
      (policy : String) (rules : List CompiledRule) (ctx : Context) (output : Entries)
      {done : Applied}
      → apply_rules site child true policy rules ctx output ≡ ok done
      → done.errors ≡ []
      → apply_rules site child false policy rules ctx output ≡ ok done
  unfolding apply_rules
  apply_rules-untraced policy [] ctx output returned clean = returned
  apply_rules-untraced policy (r ∷ rs) ctx output returned clean =
      after_rule-untraced (apply_rule site child policy r ctx output) output _ _
        (λ next rest same clean. apply_rules-untraced policy rs ctx next same clean) returned clean

  checked_same :
      (compiled : CompiledRuleset) (direction : Direction) (made : Applied) {done : Applied}
      → checked site compiled direction made ≡ ok done
      → made ≡ done
  checked_same compiled direction made passed =
      let (_, _, same) =
        first_returned
          (check_required site (compiled.rules) direction (made.output)
            >>= (λ _. check_valid site (compiled.rules) direction (made.output)))
          _ passed in
      ok_injective same

  -- The run of a ruleset, from the computed fields to the checks.
  from_parts :
      (collect : Bool) (compiled : CompiledRuleset) (company : String) (direction : Direction)
      (source : Json) {values : Entries} {made done : Applied}
      → resolve_computed site
          (computed_referenced_in direction (compiled.rules))
          (compiled.computed_fields)
          (names_of (context direction company source no_entries))
        ≡ ok values
      → apply_rules site child collect
          (compiled.missing_field_policy)
          (compiled.rules)
          (context direction company source values)
          no_entries
        ≡ ok made
      → checked site compiled direction made ≡ ok done
      → apply_all site child collect compiled company direction source ≡ ok done
  unfolding apply_all
  from_parts collect compiled company direction source resolved ran passed =
      ap
        (λ m.
          m
          >>= (λ values.
              apply_rules site child collect (compiled.missing_field_policy) (compiled.rules)
                (context direction company source values) no_entries)
          >>= (λ done. checked site compiled direction done))
        resolved
      ∙ (ap (λ m. m >>= (λ done. checked site compiled direction done)) ran ∙ passed)

  to_parts :
      (collect : Bool) (compiled : CompiledRuleset) (company : String) (direction : Direction)
      (source : Json) {done : Applied}
      → apply_all site child collect compiled company direction source ≡ ok done
      → (values : Entries) × (resolve_computed site
            (computed_referenced_in direction (compiled.rules))
            (compiled.computed_fields)
            (names_of (context direction company source no_entries))
          ≡ ok values)
        × (apply_rules site child collect
              (compiled.missing_field_policy)
              (compiled.rules)
              (context direction company source values)
              no_entries
            ≡ ok done)
        × (checked site compiled direction done ≡ ok done)
  unfolding apply_all
  to_parts collect compiled company direction source returned =
      let (made, ran, passed) =
        first_returned
          (resolve_computed site (computed_referenced_in direction (compiled.rules))
              (compiled.computed_fields) (names_of (context direction company source no_entries))
            >>= (λ values.
                apply_rules site child collect (compiled.missing_field_policy) (compiled.rules)
                  (context direction company source values) no_entries))
          _ returned in
      let (values, resolved, rules) =
        first_returned
          (resolve_computed site (computed_referenced_in direction (compiled.rules))
            (compiled.computed_fields) (names_of (context direction company source no_entries)))
          _ ran in
      let same = checked_same compiled direction made passed in
      (
        values,
        resolved,
        rules ∙ ap ok same,
        ap (checked site compiled direction) (sym same) ∙ passed,
      )

  -- The computed fields of the ruleset itself cannot be evaluated.
  abbrev pub Unresolved : CompiledRuleset → String → Direction → Json → Type 0
  Unresolved compiled company direction sample =
      (raised : Failure) × (resolve_computed site
          (computed_referenced_in direction (compiled.rules)) (compiled.computed_fields)
          (names_of (context direction company sample no_entries))
        ≡ err raised)

  quiet_from :
      (compiled : CompiledRuleset) (company : String) (direction : Direction) (sample : Json)
      (resolved : Result Failure Entries)
      → resolve_computed site
          (computed_referenced_in direction (compiled.rules))
          (compiled.computed_fields)
          (names_of (context direction company sample no_entries))
        ≡ resolved
      → Unresolved compiled company direction sample
        ⊎ NoRuleError (
            resolved
            >>= (λ values.
                apply_rules site child true
                  (compiled.missing_field_policy)
                  (compiled.rules)
                  (context direction company sample values)
                  no_entries)
            >>= (λ done. checked site compiled direction done))
  quiet_from compiled company direction sample (err raised) same = inl (raised, same)
  quiet_from compiled company direction sample (ok values) same = inr (
      chain-NoRuleError _ _
        (apply_rules-NoRuleError site child (compiled.missing_field_policy) (compiled.rules)
          (context direction company sample values) no_entries)
        (λ done. checked-NoRuleError site compiled direction done))

  -- Running the rules returns an output exactly when the test run of the same sample returns it with no failed
  -- rule; the trace is the same too. Unless the computed fields of the ruleset cannot be evaluated, the test run never
  -- raises the error of a rule, nor that of a computed field of a ruleset that a rule composes.
  pub test_with_sample_lem :
      (compiled : CompiledRuleset) (company : String) (direction : Direction) (sample : Json)
      (done : Applied)
      → ((apply_all site child false compiled company direction sample ≡ ok done) ↔ (
          (test_with_sample site child compiled company direction sample ≡ ok done)
          × (done.errors ≡ [])))
        × (Unresolved compiled company direction sample
            ⊎ NoRuleError (test_with_sample site child compiled company direction sample))
  unfolding test_with_sample apply_all
  test_with_sample_lem compiled company direction sample done = (
    (
      λ returned.
          let (values, resolved, rules, passed) =
            to_parts false compiled company direction sample returned in
          let (traced, clean) =
            apply_rules-traced (compiled.missing_field_policy) (compiled.rules) _ no_entries
              rules in
          (from_parts true compiled company direction sample resolved traced passed, clean),
      λ (returned, clean).
          let (values, resolved, rules, passed) =
            to_parts true compiled company direction sample returned in
          from_parts false compiled company direction sample resolved
            (apply_rules-untraced (compiled.missing_field_policy) (compiled.rules) _ no_entries
              rules clean)
            passed,
    ),
    quiet_from compiled company direction sample _ refl,
  )
