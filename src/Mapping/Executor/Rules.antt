-- ===== src/Mapping/Executor/Rules.antt =====
-- ecommerce_super/easyecom/field_mapping/executor.py: what each rule of a ruleset writes to the output.
use ecommerce_super.Base.{
  String, Bool, true, false, ◌&&◌, ◌||◌, not, Option, none, some, List, [], ◌∷◌, str_eq,
  if◌then◌else◌, strip, Result, ok, err, ◌>>=◌,
}
use ecommerce_super.Payload.{Json, null, text, array, dict, no_items, Entries, get}
use ecommerce_super.Mapping.{Fault, compose_name, not_found, type_error, CompiledRule}
use ecommerce_super.Mapping.Executor.Checks.{values_of, first_value}
use ecommerce_super.Mapping.Transforms.{Site, Context, truthy, names_of, apply_transformer}
use ecommerce_super.Mapping.Executor.{
  Failure, compile_failed, rule_failed, computed_failed, missing_required, Mark, skipped, applied,
  transform_for, source_path, target_path, has_iteration, from_list, set_output, set_iterated,
  default_of, rows_of, in_rule,
}

-- The output of a run, with its trace and the rules that failed.
pub record Applied : Type 0 where
  pub output : Entries
  pub trace : List Mark
  pub errors : List Failure

abbrev pub marked : Mark → Applied → Applied
marked m done = record { output = done.output; trace = m ∷ done.trace; errors = done.errors }

abbrev pub noted : Failure → Applied → Applied
noted f done = record { output = done.output; trace = done.trace; errors = f ∷ done.errors }

abbrev pub with_applied : (Applied → Applied) → Result Failure Applied → Result Failure Applied
with_applied f (err raised) = err raised
with_applied f (ok done) = ok (f done)

-- `except FieldMappingRuleError`; the error of a computed field comes from a ruleset that a rule composes.
abbrev pub is_rule_error : Failure → Bool
is_rule_error (rule_failed i) = true
is_rule_error (computed_failed field) = true
is_rule_error _ = false

-- The body of the loop over the rules; `go_on` is the rest of the loop.
abbrev pub after_rule :
    Bool
    → Result Failure (Entries × Mark)
    → Entries
    → (go_on : Entries → Result Failure Applied) → Result Failure Applied
after_rule collect (ok (next, mark)) output go_on = with_applied (marked mark) (go_on next)
after_rule collect (err raised) output go_on =
    if collect && is_rule_error raised
    then with_applied (noted raised) (go_on output)
    else err raised

-- The fault of a ruleset that is named by no text: there is none of that name, and a list or a dict is no member of a set.
abbrev pub no_such : Json → Fault
no_such (array xs) = type_error
no_such (dict es) = type_error
no_such v = not_found

module _ (site : Site) where
  -- The condition of a rule; an exception is false.
  abbrev pub holds : Option Json → Bool
  holds none = false
  holds (some v) = truthy v

  unfoldable pub condition_holds : CompiledRule → Context → Bool
  unfolding strip truthy
  condition_holds r ctx =
      str_eq (r.condition) "" || holds (site.safe_eval (strip (r.condition)) false (names_of ctx))

  abbrev pub run_transformer : CompiledRule → String → Json → Context → Result Failure Json
  run_transformer r n value ctx =
      in_rule (r.idx) (apply_transformer site n value (r.transform_args) ctx)

  unfoldable pub transform_all :
      CompiledRule → String → List Json → Context → Result Failure (List Json)
  transform_all r n [] ctx = ok []
  transform_all r n (v ∷ vs) ctx =
      run_transformer r n v ctx >>= (λ w. transform_all r n vs ctx >>= (λ ws. ok (w ∷ ws)))

  abbrev pub emit_scalar :
      CompiledRule → String → Json → Context → Entries → Result Failure (Entries × Mark)
  emit_scalar r n value ctx output = run_transformer r n value ctx >>= (λ result.
      set_output output (target_path r (ctx.direction)) result >>= (λ next. ok (
        next,
        applied (r.idx) (source_path r (ctx.direction)) (target_path r (ctx.direction)) value
            result,
      )))

  -- The policy for a source without a value and a rule without a default.
  abbrev pub without_value :
      String → CompiledRule → String → Context → Entries → Result Failure (Entries × Mark)
  without_value policy r n ctx output =
      if str_eq policy "Drop"
      then ok (output, skipped (r.idx))
      else if str_eq policy "Strict" && not (r.required)
      then err (missing_required (r.idx))
      else emit_scalar r n null ctx output

  abbrev pub or_default :
      String
      → CompiledRule
      → String
      → Option Json
      → Context
      → Entries
      → Result Failure (Entries × Mark)
  or_default policy r n (some value) ctx output = emit_scalar r n value ctx output
  or_default policy r n none ctx output = without_value policy r n ctx output

  abbrev pub scalar_value :
      String → CompiledRule → String → Json → Context → Entries → Result Failure (Entries × Mark)
  scalar_value policy r n null ctx output = or_default policy r n (default_of r) ctx output
  scalar_value policy r n value ctx output = emit_scalar r n value ctx output

  abbrev pub apply_scalar :
      String → CompiledRule → String → Context → Entries → Result Failure (Entries × Mark)
  apply_scalar policy r n ctx output =
      first_value site (ctx.source) (source_path r (ctx.direction)) null
      >>= (λ value. scalar_value policy r n value ctx output)

  abbrev pub apply_iterated :
      CompiledRule → String → Context → Entries → Result Failure (Entries × Mark)
  apply_iterated r n ctx output =
      values_of site (ctx.source) (source_path r (ctx.direction)) >>= (λ values.
        transform_all r n values ctx >>= (λ results.
          set_iterated output (target_path r (ctx.direction)) results >>= (λ next. ok (
            next,
            applied (r.idx) (source_path r (ctx.direction)) (target_path r (ctx.direction))
                (array (from_list values)) (array (from_list results)),
          ))))

  -- `child.push(row)` or `child.pull(row)` of each row.
  unfoldable pub run_rows : (Json → Result Failure Entries) → List Json → Result Failure (List Json)
  run_rows child [] = ok []
  run_rows child (row ∷ rows) =
      child row >>= (λ es. run_rows child rows >>= (λ outputs. ok (dict es ∷ outputs)))

  abbrev pub compose_rows :
      CompiledRule
      → Context
      → Entries
      → (Json → Result Failure Entries)
      → Result Failure (Entries × Mark)
  compose_rows r ctx output child =
      first_value site (ctx.source) (source_path r (ctx.direction)) (array no_items) >>= (λ rows.
        run_rows child (rows_of rows) >>= (λ outputs.
          set_output output (target_path r (ctx.direction)) (array (from_list outputs)) >>= (λ next.
            ok (
              next,
              applied (r.idx) (source_path r (ctx.direction)) (target_path r (ctx.direction))
                  (array (from_list (rows_of rows))) (array (from_list outputs)),
            ))))

  module _ (child : String → Result Failure (Json → Result Failure Entries)) where
    -- `_apply_compose`; a ruleset that is not named by a text is not there.
    abbrev pub compose_named :
        CompiledRule → Context → Entries → Option Json → Result Failure (Entries × Mark)
    compose_named r ctx output (some (text n)) =
        if str_eq n ""
        then err (rule_failed (r.idx))
        else child n >>= (λ run. compose_rows r ctx output run)
    compose_named r ctx output none = err (rule_failed (r.idx))
    compose_named r ctx output (some v) =
        if truthy v then err (compile_failed (no_such v)) else err (rule_failed (r.idx))

    abbrev pub apply_named :
        String → CompiledRule → String → Context → Entries → Result Failure (Entries × Mark)
    apply_named policy r n ctx output =
        if str_eq n ""
        then ok (output, skipped (r.idx))
        else if str_eq n compose_name
        then compose_named r ctx output (get "ruleset" (r.transform_args))
        else if has_iteration r (ctx.direction)
        then apply_iterated r n ctx output
        else apply_scalar policy r n ctx output

    -- `_apply_rule`
    unfoldable pub apply_rule :
        String → CompiledRule → Context → Entries → Result Failure (Entries × Mark)
    unfolding condition_holds get
    apply_rule policy r ctx output =
        if condition_holds r ctx
        then apply_named policy r (transform_for r (ctx.direction)) ctx output
        else ok (output, skipped (r.idx))

    unfoldable pub apply_rules :
        Bool → String → List CompiledRule → Context → Entries → Result Failure Applied
    apply_rules collect policy [] ctx output =
        ok record { output = output; trace = []; errors = [] }
    apply_rules collect policy (r ∷ rs) ctx output =
        after_rule collect (apply_rule policy r ctx output) output
          (apply_rules collect policy rs ctx)
