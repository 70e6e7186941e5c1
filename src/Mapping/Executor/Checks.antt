-- ===== src/Mapping/Executor/Checks.antt =====
-- ecommerce_super/easyecom/field_mapping/executor.py: what runs before and after the rules of a ruleset.
use ecommerce_super.Base.{
  String, Bool, true, false, ◌&&◌, not, Option, none, some, List, [], ◌∷◌, str_eq, if◌then◌else◌,
  has, strip, Result, ok, err, ◌>>=◌,
}
use ecommerce_super.Payload.{
  Json, null, text, array, dict, no_items, Entries, no_entries, entry, get,
}
use ecommerce_super.Payload.Path.Reading.{get_path, to_list}
use ecommerce_super.Mapping.{CompiledRule, CompiledRuleset, CompiledComputed}
use ecommerce_super.Mapping.Transforms.{Direction, Site, Context, truthy, is_missing, names_of}
use ecommerce_super.Mapping.Executor.{
  Failure, computed_failed, missing_required, not_valid, precondition_failed, crashed,
  transform_for, target_path, values_at, first_or,
}

-- `(rule.transform_args or {}).get(...)` as a name, where it is not empty.
abbrev pub as_name : Option Json → Option String
as_name (some (text n)) = if str_eq n "" then none else some n
as_name _ = none

unfoldable pub computed_referenced_in : Direction → List CompiledRule → List String
unfolding get
computed_referenced_in direction [] = []
computed_referenced_in direction (r ∷ rs) =
    let rest = computed_referenced_in direction rs in
    if str_eq (transform_for r direction) "computed"
    then elim (as_name (get "name" (r.transform_args))) [ none ↦ rest | some n ↦ n ∷ rest ]
    else rest

abbrev pub context : Direction → String → Json → Entries → Context
context direction company source values = record {
  direction = direction;
  source = source;
  company = company;
  computed_values = values;
}

module _ (site : Site) where
  abbrev pub values_of : Json → String → Result Failure (List Json)
  values_of source path = values_at (get_path (site.str_of) source path)

  abbrev pub first_value : Json → String → Json → Result Failure Json
  first_value source path default =
      values_of source path >>= (λ values. ok (first_or default values))

  -- `produced in (None, "", [])`
  abbrev pub is_produced : Json → Bool
  is_produced (array no_items) = false
  is_produced value = not (is_missing value)

  unfoldable pub check_required : List CompiledRule → Direction → Entries → Result Failure Unit
  unfolding is_missing
  check_required [] direction output = ok tt
  check_required (r ∷ rs) direction output =
      let rest = check_required rs direction output in
      if r.required
      then first_value (dict output) (target_path r direction) null
        >>= (λ produced. if is_produced produced then rest else err (missing_required (r.idx)))
      else rest

  unfoldable pub all_exist : String → List Json → Bool
  all_exist doctype [] = true
  all_exist doctype (v ∷ vs) = site.exists doctype v && all_exist doctype vs

  -- The values of `validate_against`: those of a list, or the one that is there.
  abbrev pub to_validate : Json → List Json
  to_validate (array xs) = to_list xs
  to_validate value = if is_missing value then [] else value ∷ []

  unfoldable pub check_valid : List CompiledRule → Direction → Entries → Result Failure Unit
  unfolding all_exist is_missing
  check_valid [] direction output = ok tt
  check_valid (r ∷ rs) direction output =
      let rest = check_valid rs direction output in
      if str_eq (r.validate_against) ""
      then rest
      else first_value (dict output) (target_path r direction) null >>= (λ value.
        if all_exist (r.validate_against) (to_validate value)
        then rest
        else err (not_valid (r.idx)))

  -- `context.computed_values[cf.field_name] = value`, before the other fields.
  abbrev pub with_value : String → Option Json → Result Failure Entries → Result Failure Entries
  with_value name none rest = err (computed_failed name)
  with_value name (some v) rest = rest >>= (λ values. ok (entry name v values))

  -- `_resolve_computed_fields`
  unfoldable pub resolve_computed :
      List String → List CompiledComputed → Entries → Result Failure Entries
  unfolding strip
  resolve_computed referenced [] names = ok no_entries
  resolve_computed referenced (cf ∷ cfs) names =
      let rest = resolve_computed referenced cfs names in
      if has (cf.field_name) referenced
      then with_value (cf.field_name) (site.safe_eval (strip (cf.expression)) true names) rest
      else rest

  abbrev pub precondition_value : Option Json → Result Failure Unit
  precondition_value none = err crashed
  precondition_value (some v) = if truthy v then ok tt else err precondition_failed

  unfoldable pub check_preconditions :
      CompiledRuleset → Direction → String → Json → Result Failure Unit
  unfolding strip truthy
  check_preconditions compiled direction company source =
      if str_eq (compiled.preconditions) ""
      then ok tt
      else precondition_value (
          site.safe_eval (strip (compiled.preconditions)) false
            (names_of (context direction company source no_entries)))
