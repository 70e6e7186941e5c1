-- ===== src/Mapping/Compiler.antt =====
-- ecommerce_super/easyecom/field_mapping/compiler.py: a mapping compiles into a ruleset, with every mapping that
-- its rules compose. The documents, the JSON parser and Python's `ast` are parameters, a composed mapping is named
-- by a text, and the cache is the child module's.
pub mod Accepted
pub mod Origin
pub mod Composition
pub mod Cache
pub mod Deeper
use ecommerce_super.Base.{
  ℕ, zero, suc, String, Bool, true, false, ◌||◌, Option, none, some, List, [], ◌∷◌, ◌++◌, map,
  str_eq, if◌then◌else◌, has, pos, negsuc, strip, Result, ok, err, ◌>>=◌,
}
use ecommerce_super.Payload.{
  Json, null, flag, number, text, array, dict, Items, no_items, item, Entries, no_entries, entry,
  get,
}
use ecommerce_super.Mapping.{
  Fault, depth_exceeded, circular_composition, not_found, empty_name, duplicate_name,
  unknown_computed, missing_ruleset, bad_args, type_error, compose_name, Rule, ComputedField,
  FieldMapping, CompiledRule, CompiledComputed, CompiledRuleset,
}
use ecommerce_super.Mapping.Paths.{validate_path, path_has_iteration}
use ecommerce_super.Mapping.Sandbox.{
  Node, validate_expression, allowed_names_condition, allowed_names_computed,
}
use ecommerce_super.Mapping.Args.{validate_transformer_args}

abbrev pub max_composition_depth : ℕ
max_composition_depth = 5

-- `ref not in computed_fields`; a list or a dict has no hash.
abbrev pub check_reference : List String → Option Json → Result Fault Unit
check_reference names (some (text n)) = if has n names then ok tt else err unknown_computed
check_reference names (some (array xs)) = err type_error
check_reference names (some (dict es)) = err type_error
check_reference names _ = err unknown_computed

-- The cross-reference check of one side of a rule.
abbrev pub check_side : List String → String → Entries → Result Fault Unit
check_side names transform args =
    if str_eq transform "computed" then check_reference names (get "name" args) else ok tt

unfoldable pub uses_compose : Rule → Bool
uses_compose r = str_eq (r.transform_push) compose_name || str_eq (r.transform_pull) compose_name

module _ (json_loads : String → Option Json) where
  abbrev pub loaded_args : Option Json → Result Fault Entries
  loaded_args (some (dict es)) = ok es
  loaded_args _ = err bad_args

  abbrev pub coerce_args : Json → Result Fault Entries
  coerce_args null = ok no_entries
  coerce_args (dict es) = ok es
  coerce_args (text s) = if str_eq s "" then ok no_entries else loaded_args (json_loads s)
  coerce_args _ = err bad_args

module _ (nodes_of : String → Option (List Node)) where
  abbrev pub check_stripped : String → List String → Result Fault Unit
  check_stripped s allowed =
      if str_eq (strip s) "" then ok tt else validate_expression nodes_of s allowed

  -- The computed fields that are left, after those whose names are there.
  unfoldable pub compile_computed :
      List String → List ComputedField → Result Fault (List CompiledComputed)
  unfolding strip
  compile_computed seen [] = ok []
  compile_computed seen (cf ∷ cfs) =
      let rest = compile_computed (cf.field_name ∷ seen) cfs in
      if str_eq (strip (cf.field_name)) ""
      then err empty_name
      else if has (cf.field_name) seen
      then err duplicate_name
      else validate_expression nodes_of (cf.expression) allowed_names_computed >>= (λ _.
        rest >>= (λ compiled.
          ok
            (record { field_name = cf.field_name; expression = strip (cf.expression) } ∷ compiled)))

abbrev pub compiled_rule : Rule → Entries → CompiledRule
compiled_rule r args = record {
  idx = r.idx;
  erpnext_path = strip (r.erpnext_path);
  easyecom_path = strip (r.easyecom_path);
  transform_push = r.transform_push;
  transform_pull = r.transform_pull;
  transform_args = args;
  condition = strip (r.condition);
  default_value = r.default_value;
  validate_against = strip (r.validate_against);
  required = r.required;
  push_has_iteration = path_has_iteration (r.erpnext_path);
  pull_has_iteration = path_has_iteration (r.easyecom_path);
}

-- A name that is met a second time.
abbrev pub once : Bool → Result Fault CompiledRuleset → Result Fault CompiledRuleset
once true call = err circular_composition
once false call = call

abbrev pub with_row :
    CompiledRule × List String
    → Result Fault (List CompiledRule × List String)
    → Result Fault (List CompiledRule × List String)
with_row (c, composed) (err raised) = err raised
with_row (c, composed) (ok (cs, more)) = ok (c ∷ cs, composed ++ more)

-- `[r.company for r in company_scope if r.company]`
unfoldable pub companies : List String → List String
companies [] = []
companies (c ∷ cs) = let rest = companies cs in if str_eq c "" then rest else c ∷ rest

unfoldable pub assembled :
    FieldMapping → List CompiledComputed → List CompiledRule × List String → CompiledRuleset
unfolding companies
assembled doc computed (rules, composed) = record {
  mapping_name = doc.name;
  active = doc.active;
  missing_field_policy =
      if str_eq (doc.missing_field_policy) "" then "Permissive" else doc.missing_field_policy;
  company_scope = companies (doc.company_scope);
  preconditions = strip (doc.preconditions);
  rules = rules;
  computed_fields = computed;
  composed_ruleset_names = composed;
}

module _ (json_loads : String → Option Json) (nodes_of : String → Option (List Node)) where
  module _ (compile : String → Result Fault CompiledRuleset) where
    -- The target of a composition, compiled in its turn; a list or a dict is no member of a set.
    abbrev pub compose_target : Option Json → Result Fault (List String)
    compose_target (some (text target)) =
        if str_eq target "" then err missing_ruleset else compile target >>= (λ _. ok (target ∷ []))
    compose_target (some (number (pos (suc n)))) = err not_found
    compose_target (some (number (negsuc n))) = err not_found
    compose_target (some (flag true)) = err not_found
    compose_target (some (array (item x xs))) = err type_error
    compose_target (some (dict (entry k v es))) = err type_error
    compose_target _ = err missing_ruleset

    abbrev pub check_composition : Bool → Entries → Result Fault (List String)
    check_composition false args = ok []
    check_composition true args = compose_target (get "ruleset" args)

    -- A row whose arguments are read.
    unfoldable pub compile_with :
        List String → Rule → Entries → Result Fault (CompiledRule × List String)
    compile_with names r args =
        validate_transformer_args nodes_of (r.transform_push) args
        >>= (λ _. validate_transformer_args nodes_of (r.transform_pull) args)
        >>= (λ _. check_side names (r.transform_push) args)
        >>= (λ _. check_side names (r.transform_pull) args)
        >>= (λ _. check_composition (uses_compose r) args)
        >>= (λ composed.
            check_stripped nodes_of (r.condition) allowed_names_condition
            >>= (λ _. ok (compiled_rule r args, composed)))

    -- A row, with the mappings that it composes.
    unfoldable pub compile_rule : List String → Rule → Result Fault (CompiledRule × List String)
    compile_rule names r =
        validate_path (r.erpnext_path)
        >>= (λ _. validate_path (r.easyecom_path))
        >>= (λ _. coerce_args json_loads (r.transform_args))
        >>= (λ args. compile_with names r args)

    unfoldable pub compile_rules :
        List String → List Rule → Result Fault (List CompiledRule × List String)
    compile_rules names [] = ok ([], [])
    compile_rules names (r ∷ rs) =
        compile_rule names r >>= (λ c. with_row c (compile_rules names rs))

    unfoldable pub compile_doc : FieldMapping → Result Fault CompiledRuleset
    compile_doc doc =
        check_stripped nodes_of (doc.preconditions) allowed_names_condition
        >>= (λ _. compile_computed nodes_of [] (doc.computed_fields))
        >>= (λ computed.
            compile_rules (map (λ c. c.field_name) computed) (doc.rules)
            >>= (λ rules. ok (assembled doc computed rules)))

  -- A document that is there.
  unfoldable pub compile_stored :
      (String → Result Fault CompiledRuleset) → Option FieldMapping → Result Fault CompiledRuleset
  compile_stored compile none = err not_found
  compile_stored compile (some doc) = compile_doc compile doc

  module _ (docs : String → Option FieldMapping) where
    -- `compile_ruleset` below the cache, at depth `suc max_composition_depth - left` and after the mappings seen.
    unfoldable pub compile_at : ℕ → List String → String → Result Fault CompiledRuleset
    compile_at zero seen name = err depth_exceeded
    compile_at (suc left) seen name =
        once (has name seen) (compile_stored (compile_at left (name ∷ seen)) (docs name))

    unfoldable pub compile_ruleset : String → Result Fault CompiledRuleset
    unfolding compile_at
    compile_ruleset name = compile_at (suc max_composition_depth) [] name
