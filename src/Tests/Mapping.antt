-- ===== src/Tests/Mapping.antt =====
-- ecommerce_super/easyecom/field_mapping: tests.
use ecommerce_super.Base.{
  ℕ, suc, ◌≤◌, String, ◌≡◌, refl, ap, ◌≢◌, ◌↔◌, ◌⊎◌, Bool, true, false, Option, none, some, List,
  [], ◌∷◌, str_eq, if◌then◌else◌, All, strip, Result, ok, err,
}
use ecommerce_super.Payload.{
  Json, null, flag, number, text, array, dict, Items, no_items, item, Entries, no_entries, entry,
}
use ecommerce_super.Mapping.{
  Fault, circular_composition, not_found, bad_path, Rule, ComputedField, FieldMapping, CompiledRule,
  CompiledRuleset,
}
use ecommerce_super.Payload.Path.Reading.{get_path}
use ecommerce_super.Mapping.Paths.{validate_path}
use ecommerce_super.Mapping.Paths.Readable.{get_path-validate_path}
use ecommerce_super.Mapping.Sandbox.{
  Node, name, other_node, validate_expression, allowed_names_condition,
}
use ecommerce_super.Mapping.Sandbox.Allowed.{IsAllowed, validate_expression-IsAllowed}
use ecommerce_super.Mapping.Args.{validate_transformer_args}
use ecommerce_super.Mapping.Args.Clean.{IsClean}
use ecommerce_super.Mapping.Args.Accepted.{apply_transformer-validate_transformer_args}
use ecommerce_super.Mapping.Transforms.{refused, push, Site, Context, apply_transformer}
use ecommerce_super.Mapping.Compiler.{compile_ruleset, max_composition_depth}
use ecommerce_super.Mapping.Compiler.Accepted.{this_row, later_row}
use ecommerce_super.Mapping.Compiler.Composition.{
  Composes, Chain, here, through, compile_ruleset-bounded, compile_ruleset-acyclic,
}
use ecommerce_super.Mapping.Compiler.Deeper.{compile_ruleset-composed}
use ecommerce_super.Mapping.Compiler.Cache.{
  Cached, invalidate, compile_cached, compile_cached-invalidate,
}
use ecommerce_super.Mapping.Executor.{Mark, Failure, missing_required, recursion}
use ecommerce_super.Mapping.Executor.Run.{map_record, apply_all, executor, test_with_sample}
use ecommerce_super.Mapping.Executor.Rules.{Applied}
use ecommerce_super.Mapping.Executor.Nested.{map_record-Ends}
use ecommerce_super.Mapping.Executor.Collected.{NoRuleError}
use ecommerce_super.Mapping.Executor.Tracing.{Unresolved, test_with_sample_lem}

abbrev no_json : String → Option Json
no_json s = none

abbrev one_name : String → Option (List Node)
one_name s = some (name "source_doc" true ∷ other_node ∷ [])

abbrev identity_rule : ℕ → String → String → Bool → Rule
identity_rule i erp ee required = record {
  idx = i;
  erpnext_path = erp;
  easyecom_path = ee;
  transform_push = "identity";
  transform_pull = "identity";
  transform_args = null;
  condition = "";
  default_value = null;
  validate_against = "";
  required = required;
}

abbrev compose_rule : String → Rule
compose_rule target = record {
  idx = 2;
  erpnext_path = "items";
  easyecom_path = "orderItems";
  transform_push = "compose";
  transform_pull = "compose";
  transform_args = dict (entry "ruleset" (text target) no_entries);
  condition = "";
  default_value = null;
  validate_against = "";
  required = false;
}

abbrev mapping : String → List Rule → FieldMapping
mapping n rules = record {
  name = n;
  active = true;
  missing_field_policy = "Drop";
  company_scope = [];
  preconditions = "";
  computed_fields = [];
  rules = rules;
}

abbrev order_rules : List Rule
order_rules = identity_rule 1 "customer" "buyer" true ∷ compose_rule "Line" ∷ []

abbrev documents : String → Option FieldMapping
documents n =
    if str_eq n "Order"
    then some (mapping "Order" order_rules)
    else if str_eq n "Line"
    then some (mapping "Line" (identity_rule 1 "item_code" "sku" true ∷ []))
    else if str_eq n "Loop"
    then some (mapping "Loop" (compose_rule "Loop" ∷ []))
    else none

abbrev compiled_identity : String → String → CompiledRule
compiled_identity erp ee = record {
  idx = 1;
  erpnext_path = erp;
  easyecom_path = ee;
  transform_push = "identity";
  transform_pull = "identity";
  transform_args = no_entries;
  condition = "";
  default_value = null;
  validate_against = "";
  required = true;
  push_has_iteration = false;
  pull_has_iteration = false;
}

abbrev compiled_compose : CompiledRule
compiled_compose = record {
  idx = 2;
  erpnext_path = "items";
  easyecom_path = "orderItems";
  transform_push = "compose";
  transform_pull = "compose";
  transform_args = entry "ruleset" (text "Line") no_entries;
  condition = "";
  default_value = null;
  validate_against = "";
  required = false;
  push_has_iteration = false;
  pull_has_iteration = false;
}

abbrev compiled : String → List CompiledRule → List String → CompiledRuleset
compiled n rules composed = record {
  mapping_name = n;
  active = true;
  missing_field_policy = "Drop";
  company_scope = [];
  preconditions = "";
  rules = rules;
  computed_fields = [];
  composed_ruleset_names = composed;
}

abbrev order_compiled : CompiledRuleset
order_compiled =
    compiled "Order" (compiled_identity "customer" "buyer" ∷ compiled_compose ∷ []) ("Line" ∷ [])

abbrev line_compiled : CompiledRuleset
line_compiled = compiled "Line" (compiled_identity "item_code" "sku" ∷ []) []

abbrev site : Site
site = record {
  safe_eval = λ expression helpers names. some (flag true);
  by_name = λ doctype n field. some (text "EE-7");
  by_field = λ doctype field value wanted. none;
  exists = λ doctype n. true;
  converted = λ transformer value args. err refused;
  str_of = λ value. "";
}

order_taken : compile_ruleset no_json one_name documents "Order" ≡ ok order_compiled
unfolding compile_ruleset ecommerce_super.Mapping.Compiler.compile_stored
    ecommerce_super.Mapping.Compiler.compile_doc strip
    ecommerce_super.Mapping.Compiler.compile_computed ecommerce_super.Mapping.Compiler.compile_rules
    ecommerce_super.Mapping.Compiler.compile_rule validate_path
    ecommerce_super.Mapping.Compiler.compile_with validate_transformer_args
    ecommerce_super.Mapping.Compiler.uses_compose ecommerce_super.Mapping.Compiler.assembled
    ecommerce_super.Mapping.Paths.path_has_iteration
order_taken = refl

line_taken : compile_ruleset no_json one_name documents "Line" ≡ ok line_compiled
unfolding compile_ruleset ecommerce_super.Mapping.Compiler.compile_stored
    ecommerce_super.Mapping.Compiler.compile_doc strip
    ecommerce_super.Mapping.Compiler.compile_computed ecommerce_super.Mapping.Compiler.compile_rules
    ecommerce_super.Mapping.Compiler.compile_rule validate_path
    ecommerce_super.Mapping.Compiler.compile_with validate_transformer_args
    ecommerce_super.Mapping.Compiler.uses_compose ecommerce_super.Mapping.Compiler.assembled
    ecommerce_super.Mapping.Paths.path_has_iteration
line_taken = refl

loop_refused : compile_ruleset no_json one_name documents "Loop" ≡ err circular_composition
unfolding compile_ruleset ecommerce_super.Mapping.Compiler.compile_stored
    ecommerce_super.Mapping.Compiler.compile_doc strip
    ecommerce_super.Mapping.Compiler.compile_computed ecommerce_super.Mapping.Compiler.compile_rules
    ecommerce_super.Mapping.Compiler.compile_rule validate_path
    ecommerce_super.Mapping.Compiler.compile_with validate_transformer_args
    ecommerce_super.Mapping.Compiler.uses_compose
loop_refused = refl

order_Composes : Composes no_json one_name documents "Order" "Line"
unfolding ecommerce_super.Mapping.Compiler.uses_compose ecommerce_super.Payload.get
order_Composes = record {
  doc = mapping "Order" order_rules;
  stored = refl;
  rule = compose_rule "Line";
  row = later_row (identity_rule 1 "customer" "buyer" true) (this_row (compose_rule "Line") []);
  composing = record {
    composing = refl;
    args = entry "ruleset" (text "Line") no_entries;
    coerced = refl;
    named = refl;
  };
}

order_Chain : Chain no_json one_name documents 1 "Order" "Line"
order_Chain = through order_Composes (here "Line")

compile_ruleset-bounded_test : 1 ≤ max_composition_depth
compile_ruleset-bounded_test =
    compile_ruleset-bounded no_json one_name documents "Order" order_Chain order_taken

compile_ruleset-acyclic_example : Path ℕ 0 0
compile_ruleset-acyclic_example =
    compile_ruleset-acyclic no_json one_name documents "Order" order_Chain (here "Line") order_taken

compile_ruleset-composed_test :
    (c : CompiledRuleset) × (compile_ruleset no_json one_name documents "Line" ≡ ok c)
compile_ruleset-composed_test =
    compile_ruleset-composed no_json one_name documents "Order" "Line" order_Composes order_taken

-- The documents after a save of "Line" that makes it compose "Order".
abbrev relinked : String → Option FieldMapping
relinked n =
    if str_eq n "Order"
    then some (mapping "Order" order_rules)
    else if str_eq n "Line"
    then some (mapping "Line" (compose_rule "Order" ∷ []))
    else none

abbrev both_cached : Cached
both_cached = ("Order", order_compiled) ∷ ("Line", line_compiled) ∷ []

relinked_refused : compile_ruleset no_json one_name relinked "Order" ≡ err circular_composition
unfolding compile_ruleset ecommerce_super.Mapping.Compiler.compile_stored
    ecommerce_super.Mapping.Compiler.compile_doc strip
    ecommerce_super.Mapping.Compiler.compile_computed ecommerce_super.Mapping.Compiler.compile_rules
    ecommerce_super.Mapping.Compiler.compile_rule validate_path
    ecommerce_super.Mapping.Compiler.compile_with validate_transformer_args
    ecommerce_super.Mapping.Compiler.uses_compose
relinked_refused = refl

compile_cached-invalidate_example :
    ((compile_cached no_json one_name relinked "Line" (invalidate "Line" both_cached)).0
      ≡ compile_ruleset no_json one_name relinked "Line")
    × ((compile_cached no_json one_name relinked "Order" (invalidate "Line" both_cached)).0
        ≡ ok order_compiled)
compile_cached-invalidate_example =
    compile_cached-invalidate no_json one_name relinked "Line" "Order" both_cached refl refl

abbrev line : String → Json
line sku = dict (entry "item_code" (text sku) no_entries)

abbrev order : Json
order = dict (
    entry "customer" (text "ACME")
      (entry "items" (array (item (line "A") (item (line "B") no_items))) no_entries))

abbrev pushed : Entries
pushed = entry "buyer" (text "ACME") (
    entry "orderItems"
      (array (
        item (dict (entry "sku" (text "A") no_entries))
          (item (dict (entry "sku" (text "B") no_entries)) no_items)))
      no_entries)

sent_to_easyecom :
    map_record site (compile_ruleset no_json one_name documents) 6 "" push "Order" order ≡ ok pushed
unfolding map_record executor compile_ruleset ecommerce_super.Mapping.Compiler.compile_stored
    ecommerce_super.Mapping.Compiler.compile_doc ecommerce_super.Mapping.Compiler.compile_computed
    ecommerce_super.Mapping.Compiler.compile_rules ecommerce_super.Mapping.Compiler.compile_rule
    ecommerce_super.Mapping.Compiler.compile_with ecommerce_super.Mapping.Compiler.uses_compose
    ecommerce_super.Mapping.Compiler.assembled validate_path validate_transformer_args
    ecommerce_super.Mapping.Paths.path_has_iteration
    ecommerce_super.Mapping.Executor.Rules.apply_rules
    ecommerce_super.Mapping.Executor.Rules.apply_rule
    ecommerce_super.Mapping.Executor.Rules.run_rows
    ecommerce_super.Mapping.Executor.Rules.condition_holds
    ecommerce_super.Payload.Path.Reading.get_path ecommerce_super.Mapping.Executor.set_output
    ecommerce_super.Mapping.Executor.rows_of apply_transformer
    ecommerce_super.Mapping.Executor.Checks.check_required
    ecommerce_super.Mapping.Executor.Checks.check_valid
    ecommerce_super.Mapping.Executor.Checks.check_preconditions
    ecommerce_super.Mapping.Executor.Checks.computed_referenced_in
    ecommerce_super.Mapping.Executor.Checks.resolve_computed
    ecommerce_super.Mapping.Executor.Run.run
sent_to_easyecom = refl

buyer_missing :
    map_record site (compile_ruleset no_json one_name documents) 6 "" push "Order" (dict no_entries)
    ≡ err (missing_required 1)
unfolding map_record executor compile_ruleset ecommerce_super.Mapping.Compiler.compile_stored
    ecommerce_super.Mapping.Compiler.compile_doc ecommerce_super.Mapping.Compiler.compile_computed
    ecommerce_super.Mapping.Compiler.compile_rules ecommerce_super.Mapping.Compiler.compile_rule
    ecommerce_super.Mapping.Compiler.compile_with ecommerce_super.Mapping.Compiler.uses_compose
    ecommerce_super.Mapping.Compiler.assembled validate_path validate_transformer_args
    ecommerce_super.Mapping.Paths.path_has_iteration
    ecommerce_super.Mapping.Executor.Rules.apply_rules
    ecommerce_super.Mapping.Executor.Rules.apply_rule
    ecommerce_super.Mapping.Executor.Rules.run_rows
    ecommerce_super.Mapping.Executor.Rules.condition_holds
    ecommerce_super.Payload.Path.Reading.get_path ecommerce_super.Mapping.Executor.set_output
    ecommerce_super.Mapping.Executor.rows_of apply_transformer
    ecommerce_super.Mapping.Executor.Checks.check_required
    ecommerce_super.Mapping.Executor.Checks.check_valid
    ecommerce_super.Mapping.Executor.Checks.check_preconditions
    ecommerce_super.Mapping.Executor.Checks.computed_referenced_in
    ecommerce_super.Mapping.Executor.Checks.resolve_computed
    ecommerce_super.Mapping.Executor.Run.run
buyer_missing = refl

map_record-Ends_example :
    map_record site
      (compile_ruleset no_json one_name documents)
      (suc max_composition_depth)
      ""
      push
      "Order"
      order
    ≢ err recursion
map_record-Ends_example =
    map_record-Ends site no_json one_name documents "" push "Order" order order_taken

abbrev no_child : String → Result Failure (Json → Result Failure Entries)
no_child n = err recursion

abbrev line_done : Applied
line_done = record {
  output = entry "sku" (text "A") no_entries;
  trace = Mark.applied 1 "item_code" "sku" (text "A") (text "A") ∷ [];
  errors = [];
}

line_ran : apply_all site no_child false line_compiled "" push (line "A") ≡ ok line_done
unfolding apply_all ecommerce_super.Mapping.Executor.Rules.apply_rules
    ecommerce_super.Mapping.Executor.Rules.apply_rule ecommerce_super.Payload.Path.Reading.get_path
    apply_transformer ecommerce_super.Mapping.Executor.set_output
    ecommerce_super.Mapping.Executor.Checks.check_required
    ecommerce_super.Mapping.Executor.Checks.check_valid
line_ran = refl

test_with_sample_lem_example :
    ((apply_all site no_child false line_compiled "" push (line "A") ≡ ok line_done) ↔ (
      (test_with_sample site no_child line_compiled "" push (line "A") ≡ ok line_done)
      × (line_done.errors ≡ [])))
    × (Unresolved site no_child line_compiled "" push (line "A")
        ⊎ NoRuleError (test_with_sample site no_child line_compiled "" push (line "A")))
test_with_sample_lem_example =
    test_with_sample_lem site no_child line_compiled "" push (line "A") line_done

path_taken : validate_path " items[0].address type " ≡ ok tt
unfolding validate_path
path_taken = refl

root_refused : validate_path "$.items" ≡ err bad_path
unfolding validate_path
root_refused = refl

get_path-validate_path_example :
    (values : List Json) × (get_path (λ v. "") order (strip " items[0].address type ")
      ≡ some values)
get_path-validate_path_example =
    get_path-validate_path (λ v. "") " items[0].address type " order path_taken

expression_taken : validate_expression one_name "source_doc" allowed_names_condition ≡ ok tt
unfolding validate_expression
expression_taken = refl

validate_expression-IsAllowed_test :
    (nodes : List Node) × (one_name (strip "source_doc") ≡ some nodes)
    × All (IsAllowed allowed_names_condition) nodes
validate_expression-IsAllowed_test =
    validate_expression-IsAllowed one_name "source_doc" allowed_names_condition expression_taken

abbrev lookup_args : Entries
lookup_args = entry "doctype" (text "Item") (entry "target_field" (text "ee_id") no_entries)

abbrev pushing : Context
pushing = record { direction = push; source = order; company = ""; computed_values = no_entries }

args_taken : validate_transformer_args one_name "lookup_id" lookup_args ≡ ok tt
unfolding validate_transformer_args
args_taken = refl

apply_transformer-validate_transformer_args_example :
    (apply_transformer site "lookup_id" (text "A") lookup_args pushing
      ≡ site.converted "lookup_id" (text "A") lookup_args)
    ⊎ IsClean (apply_transformer site "lookup_id" (text "A") lookup_args pushing)
apply_transformer-validate_transformer_args_example =
    apply_transformer-validate_transformer_args site one_name "lookup_id" (text "A") lookup_args
      pushing (λ e. let apart : false ≡ true = ap (λ s. str_eq s "") e in cc)
      (λ e. let apart : false ≡ true = ap (λ s. str_eq s "compose") e in cc) args_taken
