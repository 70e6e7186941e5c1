-- ===== src/Mapping/Executor.antt =====
-- ecommerce_super/easyecom/field_mapping/executor.py: a compiled ruleset on a document or a payload. Both are JSON
-- trees, and a write that fails half-way leaves no output.
pub mod Checks
pub mod Rules
pub mod Run
pub mod Endings
pub mod Depth
pub mod Nested
pub mod Collected
pub mod Tracing
use ecommerce_super.Base.{
  ℕ, suc, String, Bool, ◌||◌, Option, none, some, List, [], ◌∷◌, str_eq, if◌then◌else◌, append,
  decimal, starts_with, Result, ok, err, ◌>>=◌,
}
use ecommerce_super.Payload.{
  Json, null, flag, number, text, array, dict, Items, no_items, item, Entries, no_entries, entry,
  get,
}
use ecommerce_super.Payload.Path.{split_segments}
use ecommerce_super.Payload.Path.Reading.{get_path}
use ecommerce_super.Payload.Path.Writing.{set_path}
use ecommerce_super.Mapping.{
  Fault, compose_name, not_found, Rule, FieldMapping, CompiledRule, CompiledRuleset,
  CompiledComputed,
}
use ecommerce_super.Mapping.Transforms.{
  Trouble, refused, not_callable, missing_argument, other_exception, Direction, push, pull, Site,
  Context, truthy, is_missing, names_of, apply_transformer,
}
use Prim.Native.Char.{code}

-- What a run raises: the exceptions of the engine with the rule or the field, `out_of_scope` of `frappe.throw`,
-- RecursionError, and any other exception of Python.
pub data Failure : Type 0 where
  compile_failed : Fault → Failure
  rule_failed : ℕ → Failure
  computed_failed : String → Failure
  missing_required : ℕ → Failure
  not_valid : ℕ → Failure
  precondition_failed out_of_scope recursion crashed : Failure

-- An entry of the trace.
pub data Mark : Type 0 where
  skipped : ℕ → Mark
  applied : ℕ → (source_path target_path : String) → (value result : Json) → Mark

abbrev pub transform_for : CompiledRule → Direction → String
transform_for r push = r.transform_push
transform_for r pull = r.transform_pull

abbrev pub source_path : CompiledRule → Direction → String
source_path r push = r.erpnext_path
source_path r pull = r.easyecom_path

abbrev pub target_path : CompiledRule → Direction → String
target_path r push = r.easyecom_path
target_path r pull = r.erpnext_path

abbrev pub has_iteration : CompiledRule → Direction → Bool
has_iteration r push = r.push_has_iteration
has_iteration r pull = r.pull_has_iteration

-- `path.replace(sub, new, 1)`; the first text is what is left of `sub`'s length to drop.
abbrev pub drop_text : String → String → String
drop_text String.[] s = s
drop_text (String.◌∷◌ d sub) String.[] = String.[]
drop_text (String.◌∷◌ d sub) (String.◌∷◌ c s) = drop_text sub s

unfoldable pub replace_once : String → String → String → String
replace_once sub new String.[] = String.[]
replace_once sub new (String.◌∷◌ c s) =
    let later = String.◌∷◌ c (replace_once sub new s) in
    if starts_with sub (String.◌∷◌ c s) then append new (drop_text sub (String.◌∷◌ c s)) else later

unfoldable pub index_path : String → ℕ → String
unfolding replace_once decimal
index_path target i =
    let at = append "[" (append (decimal i) "]") in
    replace_once "[*]" at (replace_once "[]" at target)

abbrev pub from_list : List Json → Items
from_list [] = no_items
from_list (v ∷ vs) = item v (from_list vs)

abbrev pub written : Option Json → Result Failure Entries
written (some (dict es)) = ok es
written _ = err crashed

-- Writing an output value at a path.
unfoldable pub set_output : Entries → String → Json → Result Failure Entries
unfolding set_path
set_output output path value = written (set_path output path value)

unfoldable pub set_each : Entries → String → ℕ → List Json → Result Failure Entries
unfolding set_output index_path
set_each output target i [] = ok output
set_each output target i (v ∷ vs) =
    set_output output (index_path target i) v >>= (λ next. set_each next target (suc i) vs)

-- The last of some segments, and `_join_segments` of those before it.
abbrev pub joined : String → String → String
joined so_far segment =
    if starts_with "[" segment || str_eq so_far ""
    then append so_far segment
    else append so_far (append "." segment)

unfoldable pub last_and_parent : String → List String → Option (String × String)
last_and_parent parent [] = none
last_and_parent parent (s ∷ []) = some (s, parent)
last_and_parent parent (s ∷ t ∷ segments) = last_and_parent (joined parent s) (t ∷ segments)

-- `_set_iterated`
abbrev pub set_at_end :
    Entries → String → List Json → Option (String × String) → Result Failure Entries
set_at_end output target values none = set_each output target 0 values
set_at_end output target values (some (last, parent)) =
    if str_eq last "[]" || str_eq last "[*]"
    then if str_eq parent ""
      then ok (entry "__list__" (array (from_list values)) no_entries)
      else set_output output parent (array (from_list values))
    else set_each output target 0 values

abbrev pub set_split : Entries → String → List Json → Option (List String) → Result Failure Entries
set_split output target values none = err crashed
set_split output target values (some segments) =
    set_at_end output target values (last_and_parent "" segments)

unfoldable pub set_iterated : Entries → String → List Json → Result Failure Entries
unfolding set_each set_output last_and_parent split_segments
set_iterated output target values = set_split output target values (split_segments target)

-- `default_value not in (None, "")`
abbrev pub default_of : CompiledRule → Option Json
default_of r = if is_missing (r.default_value) then none else some (r.default_value)

-- The rows of a composition: `... or []`, and one value as a list.
unfoldable pub rows_of : Json → List Json
unfolding truthy
rows_of (array no_items) = []
rows_of (array (item x xs)) = x ∷ rows_of (array xs)
rows_of value = if truthy value then value ∷ [] else []

abbrev pub read_failed : Trouble → ℕ → Failure
read_failed refused idx = rule_failed idx
read_failed _ idx = crashed

-- `_run_transformer`: a FieldMappingRuleError gets its rule, anything else goes through.
abbrev pub in_rule : {A : Type 0} → ℕ → Result Trouble A → Result Failure A
in_rule idx (ok v) = ok v
in_rule idx (err trouble) = err (read_failed trouble idx)

-- `get_path` and `get_first`
abbrev pub values_at : Option (List Json) → Result Failure (List Json)
values_at none = err crashed
values_at (some values) = ok values

abbrev pub first_or : Json → List Json → Json
first_or default [] = default
first_or default (v ∷ vs) = v
