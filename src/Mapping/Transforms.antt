-- ===== src/Mapping/Transforms.antt =====
-- ecommerce_super/easyecom/field_mapping/transformers.py: the transformers on JSON values. Those of dates,
-- numbers and letter case, the database and Frappe's `safe_eval` are what a site provides.
use ecommerce_super.Base.{
  ℕ, zero, ◌-◌, String, Bool, true, false, ◌&&◌, ◌||◌, not, Option, none, some, List, [], ◌∷◌, leb,
  ◌==◌, str_eq, if◌then◌else◌, has, pos, codes, strip, Result, ok, err, ◌>>=◌,
}
use ecommerce_super.Payload.{
  Json, null, flag, number, text, array, dict, Items, no_items, item, Entries, no_entries, entry,
  get,
}
use ecommerce_super.Mapping.{compose_name}
use ecommerce_super.Mapping.Args.{transformers}

-- What a transformer raises: FieldMappingRuleError, FieldMappingCompileError of `get_transformer`, KeyError of an
-- argument that is not there, whatever an expression raised (KeyError as well), or another exception.
pub data Trouble : Type 0 where
  refused not_callable missing_argument expression_raised other_exception : Trouble

pub data Direction : Type 0 where
  push pull : Direction

-- What the engine calls outside the repository, and the transformers that stand on Python's number, date and case
-- tables; `none` of `safe_eval` is an exception, of a lookup no row.
pub record Site : Type 0 where
  pub safe_eval : (expression : String) (helpers : Bool) (names : Entries) → Option Json
  pub by_name : (doctype name field : Json) → Option Json
  pub by_field : (doctype field value wanted : Json) → Option Json
  pub exists : (doctype : String) (name : Json) → Bool
  pub converted : (transformer : String) (value : Json) (args : Entries) → Result Trouble Json
  pub str_of : Json → String

-- `TransformContext`; the document or the payload is the source, by the direction.
pub record Context : Type 0 where
  pub direction : Direction
  pub source : Json
  pub company : String
  pub computed_values : Entries

-- `bool(value)`
unfoldable pub truthy : Json → Bool
truthy null = false
truthy (flag b) = b
truthy (number (pos zero)) = false
truthy (number n) = true
truthy (text s) = not (str_eq s "")
truthy (array no_items) = false
truthy (array xs) = true
truthy (dict no_entries) = false
truthy (dict es) = true

-- `value is None or value == ""`
unfoldable pub is_missing : Json → Bool
is_missing null = true
is_missing (text s) = str_eq s ""
is_missing _ = false

abbrev pub upper_code : ℕ → ℕ
upper_code c = if leb 97 c && leb c 122 then c - 32 else c

unfoldable pub same_folded : List ℕ → List ℕ → Bool
same_folded [] [] = true
same_folded (c ∷ cs) (d ∷ ds) = upper_code c == d && same_folded cs ds
same_folded _ _ = false

-- `s.strip().upper() in (...)`
unfoldable pub folded_in : String → List String → Bool
unfolding strip same_folded
folded_in s [] = false
folded_in s (w ∷ words) = same_folded (codes (strip s)) (codes w) || folded_in s words

abbrev pub bool_to_yn : Json → Json
bool_to_yn value = if truthy value then text "Y" else text "N"

unfoldable pub yn_to_bool : Json → Result Trouble Json
unfolding folded_in truthy
yn_to_bool null = ok null
yn_to_bool (text s) =
    if str_eq s ""
    then ok null
    else if folded_in s ("Y" ∷ "YES" ∷ "TRUE" ∷ "1" ∷ [])
    then ok (flag true)
    else if folded_in s ("N" ∷ "NO" ∷ "FALSE" ∷ "0" ∷ [])
    then ok (flag false)
    else err refused
yn_to_bool (flag b) = ok (flag b)
yn_to_bool (number n) = ok (flag (truthy (number n)))
yn_to_bool _ = err refused

-- `args[k]`
abbrev pub required_arg : Option Json → Result Trouble Json
required_arg none = err missing_argument
required_arg (some v) = ok v

abbrev pub found_or_refused : Option Json → Result Trouble Json
found_or_refused none = err refused
found_or_refused (some v) = ok v

-- `row is None or row.get(target_field) in (None, "")`
abbrev pub filled_or_refused : Option Json → Result Trouble Json
filled_or_refused none = err refused
filled_or_refused (some v) = if is_missing v then err refused else ok v

-- `args["default"]`, or the refusal.
abbrev pub default_or_refused : Entries → Result Trouble Json
default_or_refused args = found_or_refused (get "default" args)

abbrev pub mapped_or_default : Option Json → Entries → Result Trouble Json
mapped_or_default none args = default_or_refused args
mapped_or_default (some v) args = ok v

-- `key in mapping`, of a dict whose keys are texts.
unfoldable pub mapped : Entries → Json → Entries → Result Trouble Json
unfolding get
mapped m (text k) args = mapped_or_default (get k m) args
mapped m (array xs) args = err other_exception
mapped m (dict es) args = err other_exception
mapped m _ args = default_or_refused args

abbrev pub map_dict : Json → Json → Entries → Result Trouble Json
map_dict (dict m) value args = mapped m value args
map_dict _ value args = err other_exception

unfoldable pub enum_map : Json → Entries → Result Trouble Json
unfolding mapped get
enum_map value args = required_arg (get "map" args) >>= (λ m. map_dict m value args)

abbrev pub names_of : Context → Entries
names_of ctx = elim (ctx.direction) [
  | push ↦ entry "source_doc" (ctx.source) (entry "source_payload" null no_entries)
  | pull ↦ entry "source_doc" null (entry "source_payload" (ctx.source) no_entries)
]

module _ (site : Site) where
  abbrev pub value_or_raised : Option Json → Result Trouble Json
  value_or_raised none = err expression_raised
  value_or_raised (some v) = ok v

  -- `evaluate_expression`
  abbrev pub evaluated : Bool → Entries → Json → Result Trouble Json
  evaluated helpers names (text e) = value_or_raised (site.safe_eval (strip e) helpers names)
  evaluated helpers names _ = err other_exception

  abbrev pub when_true : Json → Option Json → Result Trouble Json → Result Trouble Json
  when_true v then_value rest = if truthy v then required_arg then_value else rest

  unfoldable pub first_condition : Items → Entries → Context → Result Trouble Json
  unfolding get truthy strip
  first_condition no_items args ctx = default_or_refused args
  first_condition (item (dict c) cs) args ctx =
      let rest = first_condition cs args ctx in
      required_arg (get "when" c)
      >>= (λ e. evaluated false (names_of ctx) e)
      >>= (λ v. when_true v (get "then" c) rest)
  first_condition (item _ cs) args ctx = err other_exception

  abbrev pub over_conditions : Json → Entries → Context → Result Trouble Json
  over_conditions (array cs) args ctx = first_condition cs args ctx
  over_conditions _ args ctx = err other_exception

  unfoldable pub conditional_constant : Entries → Context → Result Trouble Json
  unfolding first_condition get
  conditional_constant args ctx =
      required_arg (get "conditions" args) >>= (λ cs. over_conditions cs args ctx)

  abbrev pub computed_value : Json → Context → Result Trouble Json
  computed_value (text n) ctx = found_or_refused (get n (ctx.computed_values))
  computed_value (array xs) ctx = err other_exception
  computed_value (dict es) ctx = err other_exception
  computed_value _ ctx = err refused

  unfoldable pub computed : Entries → Context → Result Trouble Json
  unfolding get
  computed args ctx = required_arg (get "name" args) >>= (λ n. computed_value n ctx)

  unfoldable pub custom_python : Json → Entries → Context → Result Trouble Json
  unfolding get strip
  custom_python value args ctx =
      required_arg (get "expression" args)
      >>= (λ e. evaluated true (entry "value" value (names_of ctx)) e)

  unfoldable pub lookup_id : Json → Entries → Result Trouble Json
  unfolding get is_missing
  lookup_id value args =
      if is_missing value
      then ok null
      else required_arg (get "doctype" args) >>= (λ doctype.
        required_arg (get "target_field" args)
        >>= (λ field. found_or_refused (site.by_name doctype value field)))

  unfoldable pub reverse_lookup_id : Json → Entries → Result Trouble Json
  unfolding get is_missing
  reverse_lookup_id value args =
      if is_missing value
      then ok null
      else required_arg (get "doctype" args) >>= (λ doctype.
        required_arg (get "source_field" args)
        >>= (λ field. found_or_refused (site.by_field doctype field value (text "name"))))

  unfoldable pub lookup_field : Json → Entries → Result Trouble Json
  unfolding get is_missing
  lookup_field value args =
      if is_missing value
      then ok null
      else required_arg (get "doctype" args) >>= (λ doctype.
        required_arg (get "filter_field" args) >>= (λ field.
          required_arg (get "target_field" args)
          >>= (λ wanted. filled_or_refused (site.by_field doctype field value wanted))))

  abbrev pub str_strip : Json → Json
  str_strip null = null
  str_strip value = text (strip (site.str_of value))

  -- `apply_transformer`: the function that the registry pairs with a name.
  unfoldable pub apply_transformer : String → Json → Entries → Context → Result Trouble Json
  unfolding yn_to_bool enum_map conditional_constant computed custom_python lookup_id
      reverse_lookup_id lookup_field truthy strip
  apply_transformer n value args ctx =
      if not (has n transformers) || str_eq n compose_name
      then err not_callable
      else if str_eq n "identity"
      then ok value
      else if str_eq n "noop"
      then ok null
      else if str_eq n "bool_to_yn"
      then ok (bool_to_yn value)
      else if str_eq n "yn_to_bool"
      then yn_to_bool value
      else if str_eq n "str_strip"
      then ok (str_strip value)
      else if str_eq n "lookup_id"
      then lookup_id value args
      else if str_eq n "reverse_lookup_id"
      then reverse_lookup_id value args
      else if str_eq n "lookup_field"
      then lookup_field value args
      else if str_eq n "enum_map"
      then enum_map value args
      else if str_eq n "conditional_constant"
      then conditional_constant args ctx
      else if str_eq n "computed"
      then computed args ctx
      else if str_eq n "custom_python"
      then custom_python value args ctx
      else site.converted n value args
