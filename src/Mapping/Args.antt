-- ===== src/Mapping/Args.antt =====
-- ecommerce_super/easyecom/field_mapping/transformers.py: the registry of transformers, and what each wants of
-- its arguments when a mapping is compiled.
pub mod Clean
pub mod Accepted
use ecommerce_super.Base.{
  suc, String, true, Option, none, some, List, [], ◌∷◌, map, str_eq, if◌then◌else◌, has, pos,
  negsuc, strip, Result, ok, err, ◌>>=◌,
}
use ecommerce_super.Payload.{
  Json, flag, number, text, array, dict, Items, no_items, item, Entries, entry, get,
}
use ecommerce_super.Mapping.{
  Fault, unknown_transformer, missing_args, bad_arg, type_error, empty_expression, compose_name,
}
use ecommerce_super.Mapping.Sandbox.{
  Node, validate_expression, allowed_names_condition, allowed_names_custom_python,
}

abbrev pub transformers : List String
transformers =
    "identity" ∷ "bool_to_yn" ∷ "yn_to_bool" ∷ "noop" ∷ "str_lower" ∷ "str_upper" ∷ "str_strip"
    ∷ "date_format" ∷ "datetime_to_iso" ∷ "iso_to_datetime" ∷ "int_to_str" ∷ "str_to_int"
    ∷ "float_to_str" ∷ "float_to_int" ∷ "str_to_float" ∷ "currency_to_paise" ∷ "paise_to_currency"
    ∷ "lookup_id" ∷ "reverse_lookup_id" ∷ "lookup_field" ∷ "enum_map" ∷ "conditional_constant"
    ∷ "computed" ∷ "custom_python" ∷ "compose" ∷ []

abbrev pub present : Option Json → Result Fault Unit → Result Fault Unit
present none rest = err missing_args
present (some v) rest = rest

-- `_require_keys`; without keys there are no arguments at all.
unfoldable pub require_keys : List String → Entries → Result Fault Unit
unfolding get
require_keys [] args = ok tt
require_keys (k ∷ keys) args = present (get k args) (require_keys keys args)

-- A non-empty string.
abbrev pub check_format : Option Json → Result Fault Unit
check_format (some (text s)) = if str_eq (strip s) "" then err bad_arg else ok tt
check_format _ = err bad_arg

abbrev pub check_map : Option Json → Result Fault Unit
check_map (some (dict m)) = ok tt
check_map _ = err bad_arg

abbrev pub require_both : Option Json → Option Json → Result Fault Unit → Result Fault Unit
require_both (some w) (some t) checked = checked
require_both w t checked = err bad_arg

module _ (nodes_of : String → Option (List Node)) where
  -- `validate_expression` of an argument: what is not a text is refused, or fails on `strip`.
  abbrev pub check_expression : List String → Option Json → Result Fault Unit
  check_expression allowed (some (text s)) = validate_expression nodes_of s allowed
  check_expression allowed (some (number (pos (suc n)))) = err type_error
  check_expression allowed (some (number (negsuc n))) = err type_error
  check_expression allowed (some (flag true)) = err type_error
  check_expression allowed (some (array (item x xs))) = err type_error
  check_expression allowed (some (dict (entry k v es))) = err type_error
  check_expression allowed _ = err empty_expression

  -- An item of `conditions`.
  abbrev pub check_condition : Json → Result Fault Unit
  check_condition (dict c) =
      require_both (get "when" c) (get "then" c)
        (check_expression allowed_names_condition (get "when" c))
  check_condition _ = err bad_arg

  unfoldable pub check_condition_items : Items → Result Fault Unit
  unfolding get
  check_condition_items no_items = ok tt
  check_condition_items (item c cs) = check_condition c >>= λ _. check_condition_items cs

  abbrev pub check_conditions : Option Json → Result Fault Unit
  check_conditions (some (array (item c cs))) = check_condition_items (item c cs)
  check_conditions _ = err bad_arg

  -- The validators that the registry pairs with the names.
  unfoldable pub check_args : String → Entries → Result Fault Unit
  unfolding require_keys get check_condition_items
  check_args n args =
      if str_eq n "date_format"
      then require_keys ("from" ∷ "to" ∷ []) args
        >>= (λ _. check_format (get "from" args))
        >>= (λ _. check_format (get "to" args))
      else if str_eq n "lookup_id"
      then require_keys ("doctype" ∷ "target_field" ∷ []) args
      else if str_eq n "reverse_lookup_id"
      then require_keys ("doctype" ∷ "source_field" ∷ []) args
      else if str_eq n "lookup_field"
      then require_keys ("doctype" ∷ "filter_field" ∷ "target_field" ∷ []) args
      else if str_eq n "enum_map"
      then require_keys ("map" ∷ []) args >>= (λ _. check_map (get "map" args))
      else if str_eq n "conditional_constant"
      then require_keys ("conditions" ∷ []) args >>= (λ _. check_conditions (get "conditions" args))
      else if str_eq n "computed"
      then require_keys ("name" ∷ []) args
      else if str_eq n "custom_python"
      then require_keys ("expression" ∷ []) args
        >>= (λ _. check_expression allowed_names_custom_python (get "expression" args))
      else ok tt

  unfoldable pub validate_transformer_args : String → Entries → Result Fault Unit
  unfolding check_args require_keys
  validate_transformer_args n args =
      if str_eq n ""
      then ok tt
      else if str_eq n compose_name
      then require_keys ("ruleset" ∷ []) args
      else if has n transformers
      then check_args n args
      else err unknown_transformer
