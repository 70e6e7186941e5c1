-- ===== src/Mapping/Sandbox/Allowed.antt =====
-- ecommerce_super/easyecom/field_mapping/sandbox.py: the expressions that the check takes.
use ecommerce_super.Base.{
  String, ◌≡◌, refl, true, false, Option, none, some, List, [], ◌∷◌, str_eq, All, has, strip, ok,
  first_returned, passed_guard, passed_check, guard_false,
}
use ecommerce_super.Mapping.{
  empty_expression, dunder_attribute, forbidden_name, disallowed_name, forbidden_call,
}
use ecommerce_super.Mapping.Sandbox.{
  Node, import_node, attribute, name, call, other_node, forbidden_names, dynamic_calls, is_dunder,
  check_node, check_nodes, check_parsed, validate_expression,
}

-- A node that may run: no import, no dunder attribute, no name that is forbidden or not allowed, no
-- call of dynamic code.
abbrev pub IsAllowed : List String → Node → Type 0
IsAllowed allowed import_node = false ≡ true
IsAllowed allowed (attribute attr) = is_dunder attr ≡ false
IsAllowed allowed (name id true) = (has id forbidden_names ≡ false) × (has id allowed ≡ true)
IsAllowed allowed (name id false) = Unit
IsAllowed allowed (call (some f)) = has f dynamic_calls ≡ false
IsAllowed allowed (call none) = Unit
IsAllowed allowed other_node = Unit

check_node-IsAllowed :
    (allowed : List String) (n : Node) → check_node allowed n ≡ ok tt → IsAllowed allowed n
unfolding check_node
check_node-IsAllowed allowed import_node passed = cc
check_node-IsAllowed allowed (attribute attr) passed =
    guard_false (is_dunder attr) dunder_attribute (ok tt) passed
check_node-IsAllowed allowed (name id true) passed =
    let first = passed_guard (has id forbidden_names) forbidden_name passed in
    (
      guard_false (has id forbidden_names) forbidden_name _ passed,
      (passed_check (has id allowed) disallowed_name first).0,
    )
check_node-IsAllowed allowed (name id false) passed = tt
check_node-IsAllowed allowed (call (some f)) passed =
    guard_false (has f dynamic_calls) forbidden_call (ok tt) passed
check_node-IsAllowed allowed (call none) passed = tt
check_node-IsAllowed allowed other_node passed = tt

check_nodes-IsAllowed :
    (allowed : List String) (nodes : List Node)
    → check_nodes allowed nodes ≡ ok tt
    → All (IsAllowed allowed) nodes
unfolding check_nodes
check_nodes-IsAllowed allowed [] passed = tt
check_nodes-IsAllowed allowed (n ∷ nodes) passed =
    let (_, this, rest) =
      first_returned (check_node allowed n) (λ _. check_nodes allowed nodes) passed in
    (check_node-IsAllowed allowed n this, check_nodes-IsAllowed allowed nodes rest)

module _ (nodes_of : String → Option (List Node)) where
  parsed-IsAllowed :
      (allowed : List String) (o : Option (List Node))
      → check_parsed nodes_of allowed o ≡ ok tt
      → (nodes : List Node) × (o ≡ some nodes) × All (IsAllowed allowed) nodes
  parsed-IsAllowed allowed none passed = cc
  parsed-IsAllowed allowed (some nodes) passed =
      (nodes, refl, check_nodes-IsAllowed allowed nodes passed)

  -- An expression that the sandbox takes parses, and each of its nodes may run: no import, no dunder
  -- attribute, no name read that is forbidden or outside the allowed ones, no call of dynamic code.
  pub validate_expression-IsAllowed :
      (expression : String) (allowed : List String)
      → validate_expression nodes_of expression allowed ≡ ok tt
      → (nodes : List Node) × (nodes_of (strip expression) ≡ some nodes)
        × All (IsAllowed allowed) nodes
  unfolding validate_expression
  validate_expression-IsAllowed expression allowed passed =
      parsed-IsAllowed allowed (nodes_of (strip expression))
        (passed_guard (str_eq (strip expression) "") empty_expression passed)
