-- ===== src/Mapping/Sandbox.antt =====
-- ecommerce_super/easyecom/field_mapping/sandbox.py: the walk over the nodes of an expression. Python's `ast`
-- is a parameter: the nodes of a text in the order of `ast.walk`, none for a syntax error.
pub mod Allowed
use ecommerce_super.Base.{
  onto_reversed, String, Bool, true, false, ◌&&◌, Option, none, some, List, [], ◌∷◌, str_eq,
  if◌then◌else◌, has, strip, starts_with, Result, ok, err, ◌>>=◌,
}
use ecommerce_super.Mapping.{
  Fault, empty_expression, syntax_error, import_statement, dunder_attribute, forbidden_name,
  disallowed_name, forbidden_call,
}

-- A call has the name of its function, where that is a name; a name is read or not.
pub data Node : Type 0 where
  import_node : Node
  attribute : String → Node
  name : String → Bool → Node
  call : Option String → Node
  other_node : Node

abbrev pub safe_builtins : List String
safe_builtins = "int" ∷ "float" ∷ "round" ∷ []

abbrev pub allowed_names_condition : List String
allowed_names_condition = "source_doc" ∷ "source_payload" ∷ safe_builtins

abbrev pub allowed_names_computed : List String
allowed_names_computed =
    "source_doc" ∷ "source_payload" ∷ "get_path" ∷ "sum_path" ∷ "filter_path" ∷ safe_builtins

abbrev pub allowed_names_custom_python : List String
allowed_names_custom_python =
    "source_doc" ∷ "source_payload" ∷ "get_path" ∷ "sum_path" ∷ "filter_path" ∷ "value"
    ∷ safe_builtins

abbrev pub forbidden_names : List String
forbidden_names =
    "__import__" ∷ "__builtins__" ∷ "__loader__" ∷ "__spec__" ∷ "open" ∷ "exec" ∷ "eval" ∷ "compile"
    ∷ "globals" ∷ "locals" ∷ "vars" ∷ "dir" ∷ "input" ∷ "breakpoint" ∷ "exit" ∷ "quit" ∷ "help"
    ∷ "os" ∷ "sys" ∷ "subprocess" ∷ "socket" ∷ "shutil" ∷ "importlib" ∷ "pickle" ∷ "marshal"
    ∷ "ctypes" ∷ "frappe" ∷ "requests" ∷ "urllib" ∷ "http" ∷ "__class__" ∷ "__bases__"
    ∷ "__subclasses__" ∷ "__mro__" ∷ "__dict__" ∷ "__globals__" ∷ "__getattribute__" ∷ []

abbrev pub dynamic_calls : List String
dynamic_calls = "eval" ∷ "exec" ∷ "compile" ∷ "__import__" ∷ []

-- `attr.startswith("__") and attr.endswith("__")`
unfoldable pub is_dunder : String → Bool
unfolding onto_reversed
is_dunder attr = starts_with "__" attr && starts_with "__" (onto_reversed attr "")

-- The checks of one node.
unfoldable pub check_node : List String → Node → Result Fault Unit
unfolding is_dunder
check_node allowed import_node = err import_statement
check_node allowed (attribute attr) = if is_dunder attr then err dunder_attribute else ok tt
check_node allowed (name id true) =
    if has id forbidden_names
    then err forbidden_name
    else if has id allowed
    then ok tt
    else err disallowed_name
check_node allowed (name id false) = ok tt
check_node allowed (call (some f)) = if has f dynamic_calls then err forbidden_call else ok tt
check_node allowed (call none) = ok tt
check_node allowed other_node = ok tt

unfoldable pub check_nodes : List String → List Node → Result Fault Unit
unfolding check_node
check_nodes allowed [] = ok tt
check_nodes allowed (n ∷ nodes) = check_node allowed n >>= λ _. check_nodes allowed nodes

module _ (nodes_of : String → Option (List Node)) where
  abbrev pub check_parsed : List String → Option (List Node) → Result Fault Unit
  check_parsed allowed none = err syntax_error
  check_parsed allowed (some nodes) = check_nodes allowed nodes

  unfoldable pub validate_expression : String → List String → Result Fault Unit
  unfolding strip check_nodes
  validate_expression expression allowed =
      if str_eq (strip expression) ""
      then err empty_expression
      else check_parsed allowed (nodes_of (strip expression))
