-- ===== src/Mapping.antt =====
-- ecommerce_super/easyecom/field_mapping: the documents that an integrator writes, what the compiler makes
-- of them, and what compiling and running raise. Fields that the engine only copies (entity type, output type,
-- version, notes) are left out, an empty column is the empty text, and a rule's number is its place.
pub mod Paths
pub mod Sandbox
pub mod Args
pub mod Transforms
pub mod Executor
pub mod Compiler
use ecommerce_super.Base.{ℕ, String, Bool, List}
use ecommerce_super.Payload.{Json, Entries}

-- `parse_error` of FieldMappingCompileError by its kind; `type_error` is a TypeError or an AttributeError of Python.
pub data Fault : Type 0 where
  depth_exceeded circular_composition not_found empty_name duplicate_name unknown_computed : Fault
  missing_ruleset bad_args unknown_transformer missing_args bad_arg empty_path bad_path : Fault
  empty_expression syntax_error import_statement dunder_attribute forbidden_name : Fault
  disallowed_name forbidden_call type_error : Fault

-- A row of the table of rules.
pub record Rule : Type 0 where
  pub idx : ℕ
  pub erpnext_path : String
  pub easyecom_path : String
  pub transform_push : String
  pub transform_pull : String
  pub transform_args : Json
  pub condition : String
  pub default_value : Json
  pub validate_against : String
  pub required : Bool

pub record ComputedField : Type 0 where
  pub field_name : String
  pub expression : String

pub record FieldMapping : Type 0 where
  pub name : String
  pub active : Bool
  pub missing_field_policy : String
  pub company_scope : List String
  pub preconditions : String
  pub computed_fields : List ComputedField
  pub rules : List Rule

-- The arguments are a dict by now, the paths and texts stripped.
pub record CompiledRule : Type 0 where
  pub idx : ℕ
  pub erpnext_path : String
  pub easyecom_path : String
  pub transform_push : String
  pub transform_pull : String
  pub transform_args : Entries
  pub condition : String
  pub default_value : Json
  pub validate_against : String
  pub required : Bool
  pub push_has_iteration : Bool
  pub pull_has_iteration : Bool

pub record CompiledComputed : Type 0 where
  pub field_name : String
  pub expression : String

pub record CompiledRuleset : Type 0 where
  pub mapping_name : String
  pub active : Bool
  pub missing_field_policy : String
  pub company_scope : List String
  pub preconditions : String
  pub rules : List CompiledRule
  pub computed_fields : List CompiledComputed
  pub composed_ruleset_names : List String

abbrev pub compose_name : String
compose_name = "compose"
