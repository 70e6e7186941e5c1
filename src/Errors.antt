-- ===== src/Errors.antt =====
-- ecommerce_super/easyecom/exceptions.py: the exception hierarchy. A class is a constructor of
-- `ErrorClass`; `base` is its parent class, and an attribute that a class does not declare is
-- looked up along `mro`, as Python does.
pub mod Policies
use ecommerce_super.Base.{
  ℤ, ℕ, zero, suc, String, Bool, true, false, Option, none, some, List, [], ◌∷◌, ◌||◌,
}

pub data ErrorClass : Type 0 where
  easyecom_error api_error auth_error rate_limit_error timeout_error : ErrorClass
  server_error validation_error duplicate_error field_mapping_error : ErrorClass
  field_mapping_compile_error field_mapping_rule_error : ErrorClass
  field_mapping_missing_required_error field_mapping_validation_error sync_error : ErrorClass
  sync_precondition_error sync_conflict_error sync_cancelled_error webhook_error : ErrorClass
  webhook_token_invalid_error webhook_ip_not_allowed_error webhook_too_old_error : ErrorClass
  webhook_duplicate_error replay_error replay_dry_run_required_error : ErrorClass
  replay_approval_required_error configuration_error credentials_missing_error : ErrorClass
  location_not_mapped_error multi_company_error company_access_denied_error : ErrorClass
  company_context_required_error company_concurrency_exceeded sla_breach_error : ErrorClass

pub data RetryPolicy : Type 0 where
  permanent transient : RetryPolicy

-- the parent class; `none` at the root, whose own parent is Python's `Exception`
unfoldable pub base : ErrorClass → Option ErrorClass
base easyecom_error = none
base api_error = some easyecom_error
base auth_error = some api_error
base rate_limit_error = some api_error
base timeout_error = some api_error
base server_error = some api_error
base validation_error = some api_error
base duplicate_error = some api_error
base field_mapping_error = some easyecom_error
base field_mapping_compile_error = some field_mapping_error
base field_mapping_rule_error = some field_mapping_error
base field_mapping_missing_required_error = some field_mapping_error
base field_mapping_validation_error = some field_mapping_error
base sync_error = some easyecom_error
base sync_precondition_error = some sync_error
base sync_conflict_error = some sync_error
base sync_cancelled_error = some sync_error
base webhook_error = some easyecom_error
base webhook_token_invalid_error = some webhook_error
base webhook_ip_not_allowed_error = some webhook_error
base webhook_too_old_error = some webhook_error
base webhook_duplicate_error = some webhook_error
base replay_error = some easyecom_error
base replay_dry_run_required_error = some replay_error
base replay_approval_required_error = some replay_error
base configuration_error = some easyecom_error
base credentials_missing_error = some configuration_error
base location_not_mapped_error = some configuration_error
base multi_company_error = some easyecom_error
base company_access_denied_error = some multi_company_error
base company_context_required_error = some multi_company_error
base company_concurrency_exceeded = some multi_company_error
base sla_breach_error = some easyecom_error

-- `error_code`, which every class declares itself
unfoldable pub error_code : ErrorClass → String
error_code easyecom_error = "ECS_ERROR"
error_code api_error = "ECS_API_ERROR"
error_code auth_error = "ECS_API_AUTH_ERROR"
error_code rate_limit_error = "ECS_API_RATE_LIMIT"
error_code timeout_error = "ECS_API_TIMEOUT"
error_code server_error = "ECS_API_SERVER_ERROR"
error_code validation_error = "ECS_API_VALIDATION_ERROR"
error_code duplicate_error = "ECS_API_DUPLICATE"
error_code field_mapping_error = "ECS_FM_ERROR"
error_code field_mapping_compile_error = "ECS_FM_COMPILE_ERROR"
error_code field_mapping_rule_error = "ECS_FM_RULE_ERROR"
error_code field_mapping_missing_required_error = "ECS_FM_MISSING_REQUIRED"
error_code field_mapping_validation_error = "ECS_FM_VALIDATION_ERROR"
error_code sync_error = "ECS_SYNC_ERROR"
error_code sync_precondition_error = "ECS_SYNC_PRECONDITION"
error_code sync_conflict_error = "ECS_SYNC_CONFLICT"
error_code sync_cancelled_error = "ECS_SYNC_CANCELLED"
error_code webhook_error = "ECS_WH_ERROR"
error_code webhook_token_invalid_error = "ECS_WH_TOKEN_INVALID"
error_code webhook_ip_not_allowed_error = "ECS_WH_IP_NOT_ALLOWED"
error_code webhook_too_old_error = "ECS_WH_TOO_OLD"
error_code webhook_duplicate_error = "ECS_WH_DUPLICATE"
error_code replay_error = "ECS_REPLAY_ERROR"
error_code replay_dry_run_required_error = "ECS_REPLAY_DRY_RUN_REQUIRED"
error_code replay_approval_required_error = "ECS_REPLAY_APPROVAL_REQUIRED"
error_code configuration_error = "ECS_CONFIG_ERROR"
error_code credentials_missing_error = "ECS_CONFIG_CREDS_MISSING"
error_code location_not_mapped_error = "ECS_CONFIG_LOCATION_NOT_MAPPED"
error_code multi_company_error = "ECS_MC_ERROR"
error_code company_access_denied_error = "ECS_MC_ACCESS_DENIED"
error_code company_context_required_error = "ECS_MC_CONTEXT_REQUIRED"
error_code company_concurrency_exceeded = "ECS_MC_CONCURRENCY_EXCEEDED"
error_code sla_breach_error = "ECS_SLA_BREACH"

-- `retry_policy` where a class declares it itself
unfoldable pub own_policy : ErrorClass → Option RetryPolicy
own_policy easyecom_error = some permanent
own_policy auth_error = some permanent
own_policy rate_limit_error = some transient
own_policy timeout_error = some transient
own_policy server_error = some transient
own_policy validation_error = some permanent
own_policy duplicate_error = some permanent
own_policy company_concurrency_exceeded = some transient
own_policy _ = none

-- a class and the classes above it; the fuel bounds the depth of the hierarchy
unfoldable pub mro : ℕ → ErrorClass → List ErrorClass
unfolding base
mro zero c = c ∷ []
mro (suc n) c = elim (base c) [ none ↦ c ∷ [] | some p ↦ c ∷ mro n p ]

-- no class stands more than three steps below another
abbrev pub depth : ℕ
depth = 3

first_policy : List ErrorClass → RetryPolicy
first_policy [] = permanent
first_policy (c ∷ cs) = elim (own_policy c) [ some p ↦ p | none ↦ first_policy cs ]

-- `e.retry_policy`
unfoldable pub retry_policy : ErrorClass → RetryPolicy
unfolding first_policy own_policy mro
retry_policy c = first_policy (mro depth c)

-- `isinstance`: the classes are told apart by their codes, which differ (`Errors.Policies`)
unfoldable pub same_class : ErrorClass → ErrorClass → Bool
same_class easyecom_error easyecom_error = true
same_class api_error api_error = true
same_class auth_error auth_error = true
same_class rate_limit_error rate_limit_error = true
same_class timeout_error timeout_error = true
same_class server_error server_error = true
same_class validation_error validation_error = true
same_class duplicate_error duplicate_error = true
same_class field_mapping_error field_mapping_error = true
same_class field_mapping_compile_error field_mapping_compile_error = true
same_class field_mapping_rule_error field_mapping_rule_error = true
same_class field_mapping_missing_required_error field_mapping_missing_required_error = true
same_class field_mapping_validation_error field_mapping_validation_error = true
same_class sync_error sync_error = true
same_class sync_precondition_error sync_precondition_error = true
same_class sync_conflict_error sync_conflict_error = true
same_class sync_cancelled_error sync_cancelled_error = true
same_class webhook_error webhook_error = true
same_class webhook_token_invalid_error webhook_token_invalid_error = true
same_class webhook_ip_not_allowed_error webhook_ip_not_allowed_error = true
same_class webhook_too_old_error webhook_too_old_error = true
same_class webhook_duplicate_error webhook_duplicate_error = true
same_class replay_error replay_error = true
same_class replay_dry_run_required_error replay_dry_run_required_error = true
same_class replay_approval_required_error replay_approval_required_error = true
same_class configuration_error configuration_error = true
same_class credentials_missing_error credentials_missing_error = true
same_class location_not_mapped_error location_not_mapped_error = true
same_class multi_company_error multi_company_error = true
same_class company_access_denied_error company_access_denied_error = true
same_class company_context_required_error company_context_required_error = true
same_class company_concurrency_exceeded company_concurrency_exceeded = true
same_class sla_breach_error sla_breach_error = true
same_class _ _ = false

unfoldable pub any_same : ErrorClass → List ErrorClass → Bool
unfolding same_class
any_same c [] = false
any_same c (d ∷ ds) = same_class d c || any_same c ds

-- `isinstance(e, c)` for an exception whose class is `d`
unfoldable pub is_instance : ErrorClass → ErrorClass → Bool
unfolding any_same mro
is_instance d c = any_same c (mro depth d)

-- An exception of the integration, with the attributes that its handlers read: the class, the text
-- and, for a rate limit, the seconds to wait.
pub record EasyError : Type 0 where
  pub cls : ErrorClass
  pub message : String
  pub retry_after : Option ℤ
