-- ===== src/Errors/Policies.antt =====
-- ecommerce_super/easyecom/exceptions.py: what the codes and the policies of the hierarchy are.
use ecommerce_super.Base.{
  String, ◌≡◌, refl, ◌⊎◌, ◌↔◌, true, false, Option, none, some, List, [], ◌∷◌, arith, str_eq,
}
use ecommerce_super.Errors.{
  ErrorClass, transient, error_code, retry_policy, is_instance, easyecom_error, api_error,
  auth_error, rate_limit_error, timeout_error, server_error, validation_error, duplicate_error,
  field_mapping_error, field_mapping_compile_error, field_mapping_rule_error,
  field_mapping_missing_required_error, field_mapping_validation_error, sync_error,
  sync_precondition_error, sync_conflict_error, sync_cancelled_error, webhook_error,
  webhook_token_invalid_error, webhook_ip_not_allowed_error, webhook_too_old_error,
  webhook_duplicate_error, replay_error, replay_dry_run_required_error,
  replay_approval_required_error, configuration_error, credentials_missing_error,
  location_not_mapped_error, multi_company_error, company_access_denied_error,
  company_context_required_error, company_concurrency_exceeded, sla_breach_error,
}

abbrev all_classes : List ErrorClass
all_classes =
    easyecom_error ∷ api_error ∷ auth_error ∷ rate_limit_error ∷ timeout_error ∷ server_error
    ∷ validation_error ∷ duplicate_error ∷ field_mapping_error ∷ field_mapping_compile_error
    ∷ field_mapping_rule_error ∷ field_mapping_missing_required_error
    ∷ field_mapping_validation_error ∷ sync_error ∷ sync_precondition_error ∷ sync_conflict_error
    ∷ sync_cancelled_error ∷ webhook_error ∷ webhook_token_invalid_error
    ∷ webhook_ip_not_allowed_error ∷ webhook_too_old_error ∷ webhook_duplicate_error ∷ replay_error
    ∷ replay_dry_run_required_error ∷ replay_approval_required_error ∷ configuration_error
    ∷ credentials_missing_error ∷ location_not_mapped_error ∷ multi_company_error
    ∷ company_access_denied_error ∷ company_context_required_error ∷ company_concurrency_exceeded
    ∷ sla_breach_error ∷ []

find_code : String → List ErrorClass → Option ErrorClass
find_code s [] = none
find_code s (c ∷ cs) = elim (str_eq (error_code c) s) [ true ↦ some c | false ↦ find_code s cs ]

-- The class that a stored code names.
pub of_code : String → Option ErrorClass
unfolding find_code
of_code s = find_code s all_classes

of_code-error_code : (c : ErrorClass) → of_code (error_code c) ≡ some c
unfolding of_code error_code
of_code-error_code easyecom_error = refl
of_code-error_code _ = refl

-- Two classes with the same `error_code` are the same class.
pub error_code-injective : (c d : ErrorClass) → error_code c ≡ error_code d → c ≡ d
error_code-injective c d h = cc (of_code-error_code c, of_code-error_code d)

-- A class has the transient policy exactly when it is one of the four that declare it.
pub transient_iff :
    (c : ErrorClass)
    → (retry_policy c ≡ transient) ↔ (
        (c ≡ rate_limit_error)
        ⊎ ((c ≡ timeout_error) ⊎ ((c ≡ server_error) ⊎ (c ≡ company_concurrency_exceeded))))
unfolding retry_policy
transient_iff easyecom_error = ground arith
transient_iff _ = ground arith

-- Every class is caught by a handler of the root class.
pub is_instance-root : (c : ErrorClass) → is_instance c easyecom_error ≡ true
unfolding is_instance
is_instance-root easyecom_error = refl
is_instance-root _ = refl
