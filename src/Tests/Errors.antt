-- ===== src/Tests/Errors.antt =====
-- ecommerce_super/easyecom/exceptions.py: tests.
use ecommerce_super.Base.{◌≡◌, refl, ◌⊎◌}
use ecommerce_super.Errors.{
  retry_policy, transient, server_error, rate_limit_error, timeout_error,
  company_concurrency_exceeded, auth_error, api_error, is_instance,
}
use ecommerce_super.Errors.Policies.{error_code-injective, transient_iff}
use mathlib.Core.Logic.{◌↔◌}
use mathlib.Core.Bool.{true, false}

auth_is_api : is_instance auth_error api_error ≡ true
unfolding is_instance
auth_is_api = refl

api_is_not_auth : is_instance api_error auth_error ≡ false
unfolding is_instance
api_is_not_auth = refl

error_code-injective_test : server_error ≡ server_error
error_code-injective_test = error_code-injective server_error server_error refl

transient_iff_test : (retry_policy server_error ≡ transient) ↔ (
    (server_error ≡ rate_limit_error)
    ⊎ ((server_error ≡ timeout_error)
        ⊎ ((server_error ≡ server_error) ⊎ (server_error ≡ company_concurrency_exceeded))))
transient_iff_test = transient_iff server_error
