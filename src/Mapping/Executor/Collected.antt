-- ===== src/Mapping/Executor/Collected.antt =====
-- ecommerce_super/easyecom/field_mapping/executor.py: the failed rules that a test run collects instead of raising.
use ecommerce_super.Base.{
  ℕ, String, ◌≡◌, refl, ap, ◌≢◌, Bool, true, false, Option, none, some, List, [], ◌∷◌, str_eq,
  if◌then◌else◌, Result, ok, err, ◌>>=◌, err_injective,
}
use ecommerce_super.Payload.{Json, dict, Entries}
use ecommerce_super.Payload.Path.Reading.{get_path}
use ecommerce_super.Mapping.{CompiledRule, CompiledRuleset}
use ecommerce_super.Mapping.Transforms.{Direction, Site, Context}
use ecommerce_super.Mapping.Executor.{
  Failure, rule_failed, computed_failed, Mark, target_path, values_at,
}
use ecommerce_super.Mapping.Executor.Checks.{
  check_required, check_valid, is_produced, all_exist, to_validate, values_of, first_value,
}
use ecommerce_super.Mapping.Executor.Rules.{
  Applied, with_applied, marked, noted, is_rule_error, after_rule, apply_rule, apply_rules,
}
use ecommerce_super.Mapping.Executor.Run.{checked}

-- A call that raises no FieldMappingRuleError: neither that of a rule nor that of a computed field.
abbrev pub NoRuleError : {A : Type 0} → Result Failure A → Type 0
NoRuleError r = ((i : ℕ) → r ≢ err (rule_failed i)) × ((f : String) → r ≢ err (computed_failed f))

ok-NoRuleError : {A : Type 0} (a : A) → NoRuleError (ok a)
ok-NoRuleError a = (λ i same. cc, λ f same. cc)

pub chain-NoRuleError :
    {A B : Type 0} (call : Result Failure A) (then_do : A → Result Failure B)
    → NoRuleError call
    → ((a : A) → NoRuleError (then_do a))
    → NoRuleError (call >>= then_do)
chain-NoRuleError (err raised) then_do (rule, field) next = (
  λ i same. rule i (ap err (err_injective same)),
  λ f same. field f (ap err (err_injective same)),
)
chain-NoRuleError (ok a) then_do quiet next = next a

with_applied-NoRuleError :
    (f : Applied → Applied) (rest : Result Failure Applied)
    → NoRuleError rest
    → NoRuleError (with_applied f rest)
with_applied-NoRuleError f (err raised) quiet = quiet
with_applied-NoRuleError f (ok done) quiet = ok-NoRuleError (f done)

-- What is no rule error is raised.
not_collected :
    (raised : Failure) → is_rule_error raised ≡ false → NoRuleError {A = Applied} (err raised)
not_collected raised other =
    (λ i same. cc (other, ap is_rule_error (err_injective same)), λ f same. cc)

collecting :
    (raised : Failure) (rest : Result Failure Applied) (t : Bool)
    → is_rule_error raised ≡ t
    → NoRuleError rest
    → NoRuleError (if t then with_applied (noted raised) rest else err raised)
collecting raised rest true same quiet = with_applied-NoRuleError (noted raised) rest quiet
collecting raised rest false same quiet = not_collected raised same

after_rule-NoRuleError :
    (result : Result Failure (Entries × Mark)) (output : Entries)
    (go_on : Entries → Result Failure Applied)
    → ((next : Entries) → NoRuleError (go_on next))
    → NoRuleError (after_rule true result output go_on)
after_rule-NoRuleError (ok (next, mark)) output go_on quiet =
    with_applied-NoRuleError (marked mark) (go_on next) (quiet next)
after_rule-NoRuleError (err raised) output go_on quiet =
    collecting raised (go_on output) (is_rule_error raised) refl (quiet output)

module _ (site : Site) where
  values_at-NoRuleError : (o : Option (List Json)) → NoRuleError (values_at o)
  values_at-NoRuleError none = (λ i same. cc, λ f same. cc)
  values_at-NoRuleError (some values) = ok-NoRuleError values

  first_value-NoRuleError :
      (source : Json) (path : String) (default : Json)
      → NoRuleError (first_value site source path default)
  first_value-NoRuleError source path default =
      chain-NoRuleError (values_of site source path) _
        (values_at-NoRuleError (get_path (site.str_of) source path)) (λ values. ok-NoRuleError _)

  if-NoRuleError :
      (t : Bool) (call other : Result Failure Unit)
      → NoRuleError call
      → NoRuleError other
      → NoRuleError (if t then call else other)
  if-NoRuleError true call other quiet quiet_too = quiet
  if-NoRuleError false call other quiet quiet_too = quiet_too

  check_required-NoRuleError :
      (rules : List CompiledRule) (direction : Direction) (output : Entries)
      → NoRuleError (check_required site rules direction output)
  unfolding check_required
  check_required-NoRuleError [] direction output = ok-NoRuleError tt
  check_required-NoRuleError (r ∷ rs) direction output =
      if-NoRuleError (r.required) _ _
        (chain-NoRuleError _ _ (first_value-NoRuleError (dict output) (target_path r direction) _)
          (λ produced.
            if-NoRuleError (is_produced site produced) _ _
              (check_required-NoRuleError rs direction output) (λ i same. cc, λ f same. cc)))
        (check_required-NoRuleError rs direction output)

  check_valid-NoRuleError :
      (rules : List CompiledRule) (direction : Direction) (output : Entries)
      → NoRuleError (check_valid site rules direction output)
  unfolding check_valid
  check_valid-NoRuleError [] direction output = ok-NoRuleError tt
  check_valid-NoRuleError (r ∷ rs) direction output =
      if-NoRuleError (str_eq (r.validate_against) "") _ _
        (check_valid-NoRuleError rs direction output)
        (chain-NoRuleError _ _ (first_value-NoRuleError (dict output) (target_path r direction) _)
          (λ value.
            if-NoRuleError (all_exist site (r.validate_against) (to_validate site value)) _ _
              (check_valid-NoRuleError rs direction output) (λ i same. cc, λ f same. cc)))

  pub checked-NoRuleError :
      (compiled : CompiledRuleset) (direction : Direction) (done : Applied)
      → NoRuleError (checked site compiled direction done)
  checked-NoRuleError compiled direction done =
      chain-NoRuleError _ _
        (chain-NoRuleError _ _ (check_required-NoRuleError (compiled.rules) direction (done.output))
          (λ _. check_valid-NoRuleError (compiled.rules) direction (done.output)))
        (λ _. ok-NoRuleError done)

  pub apply_rules-NoRuleError :
      (child : String → Result Failure (Json → Result Failure Entries)) (policy : String)
      (rules : List CompiledRule) (ctx : Context) (output : Entries)
      → NoRuleError (apply_rules site child true policy rules ctx output)
  unfolding apply_rules
  apply_rules-NoRuleError child policy [] ctx output = ok-NoRuleError _
  apply_rules-NoRuleError child policy (r ∷ rs) ctx output =
      after_rule-NoRuleError (apply_rule site child policy r ctx output) output _
        (λ next. apply_rules-NoRuleError child policy rs ctx next)
