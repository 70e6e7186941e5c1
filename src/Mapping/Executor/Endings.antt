-- ===== src/Mapping/Executor/Endings.antt =====
-- ecommerce_super/easyecom/field_mapping/executor.py: calls that do not end in RecursionError of their own.
use ecommerce_super.Base.{
  ℕ, suc, String, ◌≡◌, refl, ap, ◌≢◌, Bool, true, false, ◌||◌, Option, none, some, List, [], ◌∷◌,
  str_eq, if◌then◌else◌, Result, ok, err, ◌>>=◌, err_injective,
}
use ecommerce_super.Payload.{Json, null, flag, number, text, array, dict, Entries}
use ecommerce_super.Payload.Path.Writing.{set_path}
use ecommerce_super.Mapping.Transforms.{
  Trouble, refused, not_callable, missing_argument, expression_raised, other_exception,
}
use ecommerce_super.Mapping.Executor.{
  split_segments, Failure, recursion, in_rule, from_list, values_at, written, set_output, set_each,
  set_at_end, set_split, set_iterated, index_path, last_and_parent,
}

-- A chain does not end in RecursionError when none of its calls does.
pub chain_ends :
    {A B : Type 0} (call : Result Failure A) (then_do : A → Result Failure B)
    → call ≢ err recursion
    → ((value : A) → call ≡ ok value → then_do value ≢ err recursion)
    → (call >>= then_do) ≢ err recursion
chain_ends (err raised) then_do ends next deep = ends (ap err (err_injective deep))
chain_ends (ok value) then_do ends next deep = next value refl deep

pub test_ends :
    {A : Type 0} (b : Bool) (call other : Result Failure A)
    → call ≢ err recursion
    → other ≢ err recursion
    → (if b then call else other) ≢ err recursion
test_ends true call other ends ends_too = ends
test_ends false call other ends ends_too = ends_too

-- The branch that is taken knows its test.
pub branch_ends :
    {A : Type 0} (b : Bool) (call other : Result Failure A)
    → (b ≡ true → call ≢ err recursion)
    → (b ≡ false → other ≢ err recursion)
    → (if b then call else other) ≢ err recursion
branch_ends true call other ends ends_too = ends refl
branch_ends false call other ends ends_too = ends_too refl

pub in_rule-ends : {A : Type 0} (idx : ℕ) (r : Result Trouble A) → in_rule idx r ≢ err recursion
in_rule-ends idx (ok v) deep = cc
in_rule-ends idx (err refused) deep = cc
in_rule-ends idx (err not_callable) deep = cc
in_rule-ends idx (err missing_argument) deep = cc
in_rule-ends idx (err expression_raised) deep = cc
in_rule-ends idx (err other_exception) deep = cc

pub values_at-ends : (o : Option (List Json)) → values_at o ≢ err recursion
values_at-ends none deep = cc
values_at-ends (some values) deep = cc

written-ends : (o : Option Json) → written o ≢ err recursion
written-ends none deep = cc
written-ends (some null) deep = cc
written-ends (some (flag b)) deep = cc
written-ends (some (number n)) deep = cc
written-ends (some (text s)) deep = cc
written-ends (some (array xs)) deep = cc
written-ends (some (dict es)) deep = cc

pub set_output-ends :
    (output : Entries) (path : String) (v : Json) → set_output output path v ≢ err recursion
unfolding set_output
set_output-ends output path v = written-ends (set_path output path v)

set_each-ends :
    (output : Entries) (target : String) (i : ℕ) (vs : List Json)
    → set_each output target i vs ≢ err recursion
unfolding set_each
set_each-ends output target i [] deep = cc
set_each-ends output target i (v ∷ vs) deep =
    chain_ends (set_output output (index_path target i) v) (λ next. set_each next target (suc i) vs)
      (set_output-ends output (index_path target i) v)
      (λ next _. set_each-ends next target (suc i) vs) deep

pub set_iterated-ends :
    (output : Entries) (target : String) (vs : List Json)
    → set_iterated output target vs ≢ err recursion
unfolding set_iterated
set_iterated-ends output target vs = split_ends (split_segments target)
  where
    end_ends : (o : Option (String × String)) → set_at_end output target vs o ≢ err recursion
    end_ends none = set_each-ends output target 0 vs
    end_ends (some (last, parent)) =
        test_ends (str_eq last "[]" || str_eq last "[*]") _ _
          (test_ends (str_eq parent "") _ _ (λ e. cc)
            (set_output-ends output parent (array (from_list vs))))
          (set_each-ends output target 0 vs)

    split_ends : (o : Option (List String)) → set_split output target vs o ≢ err recursion
    split_ends none deep = cc
    split_ends (some segments) deep = end_ends (last_and_parent "" segments) deep
