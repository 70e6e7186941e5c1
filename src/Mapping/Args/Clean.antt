-- ===== src/Mapping/Args/Clean.antt =====
-- ecommerce_super/easyecom/field_mapping/transformers.py: results that no missing argument spoils.
use ecommerce_super.Base.{
  String, ◌≡◌, refl, sym, ap, ◌≢◌, ◌⊎◌, inr, Bool, true, false, ◌||◌, not, Option, none, some, List,
  [], ◌∷◌, arith, eq_iff, str_eq, if◌then◌else◌, Result, ok, err, ◌>>=◌, err_injective,
}
use ecommerce_super.Payload.{Json, null, flag, number, text, array, dict, Entries, get}
use ecommerce_super.Mapping.{Fault}
use mathlib.Core.Path.{subst}
use ecommerce_super.Mapping.Args.{require_keys, present}
use ecommerce_super.Mapping.Transforms.{
  Trouble, refused, not_callable, missing_argument, expression_raised, other_exception, truthy,
  is_missing, yn_to_bool, folded_in, required_arg, found_or_refused, filled_or_refused,
  default_or_refused, mapped, mapped_or_default, map_dict,
}

-- Neither the KeyError of an argument that is not there nor an unknown transformer.
abbrev pub IsClean : Result Trouble Json → Type 0
IsClean r = (r ≢ err missing_argument) × (r ≢ err not_callable)

pub ok-IsClean : (v : Json) → IsClean (ok v)
ok-IsClean v = (λ e. cc, λ e. cc)

pub refused-IsClean : IsClean (err refused)
refused-IsClean = (λ e. cc, λ e. cc)

pub other-IsClean : IsClean (err other_exception)
other-IsClean = (λ e. cc, λ e. cc)

pub raised-IsClean : IsClean (err expression_raised)
raised-IsClean = (λ e. cc, λ e. cc)

pub chain-IsClean :
    (call : Result Trouble Json) (then_do : Json → Result Trouble Json)
    → IsClean call
    → ((v : Json) → IsClean (then_do v))
    → IsClean (call >>= then_do)
chain-IsClean (err raised) then_do (key, name) next =
    (λ e. key (ap err (err_injective e)), λ e. name (ap err (err_injective e)))
chain-IsClean (ok v) then_do clean next = next v

pub test-IsClean :
    (b : Bool) (call other : Result Trouble Json)
    → IsClean call
    → IsClean other
    → IsClean (if b then call else other)
test-IsClean true call other clean clean_too = clean
test-IsClean false call other clean clean_too = clean_too

pub found_or_refused-IsClean : (o : Option Json) → IsClean (found_or_refused o)
found_or_refused-IsClean none = refused-IsClean
found_or_refused-IsClean (some v) = ok-IsClean v

pub filled_or_refused-IsClean : (o : Option Json) → IsClean (filled_or_refused o)
filled_or_refused-IsClean none = refused-IsClean
filled_or_refused-IsClean (some v) = test-IsClean (is_missing v) _ _ refused-IsClean (ok-IsClean v)

-- An argument that is there.
pub required_arg-IsClean : (o : Option Json) {v : Json} → o ≡ some v → IsClean (required_arg o)
required_arg-IsClean none found = cc
required_arg-IsClean (some v) found = ok-IsClean v

pub present-some :
    (o : Option Json) (rest : Result Fault Unit)
    → present o rest ≡ ok tt
    → ((v : Json) × (o ≡ some v)) × (rest ≡ ok tt)
present-some none rest passed = cc
present-some (some v) rest passed = ((v, refl), passed)

-- The first of the keys that are required is there, and so are the others.
pub first_key :
    (k : String) (keys : List String) (args : Entries)
    → require_keys (k ∷ keys) args ≡ ok tt
    → ((v : Json) × (get k args ≡ some v)) × (require_keys keys args ≡ ok tt)
unfolding require_keys
first_key k keys args passed = present-some (get k args) (require_keys keys args) passed

-- An argument that is required is read, whatever uses it.
pub key-IsClean :
    (k : String) (keys : List String) (args : Entries) (then_do : Json → Result Trouble Json)
    → require_keys (k ∷ keys) args ≡ ok tt
    → ((v : Json) → get k args ≡ some v → IsClean (then_do v))
    → IsClean (required_arg (get k args) >>= then_do)
key-IsClean k keys args then_do passed next =
    let ((v, found), _) = first_key k keys args passed in
    subst (λ o. IsClean (required_arg o >>= then_do)) (sym found) (next v found)

pub default-IsClean : (args : Entries) → IsClean (default_or_refused args)
default-IsClean args = found_or_refused-IsClean (get "default" args)

pub mapped_or_default-IsClean :
    (o : Option Json) (args : Entries) → IsClean (mapped_or_default o args)
mapped_or_default-IsClean none args = default-IsClean args
mapped_or_default-IsClean (some v) args = ok-IsClean v

pub map_dict-IsClean : (m value : Json) (args : Entries) → IsClean (map_dict m value args)
unfolding mapped
map_dict-IsClean (dict m) (text k) args = mapped_or_default-IsClean (get k m) args
map_dict-IsClean (dict m) null args = default-IsClean args
map_dict-IsClean (dict m) (flag b) args = default-IsClean args
map_dict-IsClean (dict m) (number n) args = default-IsClean args
map_dict-IsClean (dict m) (array xs) args = other-IsClean
map_dict-IsClean (dict m) (dict es) args = other-IsClean
map_dict-IsClean null value args = other-IsClean
map_dict-IsClean (flag b) value args = other-IsClean
map_dict-IsClean (number n) value args = other-IsClean
map_dict-IsClean (text s) value args = other-IsClean
map_dict-IsClean (array xs) value args = other-IsClean

pub yn_to_bool-IsClean : (value : Json) → IsClean (yn_to_bool value)
unfolding yn_to_bool
yn_to_bool-IsClean null = ok-IsClean null
yn_to_bool-IsClean (text s) = test-IsClean (str_eq s "") _ _ (ok-IsClean null) (
    test-IsClean (folded_in s ("Y" ∷ "YES" ∷ "TRUE" ∷ "1" ∷ [])) _ _ (ok-IsClean (flag true)) (
      test-IsClean (folded_in s ("N" ∷ "NO" ∷ "FALSE" ∷ "0" ∷ [])) _ _ (ok-IsClean (flag false))
        refused-IsClean))
yn_to_bool-IsClean (flag b) = ok-IsClean (flag b)
yn_to_bool-IsClean (number n) = ok-IsClean (flag (truthy (number n)))
yn_to_bool-IsClean (array xs) = refused-IsClean
yn_to_bool-IsClean (dict es) = refused-IsClean

-- What a converter of the site gives, or clean.
abbrev pub IsSettled : Result Trouble Json → Result Trouble Json → Type 0
IsSettled converted r = (r ≡ converted) ⊎ IsClean r

pub IsSettled-when :
    (b : Bool) (call other converted : Result Trouble Json)
    → (b ≡ true → IsClean call)
    → IsSettled converted other
    → IsSettled converted (if b then call else other)
IsSettled-when true call other converted clean settled = inr (clean refl)
IsSettled-when false call other converted clean settled = settled

pub IsSettled-unless :
    (b : Bool) (call other converted : Result Trouble Json)
    → b ≡ false
    → IsSettled converted other
    → IsSettled converted (if b then call else other)
IsSettled-unless true call other converted apart settled = cc
IsSettled-unless false call other converted apart settled = settled

pub differs : (s t : String) → s ≢ t → str_eq s t ≡ false
differs s t apart = ground (arith, eq_iff s t)

pub sentinel : (a b : Bool) → a ≡ true → b ≡ false → (not a || b) ≡ false
sentinel true false known plain = refl
sentinel true true known plain = cc
sentinel false b known plain = cc
