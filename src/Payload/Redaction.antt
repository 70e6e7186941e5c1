-- ===== src/Payload/Redaction.antt =====
-- ecommerce_super/easyecom/utils/redaction.py: what is kept out of the logs. Keys are texts, and case
-- folding is that of ASCII.
pub mod Clean
use Prim.Native.Char.{code}
use ecommerce_super.Base.{
  ℕ, ◌+◌, String, Bool, true, false, ◌&&◌, ◌||◌, Option, none, some, List, [], ◌∷◌, ltb, leb, ◌==◌,
  if◌then◌else◌, length, codes,
}
use ecommerce_super.Payload.{
  Json, null, flag, number, text, array, dict, Items, no_items, item, Entries, no_entries, entry,
}

-- `c.lower()`
abbrev pub lower : ℕ → ℕ
lower c = if leb 65 c && leb c 90 then c + 32 else c

-- `name.lower().replace(" ", "")`, as code points.
unfoldable pub normal : String → List ℕ
normal String.[] = []
normal (String.◌∷◌ c s) =
    let rest = normal s in if code c == 32 then rest else lower (code c) ∷ rest

unfoldable pub same_codes : List ℕ → List ℕ → Bool
same_codes [] [] = true
same_codes (c ∷ cs) (d ∷ ds) = c == d && same_codes cs ds
same_codes _ _ = false

abbrev pub redacted_fields : List String
redacted_fields =
    "x_api_key" ∷ "x-api-key" ∷ "xapikey" ∷ "authorization" ∷ "password" ∷ "token" ∷ "secret"
    ∷ "jwt" ∷ "jwt_token" ∷ "webhook_token" ∷ "email" ∷ "slack_webhook_url" ∷ "access_token"
    ∷ "access-token" ∷ "api_key" ∷ "apikey" ∷ "api_token" ∷ []

abbrev pub redacted_placeholder : String
redacted_placeholder = "***REDACTED***"

unfoldable pub any_name : List ℕ → List String → Bool
unfolding same_codes
any_name cs [] = false
any_name cs (f ∷ fs) = same_codes cs (codes f) || any_name cs fs

unfoldable pub any_extra : List ℕ → List String → Bool
unfolding same_codes normal
any_extra cs [] = false
any_extra cs (f ∷ fs) = same_codes cs (normal f) || any_extra cs fs

unfoldable pub should_redact_field : String → Bool
unfolding normal any_name
should_redact_field name = any_name (normal name) redacted_fields

-- `lk in REDACTED_FIELDS or lk in extras`
unfoldable pub is_redacted : List String → String → Bool
unfolding should_redact_field any_extra normal
is_redacted extras key = should_redact_field key || any_extra (normal key) extras

abbrev pub within : ℕ → ℕ → ℕ → Bool
within low high c = leb low c && leb c high

-- `\s` of a text pattern.
abbrev pub is_space : ℕ → Bool
is_space c =
    within 9 13 c
    || (within 28 32 c
        || (c == 133
            || (c == 160
                || (c == 5760
                    || (within 8192 8202 c
                        || (within 8232 8233 c || (c == 8239 || (c == 8287 || c == 12288))))))))

abbrev pub is_alnum : ℕ → Bool
is_alnum c = within 65 90 c || (within 97 122 c || within 48 57 c)

-- `[A-Za-z0-9_\-]`
abbrev pub is_jwt_char : ℕ → Bool
is_jwt_char c = is_alnum c || (c == 95 || c == 45)

-- `[A-Za-z0-9._\-+/=]` without regard to case, which takes in four letters beyond ASCII.
abbrev pub is_bearer_char : ℕ → Bool
is_bearer_char c =
    is_jwt_char c
    || (c == 46
        || (c == 43 || (c == 47 || (c == 61 || (within 304 305 c || (c == 383 || c == 8490))))))

-- What is left after the longest run of a class of characters.
unfoldable pub skip : (ℕ → Bool) → List ℕ → List ℕ
skip p [] = []
skip p (c ∷ cs) = let rest = skip p cs in if p c then rest else c ∷ cs

-- One character of a class at least, and then its longest run. The class that follows has no
-- character of the run's, so a pattern never steps back into it.
unfoldable pub one_or_more : (ℕ → Bool) → List ℕ → Option (List ℕ)
unfolding skip
one_or_more p [] = none
one_or_more p (c ∷ cs) = if p c then some (skip p cs) else none

-- `$`: the end, or a newline at the end.
abbrev pub at_end : List ℕ → Bool
at_end [] = true
at_end (c ∷ []) = c == 10
at_end _ = false

-- A text that starts with some characters, without regard to case; what is left.
unfoldable pub literal : List ℕ → List ℕ → Option (List ℕ)
literal [] cs = some cs
literal (w ∷ ws) [] = none
literal (w ∷ ws) (c ∷ cs) = let rest = literal ws cs in if lower c == w then rest else none

abbrev pub then_some : Option (List ℕ) → (List ℕ → Option (List ℕ)) → Option (List ℕ)
then_some none f = none
then_some (some cs) f = f cs

abbrev pub ends : Option (List ℕ) → Bool
ends none = false
ends (some cs) = at_end cs

-- `_BEARER_RE.match`
unfoldable pub is_bearer : List ℕ → Bool
unfolding literal one_or_more
is_bearer cs = ends (
    then_some (then_some (literal (codes "bearer") cs) (one_or_more is_space))
      (one_or_more is_bearer_char))

abbrev pub dot : List ℕ → Option (List ℕ)
dot [] = none
dot (c ∷ cs) = if c == 46 then some cs else none

-- `_JWT_RE.match`
unfoldable pub is_jwt : List ℕ → Bool
unfolding one_or_more
is_jwt cs =
    let part = one_or_more is_jwt_char in
    ends (then_some (then_some (then_some (then_some (part cs) dot) part) dot) part)

unfoldable pub looks_like_secret : String → Bool
unfolding is_bearer is_jwt
looks_like_secret s = let cs = codes s in is_bearer cs || (is_jwt cs && ltb 50 (length cs))

-- `_value_looks_like_secret`
unfoldable pub value_looks_like_secret : Json → Bool
unfolding looks_like_secret
value_looks_like_secret (text s) = looks_like_secret s
value_looks_like_secret _ = false

-- The value of a field, by whether its name is listed.
unfoldable pub redact_value : Bool → Json → Json
redact_value true v = text redacted_placeholder
redact_value false v = v

-- `_walk`, with the extra field names of the call.
unfoldable mutual
  pub redact : List String → Json → Json
  redact extras (text s) = if looks_like_secret s then text redacted_placeholder else text s
  redact extras (array xs) = array (redact_items extras xs)
  redact extras (dict es) = dict (redact_entries extras es)
  redact extras null = null
  redact extras (flag b) = flag b
  redact extras (number n) = number n

  pub redact_items : List String → Items → Items
  redact_items extras no_items = no_items
  redact_items extras (item x xs) = item (redact extras x) (redact_items extras xs)

  pub redact_entries : List String → Entries → Entries
  redact_entries extras no_entries = no_entries
  redact_entries extras (entry k v es) =
      entry k (redact_value (is_redacted extras k) (redact extras v)) (redact_entries extras es)
