-- ===== src/Payload/Redaction/Clean.antt =====
-- ecommerce_super/easyecom/utils/redaction.py: what a redacted payload holds.
use ecommerce_super.Base.{
  String, ◌≡◌, refl, sym, ap, ◌⊎◌, inl, inr, Bool, true, false, List, if◌then◌else◌, Bool-cases,
}
use ecommerce_super.Payload.{
  Json, null, flag, number, text, array, dict, Items, no_items, item, Entries, no_entries, entry,
}
use ecommerce_super.Payload.Redaction.{
  redact, redact_items, redact_entries, redact_value, is_redacted, looks_like_secret,
  redacted_placeholder,
}

-- No text looks like a secret, and the value of every field that must not be shown is the placeholder.
unfoldable mutual
  pub IsClean : List String → Json → Type 0
  IsClean extras (text s) = looks_like_secret s ≡ false
  IsClean extras (array xs) = IsCleanItems extras xs
  IsClean extras (dict es) = IsCleanEntries extras es
  IsClean extras null = Unit
  IsClean extras (flag b) = Unit
  IsClean extras (number n) = Unit

  pub IsCleanItems : List String → Items → Type 0
  IsCleanItems extras no_items = Unit
  IsCleanItems extras (item x xs) = IsClean extras x × IsCleanItems extras xs

  pub IsCleanEntries : List String → Entries → Type 0
  IsCleanEntries extras no_entries = Unit
  IsCleanEntries extras (entry k v es) =
      ((is_redacted extras k ≡ false) ⊎ (v ≡ text redacted_placeholder))
      × (IsClean extras v × IsCleanEntries extras es)

placeholder_lem : looks_like_secret redacted_placeholder ≡ false
unfolding looks_like_secret
placeholder_lem = refl

value_shown : (b : Bool) (v : Json) → (b ≡ false) ⊎ (redact_value b v ≡ text redacted_placeholder)
unfolding redact_value
value_shown true v = inr refl
value_shown false v = inl refl

value-IsClean :
    (extras : List String) (b : Bool) (v : Json)
    → IsClean extras v
    → IsClean extras (redact_value b v)
unfolding IsClean redact_value
value-IsClean extras true v h = placeholder_lem
value-IsClean extras false v h = h

text-IsClean :
    (extras : List String) (s : String)
    → IsClean extras (if looks_like_secret s then text redacted_placeholder else text s)
unfolding IsClean
text-IsClean extras s = elim (Bool-cases (looks_like_secret s)) [
  | inl e ↦ rw e placeholder_lem
  | inr e ↦ rw e e
]

mutual
  unfolding redact IsClean

  clean : (extras : List String) (v : Json) → IsClean extras (redact extras v)
  clean extras (text s) = text-IsClean extras s
  clean extras (array xs) = clean_items extras xs
  clean extras (dict es) = clean_entries extras es
  clean extras null = tt
  clean extras (flag b) = tt
  clean extras (number n) = tt

  clean_items : (extras : List String) (xs : Items) → IsCleanItems extras (redact_items extras xs)
  clean_items extras no_items = tt
  clean_items extras (item x xs) = (clean extras x, clean_items extras xs)

  clean_entries :
      (extras : List String) (es : Entries) → IsCleanEntries extras (redact_entries extras es)
  clean_entries extras no_entries = tt
  clean_entries extras (entry k v es) = (
    value_shown (is_redacted extras k) (redact extras v),
    (
      value-IsClean extras (is_redacted extras k) (redact extras v) (clean extras v),
      clean_entries extras es,
    ),
  )

value_kept :
    (b : Bool) (v : Json) → (b ≡ false) ⊎ (v ≡ text redacted_placeholder) → redact_value b v ≡ v
unfolding redact_value
value_kept true v (inl e) = absurd (cc e)
value_kept true v (inr e) = sym e
value_kept false v h = refl

mutual
  unfolding redact IsClean

  kept : (extras : List String) (v : Json) → IsClean extras v → redact extras v ≡ v
  kept extras (text s) h = rw h refl
  kept extras (array xs) h = ap array (kept_items extras xs h)
  kept extras (dict es) h = ap dict (kept_entries extras es h)
  kept extras null h = refl
  kept extras (flag b) h = refl
  kept extras (number n) h = refl

  kept_items :
      (extras : List String) (xs : Items) → IsCleanItems extras xs → redact_items extras xs ≡ xs
  kept_items extras no_items h = refl
  kept_items extras (item x xs) h = rw (kept extras x h.0, kept_items extras xs h.1) refl

  kept_entries :
      (extras : List String) (es : Entries)
      → IsCleanEntries extras es
      → redact_entries extras es ≡ es
  kept_entries extras no_entries h = refl
  kept_entries extras (entry k v es) h =
      rw
        (kept extras v h.1.0, kept_entries extras es h.1.1, value_kept (is_redacted extras k) v h.0)
        refl

-- A redacted payload holds, at any depth, the placeholder under every field name that is listed or
-- given by the caller, and no text that looks like a bearer token or a JWT; redacting it again changes
-- nothing.
pub redact-IsClean :
    (extras : List String) (v : Json)
    → IsClean extras (redact extras v) × (redact extras (redact extras v) ≡ redact extras v)
redact-IsClean extras v = (clean extras v, kept extras (redact extras v) (clean extras v))

-- A payload without secrets is logged as it is.
pub redact_kept : (extras : List String) (v : Json) → IsClean extras v → redact extras v ≡ v
redact_kept extras v h = kept extras v h
