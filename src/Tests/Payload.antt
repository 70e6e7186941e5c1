-- ===== src/Tests/Payload.antt =====
-- ecommerce_super/easyecom/utils: tests.
use ecommerce_super.Base.{String, ◌≡◌, refl, inl, some, [], ◌∷◌, map, pos}
use ecommerce_super.Payload.{
  Json, null, flag, number, text, array, dict, Items, no_items, item, Entries, no_entries, entry,
}
use ecommerce_super.Payload.{get}
use ecommerce_super.Payload.Path.{split_segments, step_of, key, index, each, descend, filter}
use ecommerce_super.Payload.Path.Reading.{get_path}
use ecommerce_super.Payload.Path.Writing.{set_path, set_steps}
use ecommerce_super.Payload.Path.RoundTrip.{
  IsWritable, at_key, through_index, get_path-set_path, set_steps-others,
}
use ecommerce_super.Payload.Redaction.{redact, looks_like_secret, is_redacted, redacted_placeholder}
use ecommerce_super.Payload.Redaction.Clean.{IsClean, redact-IsClean, redact_kept}

abbrev login : Json
login = dict (
    entry "Api Key" (text "k") (
      entry "api_key" (text "k") (
        entry "items" (array (item (text "Bearer abc.def") (item (text "bearer") no_items)))
          no_entries)))

login_redacted :
    redact [] login
    ≡ dict (
        entry "Api Key" (text redacted_placeholder) (
          entry "api_key" (text redacted_placeholder) (
            entry "items"
              (array (item (text redacted_placeholder) (item (text "bearer") no_items)))
              no_entries)))
unfolding redact ecommerce_super.Payload.Redaction.redact_value is_redacted looks_like_secret
login_redacted = refl

extra_field :
    redact ("X Auth" ∷ []) (dict (entry "xauth" (number (pos 3)) no_entries))
    ≡ dict (entry "xauth" (text redacted_placeholder) no_entries)
unfolding redact ecommerce_super.Payload.Redaction.redact_value is_redacted
extra_field = refl

redact-IsClean_example :
    IsClean [] (redact [] login) × (redact [] (redact [] login) ≡ redact [] login)
redact-IsClean_example = redact-IsClean [] login

abbrev stock : Json
stock = dict (entry "sku" (text "ITEM-1") (entry "qty" (number (pos 4)) no_entries))

redact_kept_test : redact [] stock ≡ stock
unfolding IsClean is_redacted looks_like_secret
redact_kept_test = redact_kept [] stock (inl refl, (refl, (inl refl, (tt, tt))))

segments_of :
    split_segments "items[?type='CGST'].amount" ≡ some ("items" ∷ "[?type='CGST']" ∷ "amount" ∷ [])
unfolding split_segments
segments_of = refl

descent_of : split_segments "..hsn_code" ≡ some (".." ∷ "hsn_code" ∷ [])
unfolding split_segments
descent_of = refl

steps_of :
    map step_of ("items" ∷ "[0]" ∷ "[*]" ∷ "[?type = 'CGST']" ∷ ".." ∷ [])
    ≡ key "items" ∷ index 0 ∷ each ∷ filter "type" "CGST" ∷ descend ∷ []
unfolding step_of
steps_of = refl

abbrev show : Json → String
show (text s) = s
show _ = ""

abbrev taxes : Json
taxes = dict (
    entry "items"
      (array (
        item (dict (entry "type" (text "CGST") (entry "amount" (number (pos 9)) no_entries))) (
          item (dict (entry "type" (text "IGST") (entry "amount" (number (pos 18)) no_entries)))
            no_items)))
      no_entries)

filtered : get_path show taxes "items[?type='CGST'].amount" ≡ some (number (pos 9) ∷ [])
unfolding get_path
filtered = refl

every_amount : get_path show taxes "..amount" ≡ some (number (pos 9) ∷ number (pos 18) ∷ [])
unfolding get_path
every_amount = refl

item_path : split_segments "items[1].sku" ≡ some ("items" ∷ "[1]" ∷ "sku" ∷ [])
unfolding split_segments
item_path = refl

item_steps : map step_of ("items" ∷ "[1]" ∷ "sku" ∷ []) ≡ key "items" ∷ index 1 ∷ key "sku" ∷ []
unfolding step_of
item_steps = refl

item_path-IsWritable : IsWritable (map step_of ("items" ∷ "[1]" ∷ "sku" ∷ []))
item_path-IsWritable = rw item_steps (through_index "items" 1 "sku" (at_key "sku"))

get_path-set_path_example :
    (t : Entries) × ((set_path no_entries "items[1].sku" (text "A") ≡ some (dict t))
      × (get_path show (dict t) "items[1].sku" ≡ some (text "A" ∷ [])))
get_path-set_path_example =
    get_path-set_path show "items[1].sku" ("items" ∷ "[1]" ∷ "sku" ∷ []) no_entries (text "A")
      item_path item_path-IsWritable

abbrev order : Entries
order = entry "id" (number (pos 7)) (entry "a" null no_entries)

set_in_a :
    set_steps (key "a" ∷ key "b" ∷ []) (dict order) (text "x")
    ≡ some (
        dict (
          entry "id"
            (number (pos 7))
            (entry "a" (dict (entry "b" (text "x") no_entries)) no_entries)))
unfolding set_steps
set_in_a = refl

set_steps-others_test :
    get "id"
      (entry "id" (number (pos 7)) (entry "a" (dict (entry "b" (text "x") no_entries)) no_entries))
    ≡ get "id" order
set_steps-others_test =
    set_steps-others "a" "id" (key "b" ∷ []) order
      (entry "id" (number (pos 7)) (entry "a" (dict (entry "b" (text "x") no_entries)) no_entries))
      (text "x") set_in_a (λ e. cc)
