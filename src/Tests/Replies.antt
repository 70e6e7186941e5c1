-- ===== src/Tests/Replies.antt =====
-- ecommerce_super/easyecom/client/client.py: tests.
use ecommerce_super.Base.{
  ℕ, ◌≤◌, ◌<◌, max, String, ◌≡◌, refl, ◌⊎◌, true, Option, none, some, [], ◌∷◌, arith, length, pos,
  Result, ok,
}
use ecommerce_super.Errors.{validation_error}
use ecommerce_super.Payload.{
  Json, null, flag, number, text, array, dict, Items, no_items, item, Entries, no_entries, entry,
}
use ecommerce_super.Client.Retry.{CallError, returned}
use ecommerce_super.Client.Response.{Reply, do_call, body_code, logged_class, is_duplicate}
use ecommerce_super.Client.Response.Classes.{IsCaught, do_call-IsCaught, logged_class-demoted}
use ecommerce_super.Client.Pages.{paginated, finished, extract_next_page_url}
use ecommerce_super.Client.Pages.Walk.{
  StopsWithin, paginated-StopsWithin, Chain, last, more, paginated-Chain,
}

abbrev repr : Json → String
repr v = ""

-- HTTP 200 round a credential error.
abbrev wrapped : Reply
wrapped = record {
  status_code = 200;
  body = dict (entry "code" (number (pos 401)) (entry "message" (text "Expired") no_entries));
  retry_after = none;
}

-- HTTP 200 round an empty result.
abbrev no_states : Reply
no_states = record {
  status_code = 200;
  body = dict (
      entry "code" (number (pos 400))
        (entry "message" (text "Unable to find states for given country Id") no_entries));
  retry_after = none;
}

no_states_returned : do_call repr no_states "/getStates" ≡ returned no_states.body
unfolding do_call ecommerce_super.Client.Response.is_no_data_envelope ecommerce_super.Payload.get
no_states_returned = refl

duplicate_found :
    is_duplicate repr (dict (entry "message" (text "SKU Already Exists") no_entries)) ≡ true
unfolding is_duplicate ecommerce_super.Payload.get
duplicate_found = refl

wrapped_code : body_code repr wrapped.body ≡ some 401
unfolding body_code ecommerce_super.Client.Response.is_no_data_envelope ecommerce_super.Payload.get
wrapped_code = refl

do_call-IsCaught_example :
    ((do_call repr wrapped "/orders" ≡ returned wrapped.body)
      × ((200 ≤ 200) × ((200 < 300) × (body_code repr wrapped.body ≡ none))))
    ⊎ ((n : ℕ) × (IsCaught repr n (do_call repr wrapped "/orders")
          × (((body_code repr wrapped.body ≡ some n) × ((200 ≤ 200) × (200 < 300)))
              ⊎ ((n ≡ 200) × ((200 < 200) ⊎ (300 ≤ 200))))))
do_call-IsCaught_example = do_call-IsCaught repr wrapped "/orders"

logged_class-demoted_test :
    (logged_class repr wrapped ≡ some validation_error)
    × IsCaught repr 401 (do_call repr wrapped "/orders")
logged_class-demoted_test =
    logged_class-demoted repr wrapped "/orders" 401 (omega arith) (omega arith) wrapped_code

abbrev first_page : Entries
first_page = entry "data" (dict (entry "nextUrl" (text "/p2") no_entries)) no_entries

abbrev second_page : Entries
second_page = entry "data" (dict no_entries) no_entries

abbrev fetch : Option Json → Result CallError Entries
fetch none = ok first_page
fetch (some v) = ok second_page

abbrev in_a_circle : Option Json → Result CallError Entries
in_a_circle v = ok first_page

circle_stops : (paginated in_a_circle 2 (some 2)) ≡ (first_page ∷ first_page ∷ [], finished)
unfolding paginated
circle_stops = refl

paginated-StopsWithin_example : StopsWithin (max 1 2) (paginated in_a_circle (max 1 2) (some 2))
paginated-StopsWithin_example = paginated-StopsWithin in_a_circle 2

chain : Chain fetch none (first_page ∷ second_page ∷ [])
unfolding extract_next_page_url
chain = more first_page (text "/p2") refl refl (last second_page refl refl)

paginated-Chain_test :
    paginated fetch (length (first_page ∷ second_page ∷ [])) none
    ≡ (first_page ∷ second_page ∷ [], finished)
paginated-Chain_test = paginated-Chain fetch (first_page ∷ second_page ∷ []) chain
