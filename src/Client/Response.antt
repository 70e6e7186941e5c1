-- ===== src/Client/Response.antt =====
-- ecommerce_super/easyecom/client/client.py: what a call makes of a reply of EasyEcom. Python's `str` of
-- a list or a dict, and the number in the header `Retry-After`, are arguments; case folding is that of
-- ASCII. Headers, tokens, URLs and the log record are not modelled.
pub mod Classes
use ecommerce_super.Base.{
  ℕ, suc, ◌+◌, String, Bool, true, false, ◌&&◌, ◌||◌, not, Option, none, some, List, [], ◌∷◌, map,
  ltb, leb, ◌==◌, str_eq, if◌then◌else◌, or_else, ℤ, pos, negsuc, codes, append, decimal,
}
use ecommerce_super.Errors.{
  EasyError, ErrorClass, auth_error, rate_limit_error, server_error, duplicate_error,
  validation_error,
}
use ecommerce_super.Payload.{
  Json, null, flag, number, text, array, dict, Items, Entries, no_entries, entry, get,
}
use ecommerce_super.Client.Retry.{
  StatusClass, success, transient, auth, permanent, rate_limit, classify_response, Outcome,
  returned, raised, ecs,
}

pub record Reply : Type 0 where
  pub status_code : ℕ
  pub body : Json
  pub retry_after : Option ℤ

abbrev pub lower_code : ℕ → ℕ
lower_code c = if leb 65 c && leb c 90 then c + 32 else c

abbrev pub lowered : List ℕ → List ℕ
lowered cs = map lower_code cs

unfoldable pub starts_with : List ℕ → List ℕ → Bool
starts_with [] cs = true
starts_with (w ∷ ws) [] = false
starts_with (w ∷ ws) (c ∷ cs) = w == c && starts_with ws cs

-- `word in s`
unfoldable pub contains : List ℕ → List ℕ → Bool
unfolding starts_with
contains word [] = starts_with word []
contains word (c ∷ cs) = starts_with word (c ∷ cs) || contains word cs

abbrev pub contains_any : List String → List ℕ → Bool
contains_any [] cs = false
contains_any (w ∷ ws) cs = contains (codes w) cs || contains_any ws cs

-- Python's truth of a value.
unfoldable pub is_true : Json → Bool
is_true null = false
is_true (flag b) = b
is_true (number (pos n)) = not (n == 0)
is_true (number (negsuc n)) = true
is_true (text s) = not (str_eq s "")
is_true (array Items.no_items) = false
is_true (array (Items.item x xs)) = true
is_true (dict no_entries) = false
is_true (dict (entry k v es)) = true

-- The first of two fields that is true, or the second one; an absent field counts as the empty text.
abbrev pub field : String → Entries → Json
field key es = or_else (get key es) (text "")

unfoldable pub either_field : String → String → Entries → Json
unfolding is_true
either_field a b es = if is_true (field a es) then field a es else field b es

abbrev pub no_data_message_patterns : List String
no_data_message_patterns =
    "no data found" ∷ "unable to find states" ∷ "unable to find vendors" ∷ "no records found"
    ∷ "no result found" ∷ []

abbrev pub signed : ℤ → String
signed (pos n) = decimal n
signed (negsuc n) = append "-" (decimal (suc n))

-- `isinstance(code, (int, float)) and code >= 400`, with the code.
unfoldable pub failure_code : Option Json → Option ℕ
failure_code (some (number (pos n))) = if leb 400 n then some n else none
failure_code _ = none

abbrev pub class_of_code : ℕ → StatusClass
class_of_code n =
    if n == 401
    then auth
    else if n == 429
    then rate_limit
    else if leb 500 n && ltb n 600
    then transient
    else permanent

abbrev pub is_success : StatusClass → Bool
is_success success = true
is_success _ = false

-- `_exception_name_for_status`, which the log record names.
unfoldable pub exception_for_status : ℕ → ErrorClass
exception_for_status n =
    if n == 401
    then auth_error
    else if n == 429
    then rate_limit_error
    else if leb 500 n && ltb n 600
    then server_error
    else validation_error

module _ (repr : Json → String) where
  -- `str(value)`
  abbrev pub str_of : Json → String
  str_of null = "None"
  str_of (flag true) = "True"
  str_of (flag false) = "False"
  str_of (number n) = signed n
  str_of (text s) = s
  str_of v = repr v

  unfoldable pub is_duplicate : Json → Bool
  unfolding contains either_field
  is_duplicate (dict es) =
      contains_any ("duplicate" ∷ "already exists" ∷ [])
        (lowered (codes (str_of (either_field "error" "message" es))))
  is_duplicate _ = false

  -- The message is tested as it is: the patterns neither begin nor end with the white space that
  -- `strip` takes away, and none is empty.
  unfoldable pub is_no_data_envelope : Json → Bool
  unfolding contains is_true
  is_no_data_envelope (dict es) =
      let message = field "message" es in
      is_true message && contains_any no_data_message_patterns (lowered (codes (str_of message)))
  is_no_data_envelope _ = false

  -- The code by which a reply of HTTP status 2xx is a failure after all.
  unfoldable pub body_code : Json → Option ℕ
  unfolding failure_code
  body_code (dict es) =
      let code = failure_code (get "code" es) in
      if is_no_data_envelope (dict es) then none else code
  body_code _ = none

  unfoldable pub demoted : StatusClass → Option ℕ → StatusClass
  demoted success (some n) = class_of_code n
  demoted c _ = c

  unfoldable pub status_class : Reply → StatusClass
  unfolding demoted body_code classify_response
  status_class r = demoted (classify_response r.status_code) (body_code r.body)

  abbrev pub raise : ErrorClass → String → Option ℤ → Outcome Json
  raise c m after = raised (ecs (record { cls = c; message = m; retry_after = after }))

  -- The end of `do_call`, by the class of the reply.
  unfoldable pub conclude : Reply → String → StatusClass → Outcome Json
  unfolding is_duplicate
  conclude r endpoint success = returned r.body
  conclude r endpoint auth = raise auth_error (append "HTTP 401 from " endpoint) none
  conclude r endpoint rate_limit =
      raise rate_limit_error (append "HTTP 429 from " endpoint) r.retry_after
  conclude r endpoint transient =
      raise server_error
        (append "HTTP " (append (decimal r.status_code) (append " from " endpoint))) none
  conclude r endpoint permanent =
      if is_duplicate r.body
      then raise duplicate_error
          (append "HTTP " (append (decimal r.status_code) (append " duplicate from " endpoint)))
          none
      else raise validation_error
          (append "HTTP " (append (decimal r.status_code) (append " from " endpoint))) none

  unfoldable pub do_call : Reply → String → Outcome Json
  unfolding conclude status_class
  do_call r endpoint = conclude r endpoint (status_class r)

  -- The class that the log record names, if it names one.
  unfoldable pub logged_class : Reply → Option ErrorClass
  unfolding exception_for_status status_class
  logged_class r =
      if is_success (status_class r) then none else some (exception_for_status r.status_code)
