-- ===== src/Records/Refire.antt =====
-- easyecom_sync_record.py: retry_now, and the handlers that enqueue the next attempt by the kind of document.
use ecommerce_super.Base.{
  String, Bool, true, false, ◌||◌, not, Option, none, some, List, [], ◌∷◌, str_eq, if◌then◌else◌,
  append, Result, ok, err, ◌>>=◌,
}
use ecommerce_super.Records.{
  pending, failed, cancelled, SyncRecord, SyncError, not_retryable, same_status,
}

-- What a handler asks the queue for; `account` and what else the payload holds follow from the record.
pub record JobRequest : Type 0 where
  pub job_type : String
  pub company : String
  pub target_doctype : String
  pub target_name : String
  pub idempotency_key : String

-- The first enabled account, hashlib's digest of a text, the digest of an empty payload, and the queue: the name of the
-- job, or the exception that enqueue_easyecom_job raised.
pub record RefireSite (E : Type 0) : Type 0 where
  pub first_enabled_ee_account : Option String
  pub sha256 : String → String
  pub sha256_of_empty : String
  pub enqueue : JobRequest → Result E String

-- The reason why nothing was enqueued.
pub data NotEnqueued (E : Type 0) : Type 0 where
  no_handler no_account : NotEnqueued E
  handler_raised : (raised : E) → NotEnqueued E

pub data Refired (E : Type 0) : Type 0 where
  enqueued : (request : JobRequest) (queue_job_name : String) → Refired E
  not_enqueued : (reason : NotEnqueued E) → Refired E

abbrev pub joined_by_colon : String → List String → String
joined_by_colon part [] = part
joined_by_colon part (p ∷ parts) = append part (append ":" (joined_by_colon p parts))

module _ {E : Type 0} (site : RefireSite E) where
  abbrev pub sha256_idempotency : String → List String → String
  sha256_idempotency part parts = site.sha256 (joined_by_colon part parts)

  abbrev pub request_of : String → SyncRecord → String → JobRequest
  request_of job_type r key = record {
    job_type = job_type;
    company = r.company;
    target_doctype = r.entity_doctype;
    target_name = r.entity_name;
    idempotency_key = key;
  }

  abbrev pub asked : JobRequest → Result E (Refired E)
  asked request = site.enqueue request >>= (λ queue_job_name. ok (enqueued request queue_job_name))

  abbrev pub with_account : (String → Result E (Refired E)) → Result E (Refired E)
  with_account ask = elim (site.first_enabled_ee_account) [
    | none ↦ ok (not_enqueued no_account)
    | some account ↦ if str_eq account "" then ok (not_enqueued no_account) else ask account
  ]

  unfoldable pub refire_delivery_note : SyncRecord → Result E (Refired E)
  refire_delivery_note r = asked (
      request_of "Transfer Push" r (
        sha256_idempotency "internal" (
          "transfer_push" ∷ r.company ∷ "Delivery Note" ∷ r.entity_name ∷ site.sha256_of_empty
          ∷ [])))

  unfoldable pub refire_item : SyncRecord → Result E (Refired E)
  refire_item r = with_account (λ account. asked (
      request_of "Item Push" r
        (sha256_idempotency "item" (r.company ∷ r.entity_name ∷ account ∷ "item_push_v1" ∷ []))))

  unfoldable pub refire_customer : SyncRecord → Result E (Refired E)
  refire_customer r = with_account (λ account. asked (
      request_of "Customer Push" r (
        sha256_idempotency "customer_push_queue"
          (r.company ∷ r.entity_name ∷ account ∷ "v1" ∷ []))))

  unfoldable pub refire_supplier : SyncRecord → Result E (Refired E)
  refire_supplier r = with_account (λ account. asked (
      request_of "Supplier Push" r (
        sha256_idempotency "supplier_push_queue"
          (r.company ∷ r.entity_name ∷ account ∷ "v1" ∷ []))))

  unfoldable pub refire_purchase_order : SyncRecord → Result E (Refired E)
  refire_purchase_order r = asked (
      request_of "PO Push" r
        (sha256_idempotency "po" (r.company ∷ r.entity_name ∷ r.ee_location_key ∷ [])))

  unfoldable pub refire_sales_order : SyncRecord → Result E (Refired E)
  refire_sales_order r = asked (
      request_of "SO Push" r
        (sha256_idempotency "so" (r.company ∷ r.entity_name ∷ r.ee_location_key ∷ [])))

  -- _REFIRE_HANDLERS
  unfoldable pub refire_handlers : String → Option (SyncRecord → Result E (Refired E))
  refire_handlers doctype =
      if str_eq doctype "Delivery Note"
      then some refire_delivery_note
      else if str_eq doctype "Item"
      then some refire_item
      else if str_eq doctype "Customer"
      then some refire_customer
      else if str_eq doctype "Supplier"
      then some refire_supplier
      else if str_eq doctype "Purchase Order"
      then some refire_purchase_order
      else if str_eq doctype "Sales Order"
      then some refire_sales_order
      else none

  abbrev pub caught : Result E (Refired E) → Refired E
  caught (err raised) = not_enqueued (handler_raised raised)
  caught (ok refired) = refired

  abbrev pub refire_by : Option (SyncRecord → Result E (Refired E)) → SyncRecord → Refired E
  refire_by none r = not_enqueued no_handler
  refire_by (some handler) r = caught (handler r)

  -- `_refire_pending_sync_record`
  unfoldable pub refire_pending_sync_record : SyncRecord → Refired E
  unfolding refire_handlers
  refire_pending_sync_record r = refire_by (refire_handlers (r.entity_doctype)) r

  abbrev pub is_enqueued : Refired E → Bool
  is_enqueued (enqueued request queue_job_name) = true
  is_enqueued (not_enqueued reason) = false

  abbrev pub is_registered : Option (SyncRecord → Result E (Refired E)) → Bool
  is_registered none = false
  is_registered (some handler) = true

  -- The `db_set`, which does not run `validate`.
  abbrev pub flipped : SyncRecord → SyncRecord
  flipped r = record r { status = pending; last_error = ""; last_error_translation_key = "" }

  unfoldable pub retry_now : SyncRecord → Result SyncError (SyncRecord × Refired E)
  unfolding refire_pending_sync_record
  retry_now r =
      if same_status (r.status) failed || same_status (r.status) cancelled
      then (let refired = refire_pending_sync_record r in
          ok (
            if is_enqueued refired || not (is_registered (refire_handlers (r.entity_doctype)))
                then flipped r
                else r,
            refired,
          ))
      else err (not_retryable (r.status))
