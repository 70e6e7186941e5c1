-- ===== src/Tests/Records.antt =====
-- easyecom_sync_record.py: tests of a record that was cancelled and of two upserts.
use ecommerce_super.Base.{◌≡◌, refl, ap, ◌≢◌, ◌⊎◌, String, true, none, some, [], ◌∷◌, ok, err}
use ecommerce_super.Records.{
  SyncStatus, pending, failed, cancelled, SyncRecord, SyncError, bad_transition, Entity, Initial,
  lines_summary, new_sync_record, upsert_record, validate_status_transition,
}
use ecommerce_super.Records.Refire.{JobRequest, RefireSite, Refired, enqueued, retry_now}
use ecommerce_super.Records.Retries.{Retried, retry_now-Retried, retry_now-cancelled}
use ecommerce_super.Records.Unique.{Upserted, upsert_record-Upserted}

summary : lines_summary ("OK" ∷ " Failed" ∷ "OK" ∷ "" ∷ []) ≡ "2/4 OK · 1 Failed"
unfolding lines_summary
summary = refl

abbrev site : RefireSite String
site = record {
  first_enabled_ee_account = none;
  sha256 = λ s. s;
  sha256_of_empty = "44136fa3";
  enqueue = λ request. ok "QJ-1";
}

abbrev order : Entity
order = record {
  company = "ACME";
  entity_doctype = "Sales Order";
  entity_name = "SO-7";
  direction = "Push";
}

abbrev first_try : Initial
first_try = record {
  entity_type = "Order";
  correlation_id = "c";
  idempotency_key = "k";
  ee_location_key = "L1";
  status = cancelled;
}

abbrev stopped : SyncRecord
stopped = new_sync_record "SR-1" order first_try

abbrev reopened : SyncRecord × Refired String
reopened = (
  record stopped { status = pending },
  enqueued
      record {
        job_type = "SO Push";
        company = "ACME";
        target_doctype = "Sales Order";
        target_name = "SO-7";
        idempotency_key = "so:ACME:SO-7:L1";
      }
      "QJ-1",
)

reopens : retry_now site stopped ≡ ok reopened
unfolding retry_now ecommerce_super.Records.Refire.refire_sales_order
reopens = refl

retry_now-Retried_example :
    ((stopped.status ≡ failed) ⊎ (stopped.status ≡ cancelled)) × Retried site stopped reopened
retry_now-Retried_example = retry_now-Retried site stopped reopens

status_moved : reopened.0 ≢ stopped
status_moved same = cc (apart same)
  where
    apart : reopened.0 ≡ stopped → pending ≡ cancelled
    apart same = ap (λ r. r.status) same

retry_now-cancelled_example :
    (reopened.0.status ≡ pending)
    × (validate_status_transition (some stopped) (reopened.0)
        ≡ err (bad_transition cancelled pending))
retry_now-cancelled_example = retry_now-cancelled site stopped refl status_moved reopens

inserts : upsert_record (λ d. true) "SR-1" order first_try [] ≡ ok (stopped, stopped ∷ [])
unfolding upsert_record
inserts = refl

upsert_record-Upserted_example : Upserted (λ d. true) order (stopped, stopped ∷ [])
upsert_record-Upserted_example =
    upsert_record-Upserted (λ d. true) "SR-1" order first_try [] tt inserts
