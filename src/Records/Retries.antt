-- ===== src/Records/Retries.antt =====
-- easyecom_sync_record.py: what a retry leaves.
use mathlib.Core.Path.{subst}
use ecommerce_super.Base.{
  ◌≡◌, refl, sym, ◌∙◌, ◌≢◌, ◌⊎◌, inl, inr, String, Bool, true, false, ◌||◌, not, Option, none, some,
  str_eq, if◌then◌else◌, Result, ok, err, ◌>>=◌, ok_injective, passed_check,
}
use ecommerce_super.Records.{
  SyncStatus, pending, failed, cancelled, SyncRecord, bad_transition, same_status,
  validate_status_transition,
}
use ecommerce_super.Records.Refire.{
  JobRequest, RefireSite, NotEnqueued, no_handler, no_account, Refired, enqueued, not_enqueued,
  request_of, asked, with_account, refire_delivery_note, refire_item, refire_customer,
  refire_supplier, refire_purchase_order, refire_sales_order, refire_handlers, caught, refire_by,
  refire_pending_sync_record, is_enqueued, is_registered, flipped, retry_now,
}

module _ {E : Type 0} (site : RefireSite E) where
  -- An answer of a handler on a record: a job of the queue for the record's document, or a reason.
  abbrev Answers : SyncRecord → Refired E → Type 0
  Answers r (enqueued request n) =
      (site.enqueue request ≡ ok n)
      × (request.company ≡ r.company)
      × (request.target_doctype ≡ r.entity_doctype)
      × (request.target_name ≡ r.entity_name)
  Answers r (not_enqueued reason) = Unit

  abbrev Handles : (SyncRecord → Result E (Refired E)) → Type 0
  Handles handler = (r : SyncRecord) → Answers r (caught site (handler r))

  asked-Answers :
      (job_type key : String) (r : SyncRecord)
      → Answers r (caught site (asked site (request_of site job_type r key)))
  asked-Answers job_type key r = by_reply (site.enqueue (request_of site job_type r key)) refl
    where
      by_reply :
          (reply : Result E String)
          → site.enqueue (request_of site job_type r key) ≡ reply
          → Answers r
              (caught site (reply >>= (λ n. ok (enqueued (request_of site job_type r key) n))))
      by_reply (err raised) same = tt
      by_reply (ok n) same = (same, refl, refl, refl)

  with_account-Answers :
      (r : SyncRecord) (ask : String → Result E (Refired E))
      → ((account : String) → Answers r (caught site (ask account)))
      → Answers r (caught site (with_account site ask))
  with_account-Answers r ask answers = by_account (site.first_enabled_ee_account)
    where
      by_test :
          (t : Bool) (account : String)
          → Answers r (caught site (if t then ok (not_enqueued no_account) else ask account))
      by_test true account = tt
      by_test false account = answers account

      by_account :
          (o : Option String)
          → Answers r (
              caught site (elim o [
                | none ↦ ok (not_enqueued no_account)
                | some account ↦
                    if str_eq account "" then ok (not_enqueued no_account) else ask account
              ]))
      by_account none = tt
      by_account (some account) = by_test (str_eq account "") account

  abbrev AllHandle : Option (SyncRecord → Result E (Refired E)) → Type 0
  AllHandle none = Unit
  AllHandle (some handler) = Handles handler

  or_next :
      (t : Bool) (handler : SyncRecord → Result E (Refired E))
      (next : Option (SyncRecord → Result E (Refired E)))
      → Handles handler
      → AllHandle next
      → AllHandle (if t then some handler else next)
  or_next true handler next handles others = handles
  or_next false handler next handles others = others

  refire_handlers-AllHandle : (doctype : String) → AllHandle (refire_handlers site doctype)
  unfolding refire_handlers refire_delivery_note refire_item refire_customer refire_supplier
      refire_purchase_order refire_sales_order
  refire_handlers-AllHandle doctype =
      or_next (str_eq doctype "Delivery Note") _ _ (λ r. asked-Answers "Transfer Push" _ r)
        (or_next (str_eq doctype "Item") _ _
          (λ r. with_account-Answers r _ (λ account. asked-Answers "Item Push" _ r))
          (or_next (str_eq doctype "Customer") _ _
            (λ r. with_account-Answers r _ (λ account. asked-Answers "Customer Push" _ r))
            (or_next (str_eq doctype "Supplier") _ _
              (λ r. with_account-Answers r _ (λ account. asked-Answers "Supplier Push" _ r))
              (or_next (str_eq doctype "Purchase Order") _ _ (λ r. asked-Answers "PO Push" _ r)
                (or_next (str_eq doctype "Sales Order") _ _ (λ r. asked-Answers "SO Push" _ r)
                  tt)))))

  -- A record that waits for its next attempt: pending without an error, and as it was otherwise.
  abbrev pub IsReopened : SyncRecord → SyncRecord → Type 0
  IsReopened r after =
      (after.status ≡ pending)
      × (after.last_error ≡ "")
      × (after.last_error_translation_key ≡ "")
      × (after.name ≡ r.name)
      × (after.company ≡ r.company)
      × (after.entity_doctype ≡ r.entity_doctype)
      × (after.entity_name ≡ r.entity_name)
      × (after.entity_type ≡ r.entity_type)
      × (after.direction ≡ r.direction)
      × (after.attempts ≡ r.attempts)
      × (after.correlation_id ≡ r.correlation_id)
      × (after.idempotency_key ≡ r.idempotency_key)
      × (after.ee_location_key ≡ r.ee_location_key)
      × (after.lines ≡ r.lines)
      × (after.lines_summary ≡ r.lines_summary)

  -- A retry that was accepted: the record waits for a job that the queue took for its document, or for a sweep since its
  -- kind has no handler; or nothing was enqueued and the record is as it was.
  abbrev pub Retried : SyncRecord → SyncRecord × Refired E → Type 0
  Retried r out =
      ((request : JobRequest) × (n : String) × (out.1 ≡ enqueued request n)
        × (site.enqueue request ≡ ok n)
        × (request.company ≡ r.company)
        × (request.target_doctype ≡ r.entity_doctype)
        × (request.target_name ≡ r.entity_name)
        × IsReopened r (out.0))
      ⊎ (((out.1 ≡ not_enqueued no_handler)
            × (refire_handlers site (r.entity_doctype) ≡ none)
            × IsReopened r (out.0))
          ⊎ ((reason : NotEnqueued E) × (out.1 ≡ not_enqueued reason)
              × (refire_handlers site (r.entity_doctype) ≢ none)
              × (out.0 ≡ r)))

  flipped-IsReopened : (r : SyncRecord) → IsReopened r (flipped site r)
  flipped-IsReopened r =
      (refl, refl, refl, refl, refl, refl, refl, refl, refl, refl, refl, refl, refl, refl, refl)

  retried :
      (r : SyncRecord) (o : Option (SyncRecord → Result E (Refired E)))
      → refire_handlers site (r.entity_doctype) ≡ o
      → AllHandle o
      → Retried r (
        if is_enqueued site (refire_by site o r) || not (is_registered site o)
            then flipped site r
            else r,
        refire_by site o r,
      )
  retried r none same handles = inr (inl (refl, same, flipped-IsReopened r))
  retried r (some handler) same handles =
      by_answer (caught site (handler r)) (handles r)
        (λ missing. elim (there (sym same ∙ missing)) [ ])
    where
      there : {h : SyncRecord → Result E (Refired E)} → some h ≢ none
      there same = cc

      by_answer :
          (refired : Refired E)
          → Answers r refired
          → refire_handlers site (r.entity_doctype) ≢ none
          → Retried r (if is_enqueued site refired || false then flipped site r else r, refired)
      by_answer (enqueued request n) (accepted, company, doctype, entity) registered =
          inl (request, n, refl, accepted, company, doctype, entity, flipped-IsReopened r)
      by_answer (not_enqueued reason) answers registered =
          inr (inr (reason, refl, registered, refl))

  -- A retry that is accepted is of a failed or a cancelled record. It leaves one of three: the queue took a job for the
  -- record's own document and company, and the record is pending with its errors cleared and all else kept; no handler is
  -- registered for its kind, and the record is pending all the same; or a handler is registered, nothing was enqueued, and
  -- the record is as it was.
  pub retry_now-Retried :
      (r : SyncRecord) {out : SyncRecord × Refired E}
      → retry_now site r ≡ ok out
      → ((r.status ≡ failed) ⊎ (r.status ≡ cancelled)) × Retried r out
  unfolding retry_now refire_pending_sync_record
  retry_now-Retried r returned =
      let (may, same) =
        passed_check (same_status (r.status) failed || same_status (r.status) cancelled) _
          returned in
      (
        retryable (r.status) may,
        subst (Retried r) (ok_injective same) (
            retried r (refire_handlers site (r.entity_doctype)) refl
              (refire_handlers-AllHandle (r.entity_doctype))),
      )
    where
      retryable :
          (s : SyncStatus)
          → same_status s failed || same_status s cancelled ≡ true
          → (s ≡ failed) ⊎ (s ≡ cancelled)
      retryable failed may = inl refl
      retryable cancelled may = inr refl
      retryable pending may = cc
      retryable SyncStatus.running may = cc
      retryable SyncStatus.success may = cc
      retryable SyncStatus.already_synced may = cc

  -- When a retry of a cancelled record is accepted and changes it, the record it leaves is one that a save would refuse: the
  -- state table has no way out of Cancelled, and the write of a retry does not consult it.
  pub retry_now-cancelled :
      (r : SyncRecord) {out : SyncRecord × Refired E}
      → r.status ≡ cancelled
      → out.0 ≢ r
      → retry_now site r ≡ ok out
      → (out.0.status ≡ pending)
        × (validate_status_transition (some r) (out.0) ≡ err (bad_transition cancelled pending))
  unfolding validate_status_transition
  retry_now-cancelled r {out} was changed returned = by_outcome ((retry_now-Retried r returned).1)
    where
      refused :
          IsReopened r (out.0)
          → (out.0.status ≡ pending)
            × (validate_status_transition (some r) (out.0) ≡ err (bad_transition cancelled pending))
      refused same = (same.0, rw (was, same.0) refl)

      by_outcome :
          Retried r out
          → (out.0.status ≡ pending)
            × (validate_status_transition (some r) (out.0) ≡ err (bad_transition cancelled pending))
      by_outcome (inl (request, n, took, accepted, company, doctype, entity, same)) = refused same
      by_outcome (inr (inl (none_there, missing, same))) = refused same
      by_outcome (inr (inr (reason, why, registered, same))) = elim (changed same) [ ]
