-- ===== src/Records.antt =====
-- ecommerce_super/easyecom/doctype/easyecom_sync_record/easyecom_sync_record.py: the record of what was last done for a
-- document in a direction, its state table, what a save checks, and the one record per document and direction.
pub mod Refire
pub mod Retries
pub mod Unique
use ecommerce_super.Base.{
  ℕ, zero, suc, String, Bool, true, false, ◌&&◌, ◌||◌, not, Option, none, some, List, [], ◌∷◌, ◌++◌,
  str_eq, if◌then◌else◌, length, ◌==◌, append, decimal, strip, Result, ok, err, ◌>>=◌, or_else,
}

pub data SyncStatus : Type 0 where
  pending running success failed cancelled already_synced : SyncStatus

-- The row; an empty column is the empty text. `lines` are the outcomes of its lines.
pub record SyncRecord : Type 0 where
  pub name : String
  pub company : String
  pub entity_doctype : String
  pub entity_name : String
  pub entity_type : String
  pub direction : String
  pub status : SyncStatus
  pub attempts : ℕ
  pub correlation_id : String
  pub idempotency_key : String
  pub ee_location_key : String
  pub last_error : String
  pub last_error_translation_key : String
  pub lines : List String
  pub lines_summary : String

-- ALLOWED_TRANSITIONS
unfoldable pub sync_transitions : SyncStatus → List SyncStatus
sync_transitions pending = running ∷ cancelled ∷ already_synced ∷ []
sync_transitions running = success ∷ failed ∷ pending ∷ []
sync_transitions failed = pending ∷ cancelled ∷ []
sync_transitions success = []
sync_transitions cancelled = []
sync_transitions already_synced = pending ∷ []

abbrev pub same_status : SyncStatus → SyncStatus → Bool
same_status pending pending = true
same_status running running = true
same_status success success = true
same_status failed failed = true
same_status cancelled cancelled = true
same_status already_synced already_synced = true
same_status _ _ = false

abbrev pub has_status : SyncStatus → List SyncStatus → Bool
has_status s [] = false
has_status s (t ∷ ts) = same_status t s || has_status s ts

pub data SyncError : Type 0 where
  unknown_doctype : (entity_doctype : String) → SyncError
  bad_transition : (prior next : SyncStatus) → SyncError
  company_changed : SyncError
  not_retryable : (status : SyncStatus) → SyncError

-- How many lines have an outcome.
abbrev pub count_lines : String → List String → ℕ
count_lines outcome [] = 0
count_lines outcome (l ∷ lines) =
    let rest = count_lines outcome lines in if str_eq (strip l) outcome then suc rest else rest

abbrev pub part_of : ℕ → String → String
part_of zero label = ""
part_of (suc n) label = append (append " · " (decimal (suc n))) label

-- `_recompute_lines_summary`
unfoldable pub lines_summary : List String → String
unfolding decimal strip
lines_summary [] = ""
lines_summary (l ∷ lines) =
    append
      (append (append (decimal (count_lines "OK" (l ∷ lines))) "/")
        (append (decimal (length (l ∷ lines))) " OK"))
      (append (part_of (count_lines "Failed" (l ∷ lines)) " Failed")
        (part_of (count_lines "Discrepancy" (l ∷ lines)) " Discrepancy"))

-- `prior` is the record before the save, and `none` for a new one.
unfoldable pub validate_status_transition :
    Option SyncRecord → SyncRecord → Result SyncError SyncRecord
unfolding sync_transitions
validate_status_transition none r = ok r
validate_status_transition (some prior) r =
    if same_status (prior.status) (r.status)
      || has_status (r.status) (sync_transitions (prior.status))
    then ok r
    else err (bad_transition (prior.status) (r.status))

abbrev pub validate_company_not_changed :
    Option SyncRecord → SyncRecord → Result SyncError SyncRecord
validate_company_not_changed none r = ok r
validate_company_not_changed (some prior) r =
    if str_eq (prior.company) (r.company) then ok r else err company_changed

-- `doctype_exists` is whether Frappe knows a DocType.
unfoldable pub validate_sync_record :
    (doctype_exists : String → Bool) → Option SyncRecord → SyncRecord → Result SyncError SyncRecord
unfolding validate_status_transition lines_summary
validate_sync_record doctype_exists prior r =
    (if str_eq (r.entity_doctype) "" || doctype_exists (r.entity_doctype)
      then validate_status_transition prior r
      else err (unknown_doctype (r.entity_doctype)))
    >>= (λ checked. validate_company_not_changed prior checked)
    >>= (λ checked. ok (record checked { lines_summary = lines_summary (checked.lines) }))

-- The columns of the composite key.
pub record Entity : Type 0 where
  pub company : String
  pub entity_doctype : String
  pub entity_name : String
  pub direction : String

abbrev pub is_for : Entity → SyncRecord → Bool
is_for e r =
    str_eq (r.company) (e.company)
    && str_eq (r.entity_doctype) (e.entity_doctype)
    && str_eq (r.entity_name) (e.entity_name)
    && str_eq (r.direction) (e.direction)

unfoldable pub find_existing : Entity → List SyncRecord → Option SyncRecord
find_existing e [] = none
find_existing e (r ∷ records) = if is_for e r then some r else find_existing e records

-- The other columns that `upsert` is called with; `extra` is left out.
pub record Initial : Type 0 where
  pub entity_type : String
  pub correlation_id : String
  pub idempotency_key : String
  pub ee_location_key : String
  pub status : SyncStatus

abbrev pub new_sync_record : String → Entity → Initial → SyncRecord
new_sync_record name e i = record {
  name = name;
  company = e.company;
  entity_doctype = e.entity_doctype;
  entity_name = e.entity_name;
  entity_type = i.entity_type;
  direction = e.direction;
  status = i.status;
  attempts = 0;
  correlation_id = i.correlation_id;
  idempotency_key = i.idempotency_key;
  ee_location_key = i.ee_location_key;
  last_error = "";
  last_error_translation_key = "";
  lines = [];
  lines_summary = "";
}

-- `name` is what Frappe names a new record; an insert validates it.
unfoldable pub upsert_record :
    (doctype_exists : String → Bool) (name : String)
    → Entity
    → Initial
    → List SyncRecord
    → Result SyncError (SyncRecord × List SyncRecord)
unfolding find_existing validate_sync_record
upsert_record doctype_exists name e i records = elim (find_existing e records) [
  | some r ↦ ok (r, records)
  | none ↦
      validate_sync_record doctype_exists none (new_sync_record name e i)
      >>= (λ r. ok (r, records ++ (r ∷ [])))
]
