-- ===== src/Records/Unique.antt =====
-- easyecom_sync_record.py: one record per document and direction.
use mathlib.Core.Path.{subst}
use ecommerce_super.Base.{
  ◌≡◌, refl, sym, ap, ◌∙◌, String, Bool, true, false, ◌||◌, Option, none, some, List, [], ◌∷◌, ◌++◌,
  str_eq, eq_iff, eq_refl, arith, if◌then◌else◌, Result, ok, err, ◌>>=◌, first_returned,
  ok_injective,
}
use ecommerce_super.Records.{
  SyncRecord, SyncError, Entity, Initial, is_for, find_existing, new_sync_record, upsert_record,
  validate_sync_record, validate_status_transition, validate_company_not_changed, lines_summary,
}

abbrev pub entity_of : SyncRecord → Entity
entity_of r = record {
  company = r.company;
  entity_doctype = r.entity_doctype;
  entity_name = r.entity_name;
  direction = r.direction;
}

-- No two records are for the same document and direction.
abbrev pub Unique : List SyncRecord → Type 0
Unique [] = Unit
Unique (r ∷ records) = (find_existing (entity_of r) records ≡ none) × Unique records

is_for_sym : (a b : SyncRecord) → is_for (entity_of a) b ≡ false → is_for (entity_of b) a ≡ false
is_for_sym a b apart = ground (
  arith,
  eq_iff (a.company) (b.company),
  eq_iff (b.company) (a.company),
  eq_iff (a.entity_doctype) (b.entity_doctype),
  eq_iff (b.entity_doctype) (a.entity_doctype),
  eq_iff (a.entity_name) (b.entity_name),
  eq_iff (b.entity_name) (a.entity_name),
  eq_iff (a.direction) (b.direction),
  eq_iff (b.direction) (a.direction),
)

is_for_own : (r : SyncRecord) → is_for (entity_of r) r ≡ true
is_for_own r = ground (
  arith,
  eq_refl (r.company),
  eq_refl (r.entity_doctype),
  eq_refl (r.entity_name),
  eq_refl (r.direction),
)

find_existing-append_other :
    (e : Entity) (records : List SyncRecord) (r : SyncRecord)
    → is_for e r ≡ false
    → find_existing e records ≡ none
    → find_existing e (records ++ (r ∷ [])) ≡ none
unfolding find_existing
find_existing-append_other e [] r apart absent = rw (apart) refl
find_existing-append_other e (q ∷ records) r apart absent =
    by_test (is_for e q) absent (λ later. find_existing-append_other e records r apart later)
  where
    by_test :
        (t : Bool)
        → (if t then some q else find_existing e records) ≡ none
        → (find_existing e records ≡ none → find_existing e (records ++ (r ∷ [])) ≡ none)
        → (if t then some q else find_existing e (records ++ (r ∷ []))) ≡ none
    by_test true same later = cc
    by_test false same later = later same

find_existing-append_own :
    (e : Entity) (records : List SyncRecord) (r : SyncRecord)
    → is_for e r ≡ true
    → find_existing e records ≡ none
    → find_existing e (records ++ (r ∷ [])) ≡ some r
unfolding find_existing
find_existing-append_own e [] r own absent = rw (own) refl
find_existing-append_own e (q ∷ records) r own absent =
    by_test (is_for e q) absent (λ later. find_existing-append_own e records r own later)
  where
    by_test :
        (t : Bool)
        → (if t then some q else find_existing e records) ≡ none
        → (find_existing e records ≡ none → find_existing e (records ++ (r ∷ [])) ≡ some r)
        → (if t then some q else find_existing e (records ++ (r ∷ []))) ≡ some r
    by_test true same later = cc
    by_test false same later = later same

Unique-append :
    (records : List SyncRecord) (r : SyncRecord)
    → find_existing (entity_of r) records ≡ none
    → Unique records
    → Unique (records ++ (r ∷ []))
unfolding find_existing
Unique-append [] r absent unique = (refl, tt)
Unique-append (q ∷ records) r absent (once, unique) =
    by_test (is_for (entity_of r) q) refl absent (λ later. Unique-append records r later unique)
  where
    by_test :
        (t : Bool)
        → is_for (entity_of r) q ≡ t
        → (if t then some q else find_existing (entity_of r) records) ≡ none
        → (find_existing (entity_of r) records ≡ none → Unique (records ++ (r ∷ [])))
        → Unique (q ∷ (records ++ (r ∷ [])))
    by_test true apart same later = cc
    by_test false apart same later =
        (find_existing-append_other (entity_of q) records r (is_for_sym r q apart) once, later same)

module _ (doctype_exists : String → Bool) where
  validated_entity :
      (name : String) (e : Entity) (i : Initial) {r : SyncRecord}
      → validate_sync_record doctype_exists none (new_sync_record name e i) ≡ ok r
      → entity_of r ≡ e
  unfolding validate_sync_record validate_status_transition
  validated_entity name e i {r} checked =
      known (str_eq (e.entity_doctype) "" || doctype_exists (e.entity_doctype)) _
        (λ c. lines_summary (c.lines)) checked
    where
      known :
          (t : Bool) (raised : SyncError) (s : SyncRecord → String)
          → Path
              (Result SyncError SyncRecord)
              ((if t then ok (new_sync_record name e i) else err raised)
                >>= (λ c. validate_company_not_changed none c)
                >>= (λ c. ok (record c { lines_summary = s c })))
              (ok r)
          → entity_of r ≡ e
      known true raised s same = ap entity_of (sym (ok_injective same))
      known false raised s same = cc

  -- What an upsert leaves: one record per document and direction, among them the one it returned.
  abbrev pub Upserted : Entity → SyncRecord × List SyncRecord → Type 0
  Upserted e out =
      Unique (out.1)
      × (find_existing e (out.1) ≡ some (out.0))
      × ((name : String) (i : Initial) → upsert_record doctype_exists name e i (out.1) ≡ ok out)

  again :
      (e : Entity) (r : SyncRecord) (records : List SyncRecord)
      → find_existing e records ≡ some r
      → (name : String) (i : Initial)
      → upsert_record doctype_exists name e i records ≡ ok (r, records)
  unfolding upsert_record
  again e r records found name i = rw (upsert_record, found) refl

  inserted :
      (e : Entity) (records : List SyncRecord) (r : SyncRecord)
      → entity_of r ≡ e
      → find_existing e records ≡ none
      → Unique records
      → Upserted e (r, records ++ (r ∷ []))
  inserted e records r mine absent unique =
      let found =
        find_existing-append_own e records r (ap (λ f. is_for f r) (sym mine) ∙ is_for_own r)
          absent in
      (
        Unique-append records r (ap (λ f. find_existing f records) mine ∙ absent) unique,
        found,
        again e r (records ++ (r ∷ [])) found,
      )

  -- On records of which no two are for the same document and direction, an upsert that returns leaves such records too, the
  -- record it returned is the one that is found for its key, and any later upsert of that key, whatever else it is called
  -- with, returns the same record and changes nothing.
  pub upsert_record-Upserted :
      (name : String) (e : Entity) (i : Initial) (records : List SyncRecord)
      {out : SyncRecord × List SyncRecord}
      → Unique records
      → upsert_record doctype_exists name e i records ≡ ok out
      → Upserted e out
  unfolding upsert_record
  upsert_record-Upserted name e i records {out} unique returned =
      by_found (find_existing e records) refl returned
    where
      by_found :
          (o : Option SyncRecord)
          → find_existing e records ≡ o
          → Path
              (Result SyncError (SyncRecord × List SyncRecord))
              (elim o [
                | some r ↦ ok (r, records)
                | none ↦
                    validate_sync_record doctype_exists none (new_sync_record name e i)
                    >>= (λ r. ok (r, records ++ (r ∷ [])))
              ])
              (ok out)
          → Upserted e out
      by_found (some r) found same =
          subst (Upserted e) (ok_injective same) (unique, found, again e r records found)
      by_found none absent same =
          let (r, checked, rest) =
            first_returned (validate_sync_record doctype_exists none (new_sync_record name e i)) _
              same in
          subst (Upserted e) (ok_injective rest)
            (inserted e records r (validated_entity name e i checked) absent unique)
