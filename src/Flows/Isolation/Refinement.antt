-- ===== src/Flows/Isolation/Refinement.antt =====
-- ecommerce_super/easyecom/flows/_isolation.py: what a batch does to the data, record by record.
use ecommerce_super.Base.{
  ℕ, ◌+◌, String, ◌≡◌, refl, ap, ◌∙◌, Option, none, some, List, [], ◌∷◌, map, lookup, Result, ok,
  err,
}
use ecommerce_super.Flows.Isolation.{
  Db, savepoint, rollback, savepoint_name, BatchOutcome, Batch, add_success, add_failure, report,
  after_rollback, after_handler, each_from, for_each_record,
}
use mathlib.Core.Path.{subst}
use ecommerce_super.Flows.Isolation.Savepoints.{savepoint-saved, rollback-saved, rollback_nothing}

-- What the callbacks do to the content alone.
pub record Effects (S R E : Type 0) : Type 0 where
  pub act : R → S → S × Option E
  pub fail : R → E → S → S

module _ {S R E : Type 0} where
  abbrev pub one_more : R → S × BatchOutcome R E → S × BatchOutcome R E
  one_more r (s, o) = (s, record o { succeeded = r ∷ o.succeeded })

  abbrev pub one_failed : R → E → S × BatchOutcome R E → S × BatchOutcome R E
  one_failed r e (s, o) = (s, record o { failed = (r, e) ∷ o.failed })

  abbrev pub isolated_after :
      Effects S R E → R → S → S × Option E → (S → S × BatchOutcome R E) → S × BatchOutcome R E
  isolated_after x r s (t, none) go = one_more r (go t)
  isolated_after x r s (t, some e) go = one_failed r e (go (x.fail r e s))

  -- The records in order, on the content alone: a record that fails leaves what it was given, with
  -- what the report of the failure adds.
  unfoldable pub isolated : Effects S R E → List R → S → S × BatchOutcome R E
  isolated x [] s = (s, record { succeeded = []; failed = [] })
  isolated x (r ∷ rs) s = isolated_after x r s (x.act r s) (isolated x rs)

  -- The callbacks of a batch do what the effects say, and the handler leaves every savepoint.
  pub record Follows (b : Batch S R E) (x : Effects S R E) : Type 0 where
    pub handled : (r : R) (db : Db S) → (b.handler r db).0.content ≡ (x.act r db.content).0
    pub raised : (r : R) (db : Db S) → (b.handler r db).1 ≡ (x.act r db.content).1
    pub kept :
        (r : R) (name : String) (db : Db S)
        → lookup name (b.handler r db).0.savepoints ≡ lookup name db.savepoints
    pub reported :
        (r : R) (e : E) (db : Db S) → (report b.on_failure r e db).content ≡ x.fail r e db.content

  -- A run on the database agrees with a run on the content.
  abbrev pub Agrees : Db S × Result E (BatchOutcome R E) → S × BatchOutcome R E → Type 0
  Agrees (db, result) (s, o) = (db.content ≡ s) × (result ≡ ok o)

  success-Agrees :
      (r : R) (run : Db S × Result E (BatchOutcome R E)) (spec : S × BatchOutcome R E)
      → Agrees run spec
      → Agrees (add_success r run) (one_more r spec)
  success-Agrees r (db, err e) spec h = absurd (cc h.1)
  success-Agrees r (db, ok o) (s, p) h = (h.0, cc h.1)

  failure-Agrees :
      (r : R) (e : E) (run : Db S × Result E (BatchOutcome R E)) (spec : S × BatchOutcome R E)
      → Agrees run spec
      → Agrees (add_failure r e run) (one_failed r e spec)
  failure-Agrees r e (db, err x) spec h = absurd (cc h.1)
  failure-Agrees r e (db, ok o) (s, p) h = (h.0, cc h.1)

  -- One record: the rest of the batch runs on the content that its turn leaves.
  turn-Agrees :
      (b : Batch S R E) (x : Effects S R E) (name : String) (r : R) (s : S)
      (go : Db S → Db S × Result E (BatchOutcome R E)) (spec : S → S × BatchOutcome R E)
      → Follows b x
      → ((d : Db S) → Agrees (go d) (spec d.content))
      → (a : Db S × Option E) (y : S × Option E) → a.0.content ≡ y.0
      → a.1 ≡ y.1
      → lookup name a.0.savepoints ≡ some s
      → Agrees (after_handler b name r a go) (isolated_after x r s y spec)
  unfolding after_handler after_rollback
  turn-Agrees b x name r s go spec f rest (d, none) (t, none) q o saved =
      subst (λ u. Agrees (add_success r (go d)) (one_more r (spec u))) q
        (success-Agrees r (go d) (spec d.content) (rest d))
  turn-Agrees b x name r s go spec f rest (d, some e) (t, some e') q o saved =
      let (back, (rolled, same)) = rollback-saved name d s saved in
      let after = report b.on_failure r e back in
      let left : after.content ≡ x.fail r e s = f.reported r e back ∙ ap (x.fail r e) same in
      let e≡e' : e ≡ e' = cc o in
      rw (rolled, ← e≡e')
        (subst (λ u. Agrees (add_failure r e (go after)) (one_failed r e (spec u))) left
          (failure-Agrees r e (go after) (spec after.content) (rest after)))
  turn-Agrees b x name r s go spec f rest (d, none) (t, some e) q o saved = absurd (cc o)
  turn-Agrees b x name r s go spec f rest (d, some e) (t, none) q o saved = absurd (cc o)

  each_from-Agrees :
      (b : Batch S R E) (x : Effects S R E) (idx : ℕ) (rs : List R) (db : Db S)
      → Follows b x
      → Agrees (each_from b idx rs db) (isolated x rs db.content)
  unfolding each_from isolated
  each_from-Agrees b x idx [] db f = (refl, refl)
  each_from-Agrees b x idx (r ∷ rs) db f =
      let name = savepoint_name b.flow_name idx in
      let marked = savepoint name db in
      turn-Agrees b x name r db.content (each_from b (idx + 1) rs) (isolated x rs) f
        (λ d. each_from-Agrees b x (idx + 1) rs d f) (b.handler r marked) (x.act r db.content)
        (f.handled r marked) (f.raised r marked) (f.kept r name marked ∙ savepoint-saved name db)

  -- A batch whose handler leaves the savepoints alone returns, and does to the database what the
  -- records do one by one when a record that fails is as if it had not been handled.
  pub for_each_record-Agrees :
      (b : Batch S R E) (x : Effects S R E) (records : List R) (db : Db S)
      → Follows b x
      → ((for_each_record b records db).0.content ≡ (isolated x records db.content).0)
        × ((for_each_record b records db).1 ≡ ok (isolated x records db.content).1)
  unfolding for_each_record
  for_each_record-Agrees b x records db f = each_from-Agrees b x 0 records db f

  turn_ended :
      (b : Batch S R E) (name : String) (r : R) (e : E) (a : Db S × Option E)
      (go : Db S → Db S × Result E (BatchOutcome R E))
      → a.0.savepoints ≡ []
      → a.1 ≡ some e
      → (after_handler b name r a go).1 ≡ err b.missing_savepoint
  unfolding after_handler after_rollback
  turn_ended b name r e (d, none) go q o = absurd (cc o)
  turn_ended b name r e (d, some x) go q o = rw (rollback_nothing name d q) refl

  -- A handler that commits, which ends every savepoint, and then raises ends the whole batch: no later
  -- record is handled, and no outcome is returned.
  pub for_each_record_committed :
      (b : Batch S R E) (r : R) (rs : List R) (db : Db S) (e : E)
      → ((d : Db S) → ((b.handler r d).0.savepoints ≡ []) × ((b.handler r d).1 ≡ some e))
      → (for_each_record b (r ∷ rs) db).1 ≡ err b.missing_savepoint
  unfolding for_each_record each_from
  for_each_record_committed b r rs db e h =
      let name = savepoint_name b.flow_name 0 in
      let marked = savepoint name db in
      turn_ended b name r e (b.handler r marked) (each_from b 1 rs) (h marked).0 (h marked).1

-- One list is the other two merged, each in its order.
pub data Merge {R : Type 0} : List R → List R → List R → Type 0 where
  nothing : Merge [] [] []
  left : {r : R} {xs ys zs : List R} → Merge xs ys zs → Merge (r ∷ xs) ys (r ∷ zs)
  right : {r : R} {xs ys zs : List R} → Merge xs ys zs → Merge xs (r ∷ ys) (r ∷ zs)

abbrev pub IsSplit : {R E : Type 0} → List R → Result E (BatchOutcome R E) → Type 0
IsSplit records (err e) = Unit
IsSplit records (ok o) = Merge o.succeeded (map (λ f. f.0) o.failed) records

module _ {S R E : Type 0} where
  success-IsSplit :
      (r : R) (rs : List R) (run : Db S × Result E (BatchOutcome R E))
      → IsSplit rs run.1
      → IsSplit (r ∷ rs) (add_success r run).1
  success-IsSplit r rs (db, err e) m = tt
  success-IsSplit r rs (db, ok o) m = left m

  failure-IsSplit :
      (r : R) (rs : List R) (e : E) (run : Db S × Result E (BatchOutcome R E))
      → IsSplit rs run.1
      → IsSplit (r ∷ rs) (add_failure r e run).1
  failure-IsSplit r rs e (db, err x) m = tt
  failure-IsSplit r rs e (db, ok o) m = right m

  rollback-IsSplit :
      (b : Batch S R E) (r : R) (rs : List R) (e : E) (db : Db S) (back : Option (Db S))
      (go : Db S → Db S × Result E (BatchOutcome R E))
      → ((d : Db S) → IsSplit rs (go d).1)
      → IsSplit (r ∷ rs) (after_rollback b r e db back go).1
  unfolding after_rollback
  rollback-IsSplit b r rs e db none go h = tt
  rollback-IsSplit b r rs e db (some back) go h = failure-IsSplit r rs e (go _) (h _)

  turn-IsSplit :
      (b : Batch S R E) (name : String) (r : R) (rs : List R) (a : Db S × Option E)
      (go : Db S → Db S × Result E (BatchOutcome R E))
      → ((d : Db S) → IsSplit rs (go d).1)
      → IsSplit (r ∷ rs) (after_handler b name r a go).1
  unfolding after_handler
  turn-IsSplit b name r rs (db, none) go h = success-IsSplit r rs (go db) (h db)
  turn-IsSplit b name r rs (db, some e) go h = rollback-IsSplit b r rs e db (rollback name db) go h

  each_from-IsSplit :
      (b : Batch S R E) (idx : ℕ) (rs : List R) (db : Db S) → IsSplit rs (each_from b idx rs db).1
  unfolding each_from
  each_from-IsSplit b idx [] db = nothing
  each_from-IsSplit b idx (r ∷ rs) db =
      turn-IsSplit b (savepoint_name b.flow_name idx) r rs
        (b.handler r (savepoint (savepoint_name b.flow_name idx) db)) (each_from b (idx + 1) rs)
        (λ d. each_from-IsSplit b (idx + 1) rs d)

  -- Whatever the callbacks do, a batch that returns lists every record once, as succeeded or as failed,
  -- each list in the order of the records.
  pub for_each_record-IsSplit :
      (b : Batch S R E) (records : List R) (db : Db S)
      → IsSplit records (for_each_record b records db).1
  unfolding for_each_record
  for_each_record-IsSplit b records db = each_from-IsSplit b 0 records db
