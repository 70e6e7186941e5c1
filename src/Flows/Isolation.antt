-- ===== src/Flows/Isolation.antt =====
-- ecommerce_super/easyecom/flows/_isolation.py: a batch whose records are handled under savepoints.
-- The database is its content, of any type, and the savepoints of the open transaction, the last one
-- first. The log entry about a callback that raises is not modelled.
pub mod Savepoints
pub mod Refinement
use ecommerce_super.Base.{
  ℕ, ◌+◌, String, Bool, true, false, ◌&&◌, ◌||◌, Option, none, some, List, [], ◌∷◌, leb, ◌==◌,
  str_eq, if◌then◌else◌, length, lookup, append, decimal, Result, ok, err,
}
use Prim.Native.Char.{code}

module _ {S : Type 0} where
  abbrev pub without : String → List (String × S) → List (String × S)
  without name [] = []
  without name ((n, s) ∷ saved) = if str_eq n name then saved else (n, s) ∷ without name saved

  -- The savepoints that a rollback to a name leaves: that one and the older ones.
  abbrev pub down_to : String → List (String × S) → List (String × S)
  down_to name [] = []
  down_to name ((n, s) ∷ saved) = if str_eq n name then (n, s) ∷ saved else down_to name saved

pub record Db (S : Type 0) : Type 0 where
  pub content : S
  pub savepoints : List (String × S)

-- SQL `SAVEPOINT name`: one of the same name is replaced.
unfoldable pub savepoint : {S : Type 0} → String → Db S → Db S
savepoint name db = record db { savepoints = (name, db.content) ∷ without name db.savepoints }

-- SQL `ROLLBACK TO SAVEPOINT name`; `none` is the error of a savepoint that does not exist.
unfoldable pub rolled : {S : Type 0} → String → Db S → Option S → Option (Db S)
rolled name db none = none
rolled name db (some s) = some (record { content = s; savepoints = down_to name db.savepoints })

unfoldable pub rollback : {S : Type 0} → String → Db S → Option (Db S)
unfolding rolled
rollback name db = rolled name db (lookup name db.savepoints)

-- A character that a savepoint name accepts.
abbrev pub is_safe : ℕ → Bool
is_safe c =
    (leb 65 c && leb c 90) || ((leb 97 c && leb c 122) || ((leb 48 c && leb c 57) || (c == 95)))

-- `_SAVEPOINT_SAFE_RE.sub("_", flow_name)`; the flag says that a run of unsafe characters goes on.
unfoldable pub sanitised : Bool → String → String
sanitised in_run String.[] = String.[]
sanitised true (String.◌∷◌ c s) =
    let kept = String.◌∷◌ c (sanitised false s) in
    let dropped = sanitised true s in if is_safe (code c) then kept else dropped
sanitised false (String.◌∷◌ c s) =
    let kept = String.◌∷◌ c (sanitised false s) in
    let replaced = append "_" (sanitised true s) in if is_safe (code c) then kept else replaced

unfoldable pub safe_flow : String → String
unfolding sanitised
safe_flow flow_name = let s = sanitised false flow_name in if str_eq s "" then "batch" else s

-- `f"sp_{safe_flow}_{idx}"`
unfoldable pub savepoint_name : String → ℕ → String
unfolding safe_flow
savepoint_name flow_name idx =
    append "sp_" (append (safe_flow flow_name) (append "_" (decimal idx)))

pub record BatchOutcome (R E : Type 0) : Type 0 where
  pub succeeded : List R
  pub failed : List (R × E)

unfoldable pub total : {R E : Type 0} → BatchOutcome R E → ℕ
total o = length o.succeeded + length o.failed

-- What a batch is called with. A callback changes the database even when it raises.
pub record Batch (S R E : Type 0) : Type 0 where
  pub handler : R → Db S → Db S × Option E
  pub on_failure : Option (R → E → Db S → Db S × Option E)
  pub flow_name : String
  pub missing_savepoint : E

module _ {S R E : Type 0} where
  abbrev pub add_success :
      R → Db S × Result E (BatchOutcome R E) → Db S × Result E (BatchOutcome R E)
  add_success r (db, err e) = (db, err e)
  add_success r (db, ok o) = (db, ok (record o { succeeded = r ∷ o.succeeded }))

  abbrev pub add_failure :
      R → E → Db S × Result E (BatchOutcome R E) → Db S × Result E (BatchOutcome R E)
  add_failure r e (db, err x) = (db, err x)
  add_failure r e (db, ok o) = (db, ok (record o { failed = (r, e) ∷ o.failed }))

  unfoldable pub report : Option (R → E → Db S → Db S × Option E) → R → E → Db S → Db S
  report none r e db = db
  report (some on_failure) r e db = (on_failure r e db).0

  -- The handler of a failed record, by what the rollback gave; `go` is the rest of the loop.
  unfoldable pub after_rollback :
      Batch S R E
      → R
      → E
      → Db S
      → Option (Db S)
      → (Db S → Db S × Result E (BatchOutcome R E))
      → Db S × Result E (BatchOutcome R E)
  unfolding report
  after_rollback b r e db none go = (db, err b.missing_savepoint)
  after_rollback b r e db (some back) go = add_failure r e (go (report b.on_failure r e back))

  unfoldable pub after_handler :
      Batch S R E
      → String
      → R
      → Db S × Option E
      → (Db S → Db S × Result E (BatchOutcome R E))
      → Db S × Result E (BatchOutcome R E)
  unfolding after_rollback rollback
  after_handler b name r (db, none) go = add_success r (go db)
  after_handler b name r (db, some e) go = after_rollback b r e db (rollback name db) go

  -- The loop, from an index on.
  unfoldable pub each_from : Batch S R E → ℕ → List R → Db S → Db S × Result E (BatchOutcome R E)
  unfolding after_handler savepoint savepoint_name
  each_from b idx [] db = (db, ok (record { succeeded = []; failed = [] }))
  each_from b idx (r ∷ rs) db =
      let name = savepoint_name b.flow_name idx in
      after_handler b name r (b.handler r (savepoint name db)) (each_from b (idx + 1) rs)

  unfoldable pub for_each_record : Batch S R E → List R → Db S → Db S × Result E (BatchOutcome R E)
  unfolding each_from
  for_each_record b records db = each_from b 0 records db
