-- ===== src/Tests/Flows.antt =====
-- ecommerce_super/easyecom/flows: tests.
use ecommerce_super.Base.{
  ℕ, String, ◌≡◌, refl, Option, none, some, List, [], ◌∷◌, ltb, if◌then◌else◌, decimal, ok, err,
}
use ecommerce_super.Flows.Isolation.{
  Db, Batch, BatchOutcome, for_each_record, safe_flow, savepoint_name,
}
use ecommerce_super.Flows.Isolation.Refinement.{
  Effects, Follows, isolated, for_each_record-Agrees, for_each_record_committed, IsSplit,
  for_each_record-IsSplit,
}

-- A handler that writes its record, and raises on those above 5.
abbrev write : ℕ → Db (List ℕ) → Db (List ℕ) × Option String
write r db = (record db { content = r ∷ db.content }, if ltb 5 r then some "too big" else none)

abbrev note : ℕ → String → Db (List ℕ) → Db (List ℕ) × Option String
note r e db = (record db { content = 0 ∷ db.content }, none)

abbrev batch : Batch (List ℕ) ℕ String
batch = record {
  handler = write;
  on_failure = some note;
  flow_name = "item-pull";
  missing_savepoint = "SAVEPOINT does not exist";
}

abbrev effects : Effects (List ℕ) ℕ String
effects = record {
  act = λ r s. (r ∷ s, if ltb 5 r then some "too big" else none);
  fail = λ r e s. 0 ∷ s;
}

abbrev empty_db : Db (List ℕ)
empty_db = record { content = []; savepoints = [] }

flow_names : (safe_flow "item-pull v2" ≡ "item_pull_v2") × (safe_flow "" ≡ "batch")
unfolding safe_flow
flow_names = (refl, refl)

-- The record 9 fails: its own write is gone, the note about it stays.
three_records : (for_each_record batch (1 ∷ 9 ∷ 2 ∷ []) empty_db).0.content ≡ 2 ∷ 0 ∷ 1 ∷ []
unfolding for_each_record decimal
three_records = refl

follows : Follows batch effects
unfolding ecommerce_super.Flows.Isolation.report
follows = record {
  handled = λ r db. refl;
  raised = λ r db. refl;
  kept = λ r name db. refl;
  reported = λ r e db. refl;
}

for_each_record-Agrees_example :
    ((for_each_record batch (1 ∷ 9 ∷ 2 ∷ []) empty_db).0.content
      ≡ (isolated effects (1 ∷ 9 ∷ 2 ∷ []) []).0)
    × ((for_each_record batch (1 ∷ 9 ∷ 2 ∷ []) empty_db).1
        ≡ ok (isolated effects (1 ∷ 9 ∷ 2 ∷ []) []).1)
for_each_record-Agrees_example =
    for_each_record-Agrees batch effects (1 ∷ 9 ∷ 2 ∷ []) empty_db follows

for_each_record-IsSplit_test :
    IsSplit (1 ∷ 9 ∷ 2 ∷ []) (for_each_record batch (1 ∷ 9 ∷ 2 ∷ []) empty_db).1
for_each_record-IsSplit_test = for_each_record-IsSplit batch (1 ∷ 9 ∷ 2 ∷ []) empty_db

abbrev committing : Batch (List ℕ) ℕ String
committing = record batch {
  handler = λ r db. (record { content = r ∷ db.content; savepoints = [] }, some "down");
}

for_each_record_committed_test :
    (for_each_record committing (1 ∷ 2 ∷ []) empty_db).1 ≡ err "SAVEPOINT does not exist"
for_each_record_committed_test =
    for_each_record_committed committing 1 (2 ∷ []) empty_db "down" (λ d. (refl, refl))
