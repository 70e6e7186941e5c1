-- ===== src/Flows/Isolation/Savepoints.antt =====
-- ecommerce_super/easyecom/flows/_isolation.py: what a savepoint and its rollback keep.
use ecommerce_super.Base.{String, ◌≡◌, refl, none, some, [], eq_refl, lookup}
use ecommerce_super.Flows.Isolation.{rolled, down_to, Db, savepoint, rollback}

module _ {S : Type 0} where
  pub savepoint-saved :
      (name : String) (db : Db S) → lookup name (savepoint name db).savepoints ≡ some db.content
  unfolding savepoint
  savepoint-saved name db = rw (lookup, eq_refl name) refl

  -- After a rollback the content is that of the savepoint.
  pub rollback-saved :
      (name : String) (db : Db S) (s : S)
      → lookup name db.savepoints ≡ some s
      → (back : Db S) × ((rollback name db ≡ some back) × (back.content ≡ s))
  unfolding rollback rolled
  rollback-saved name db s h =
      (record { content = s; savepoints = down_to name db.savepoints }, rw h (refl, refl))

  pub rollback_nothing : (name : String) (db : Db S) → db.savepoints ≡ [] → rollback name db ≡ none
  unfolding rollback rolled
  rollback_nothing name db h = rw h refl
