-- ===== src/Payload/Path/RoundTrip.antt =====
-- ecommerce_super/easyecom/field_mapping/path.py: what was written at a path is read there.
use ecommerce_super.Base.{
  ℕ, zero, suc, String, ◌≡◌, refl, ◌∙◌, ◌≢◌, inl, inr, true, false, Option, none, some, List, [],
  ◌∷◌, map, arith, eq_iff, eq_refl, str_eq, Bool-cases,
}
use ecommerce_super.Payload.{
  Json, array, dict, Items, no_items, item, Entries, no_entries, entry, get,
}
use ecommerce_super.Payload.Path.{Step, key, index, step_of, split_segments, item_at}
use ecommerce_super.Payload.Path.Reading.{apply_step, apply_segment, follow, get_path}
use ecommerce_super.Payload.Path.Writing.{
  with_dict, put, put_item, container, dict_in, set_steps, set_path,
}

-- The steps that `set_path` accepts: keys, each followed by one index at most, the first a key.
pub data IsWritable : List Step → Type 0 where
  at_key : (k : String) → IsWritable (key k ∷ [])
  at_index : (k : String) (n : ℕ) → IsWritable (key k ∷ index n ∷ [])
  through_key :
      (k j : String) {steps : List Step}
      → IsWritable (key j ∷ steps)
      → IsWritable (key k ∷ key j ∷ steps)
  through_index :
      (k : String) (n : ℕ) (j : String) {steps : List Step}
      → IsWritable (key j ∷ steps)
      → IsWritable (key k ∷ index n ∷ key j ∷ steps)

get-put : (k : String) (v : Json) (es : Entries) → get k (put k v es) ≡ some v
unfolding get put
get-put k v no_entries = simp eq_refl
get-put k v (entry j w es) = elim (Bool-cases (str_eq j k)) [
  | inl e ↦ rw (e, e) refl
  | inr e ↦ rw (e, e) (get-put k v es)
]

pub get-put_other : (j k : String) (v : Json) (es : Entries) → j ≢ k → get j (put k v es) ≡ get j es
unfolding get put
get-put_other j k v no_entries h =
    let off : str_eq k j ≡ false = ground (arith, eq_iff k j) in rw off refl
get-put_other j k v (entry i w es) h = elim (Bool-cases (str_eq i k)) [
  | inl e ↦
      let off : str_eq i j ≡ false = ground (arith, eq_iff i k, eq_iff i j) in rw (e, off) refl
  | inr e ↦ rw (e, get-put_other j k v es h) refl
]

item_at-put_item : (n : ℕ) (v : Json) (xs : Items) → item_at n (put_item n v xs) ≡ some v
unfolding item_at put_item
item_at-put_item zero v no_items = refl
item_at-put_item zero v (item x xs) = refl
item_at-put_item (suc n) v no_items = item_at-put_item n v no_items
item_at-put_item (suc n) v (item x xs) = item_at-put_item n v xs

dict_below : (j : String) (o : Option Json) → (es : Entries) × (container (key j) o ≡ dict es)
unfolding container
dict_below j none = (no_entries, refl)
dict_below j (some (dict es)) = (es, refl)
dict_below j (some _) = (no_entries, refl)

list_below : (n : ℕ) (o : Option Json) → (xs : Items) × (container (index n) o ≡ array xs)
unfolding container
list_below n none = (no_items, refl)
list_below n (some (array xs)) = (xs, refl)
list_below n (some _) = (no_items, refl)

dict_found : (o : Option Json) → (es : Entries) × (dict_in o ≡ dict es)
dict_found none = (no_entries, refl)
dict_found (some (dict es)) = (es, refl)
dict_found (some _) = (no_entries, refl)

writable_some : {steps : List Step} → IsWritable steps → steps ≢ []
writable_some (at_key k) e = cc
writable_some (at_index k n) e = cc
writable_some (through_key k j w) e = cc
writable_some (through_index k n j w) e = cc

no_steps :
    (path : String) (segments : List String)
    → str_eq path "" ≡ true
    → split_segments path ≡ some segments
    → IsWritable (map step_of segments)
    → ⊥
unfolding split_segments
no_steps path segments e q w =
    let empty : path ≡ "" = ground (arith, eq_iff path "") in
    let none_left : segments ≡ [] = cc (rw empty at q) in writable_some (rw none_left at w) refl

with_dict-some :
    (k : String) (es t : Entries) (o : Option Json)
    → with_dict k es o ≡ some (dict t)
    → (v : Json) × (t ≡ put k v es)
with_dict-some k es t none h = absurd (cc h)
with_dict-some k es t (some v) h = (v, cc h)

set_steps-put :
    (k : String) (steps : List Step) (target t : Entries) (v : Json)
    → set_steps (key k ∷ steps) (dict target) v ≡ some (dict t)
    → (x : Json) × (t ≡ put k x target)
unfolding set_steps
set_steps-put k [] target t v h = (v, cc h)
set_steps-put k (s ∷ steps) target t v h = with_dict-some k target t _ h

module _ (str_of : Json → String) where
  follow-key :
      (k : String) (steps : List Step) (v : Json) (es : Entries)
      → get k es ≡ some v
      → follow str_of (key k ∷ steps) (some (dict es ∷ [])) ≡ follow str_of steps (some (v ∷ []))
  unfolding follow apply_segment apply_step
  follow-key k steps v es h = rw h refl

  follow-index :
      (n : ℕ) (steps : List Step) (v : Json) (xs : Items)
      → item_at n xs ≡ some v
      → follow str_of (index n ∷ steps) (some (array xs ∷ [])) ≡ follow str_of steps (some (v ∷ []))
  unfolding follow apply_segment apply_step
  follow-index n steps v xs h = rw h refl

  follow_end : (nodes : List Json) → follow str_of [] (some nodes) ≡ some nodes
  unfolding follow
  follow_end nodes = refl

  written :
      {steps : List Step} (w : IsWritable steps) (es : Entries) (v : Json)
      → (t : Entries) × ((set_steps steps (dict es) v ≡ some (dict t))
          × (follow str_of steps (some (dict t ∷ [])) ≡ some (v ∷ [])))
  unfolding set_steps
  written (at_key k) es v =
      (put k v es, (refl, follow-key k [] v (put k v es) (get-put k v es) ∙ follow_end _))
  written (at_index k n) es v =
      let (xs, e) = list_below n (get k es) in
      let ys = put_item n v xs in
      let t = put k (array ys) es in
      (
        t,
        (
          rw e refl,
          follow-key k _ (array ys) t (get-put k (array ys) es)
              ∙ follow-index n [] v ys (item_at-put_item n v xs)
              ∙ follow_end _,
        ),
      )
  written (through_key k j w) es v =
      let (c, e) = dict_below j (get k es) in
      let (u, (q, r)) = written w c v in
      let t = put k (dict u) es in
      (t, (rw (e, q) refl, follow-key k _ (dict u) t (get-put k (dict u) es) ∙ r))
  written (through_index k n j w) es v =
      let (xs, e) = list_below n (get k es) in
      let (c, d) = dict_found (item_at n xs) in
      let (u, (q, r)) = written w c v in
      let ys = put_item n (dict u) xs in
      let t = put k (array ys) es in
      (
        t,
        (
          rw (e, d, q) refl,
          follow-key k _ (array ys) t (get-put k (array ys) es)
              ∙ follow-index n _ (dict u) ys (item_at-put_item n (dict u) xs)
              ∙ r,
        ),
      )

  -- Where a path splits into keys, each followed by one index at most, `set_path` succeeds on every
  -- dict, and `get_path` then finds at the path the value that was written, and nothing else.
  pub get_path-set_path :
      (path : String) (segments : List String) (target : Entries) (v : Json)
      → split_segments path ≡ some segments
      → IsWritable (map step_of segments)
      → (t : Entries) × ((set_path target path v ≡ some (dict t))
          × (get_path str_of (dict t) path ≡ some (v ∷ [])))
  unfolding get_path set_path
  get_path-set_path path segments target v q w = elim (Bool-cases (str_eq path "")) [
    | inl e ↦ absurd (no_steps path segments e q w)
    | inr e ↦
        let (t, (set, got)) = written w target v in
        (t, (rw (e, q, set) refl, rw (get_path, q, got) refl))
  ]

-- The loop of `set_path`, where it succeeds, leaves every key of the dict as it was but the first
-- one of the path.
pub set_steps-others :
    (k j : String) (steps : List Step) (target t : Entries) (v : Json)
    → set_steps (key k ∷ steps) (dict target) v ≡ some (dict t)
    → j ≢ k
    → get j t ≡ get j target
set_steps-others k j steps target t v h other =
    let (x, e) = set_steps-put k steps target t v h in rw e (get-put_other j k x target other)
