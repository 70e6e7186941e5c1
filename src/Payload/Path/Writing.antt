-- ===== src/Payload/Path/Writing.antt =====
-- ecommerce_super/easyecom/field_mapping/path.py: writing a value at a path. A write that raises
-- half-way is an error without a result.
use ecommerce_super.Base.{
  ℕ, zero, suc, String, Option, none, some, List, [], ◌∷◌, map, str_eq, if◌then◌else◌,
}
use ecommerce_super.Payload.{
  Json, array, dict, Items, no_items, item, Entries, no_entries, entry, get,
}
use ecommerce_super.Payload.Path.{Step, key, index, step_of, split_segments, item_at}

-- `cur[k] = v` on a dict.
unfoldable pub put : String → Json → Entries → Entries
put k v no_entries = entry k v no_entries
put k v (entry j w es) =
    let rest = put k v es in if str_eq j k then entry j v es else entry j w rest

-- `cur[n] = v` on a list that `{}` fills up first.
unfoldable pub put_item : ℕ → Json → Items → Items
put_item zero v no_items = item v no_items
put_item zero v (item x xs) = item v xs
put_item (suc n) v no_items = item (dict no_entries) (put_item n v no_items)
put_item (suc n) v (item x xs) = item x (put_item n v xs)

-- What a step finds below, made into the container that the next step needs.
unfoldable pub container : Step → Option Json → Json
container (index n) (some (array xs)) = array xs
container (index n) _ = array no_items
container _ (some (dict es)) = dict es
container _ _ = dict no_entries

abbrev pub dict_in : Option Json → Json
dict_in (some (dict es)) = dict es
dict_in _ = dict no_entries

abbrev pub with_dict : String → Entries → Option Json → Option Json
with_dict k es none = none
with_dict k es (some v) = some (dict (put k v es))

abbrev pub with_array : ℕ → Items → Option Json → Option Json
with_array n xs none = none
with_array n xs (some v) = some (array (put_item n v xs))

-- The loop of `set_path` from a node on.
unfoldable pub set_steps : List Step → Json → Json → Option Json
unfolding put put_item container get item_at
set_steps [] cur value = some cur
set_steps (key k ∷ []) (dict es) value = some (dict (put k value es))
set_steps (key k ∷ s ∷ steps) (dict es) value =
    with_dict k es (set_steps (s ∷ steps) (container s (get k es)) value)
set_steps (index n ∷ []) (array xs) value = some (array (put_item n value xs))
set_steps (index n ∷ s ∷ steps) (array xs) value =
    with_array n xs (set_steps (s ∷ steps) (dict_in (item_at n xs)) value)
set_steps _ cur value = none

unfoldable pub set_path : Entries → String → Json → Option Json
unfolding set_steps split_segments step_of
set_path target path value = if str_eq path "" then none else elim (split_segments path) [
  | none ↦ none
  | some segments ↦ set_steps (map step_of segments) (dict target) value
]
