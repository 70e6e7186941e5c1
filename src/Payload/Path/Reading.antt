-- ===== src/Payload/Path/Reading.antt =====
-- ecommerce_super/easyecom/utils/jsonpath.py: reading the values at a path. Python's `str` of a value is
-- an argument.
use ecommerce_super.Base.{
  String, Bool, false, Option, none, some, List, [], ◌∷◌, ◌++◌, map, str_eq, if◌then◌else◌, or_else,
}
use ecommerce_super.Payload.{
  Json, null, flag, number, text, array, dict, Items, no_items, item, Entries, no_entries, entry,
  get,
}
use ecommerce_super.Payload.Path.{
  Step, key, index, each, descend, unsupported, filter, step_of, split_segments, item_at,
}

abbrev pub to_list : Items → List Json
to_list no_items = []
to_list (item x xs) = x ∷ to_list xs

abbrev pub one : Option Json → List Json
one none = []
one (some v) = v ∷ []

-- `_walk_descendants`
unfoldable mutual
  pub descendants : Json → List Json
  descendants (array xs) = array xs ∷ items_descendants xs
  descendants (dict es) = dict es ∷ entries_descendants es
  descendants null = null ∷ []
  descendants (flag b) = flag b ∷ []
  descendants (number n) = number n ∷ []
  descendants (text s) = text s ∷ []

  pub items_descendants : Items → List Json
  items_descendants no_items = []
  items_descendants (item x xs) = descendants x ++ items_descendants xs

  pub entries_descendants : Entries → List Json
  entries_descendants no_entries = []
  entries_descendants (entry k v es) = descendants v ++ entries_descendants es

module _ (str_of : Json → String) where
  -- `isinstance(item, dict) and str(item.get(fkey)) == fval`
  abbrev pub matches : String → String → Json → Bool
  matches k v (dict es) = str_eq (str_of (or_else (get k es) null)) v
  matches k v _ = false

  unfoldable pub kept : String → String → List Json → List Json
  kept k v [] = []
  kept k v (x ∷ xs) = let rest = kept k v xs in if matches k v x then x ∷ rest else rest

  -- `_apply_segment` on one node; `none` is an unsupported bracket.
  unfoldable pub apply_step : Step → Json → Option (List Json)
  unfolding item_at descendants get kept
  apply_step descend node = some (descendants node)
  apply_step unsupported node = none
  apply_step (key k) (dict es) = some (one (get k es))
  apply_step (index n) (array xs) = some (one (item_at n xs))
  apply_step each (array xs) = some (to_list xs)
  apply_step (filter k v) (array xs) = some (kept k v (to_list xs))
  apply_step _ node = some []

  abbrev pub both : Option (List Json) → Option (List Json) → Option (List Json)
  both none o = none
  both (some xs) none = none
  both (some xs) (some ys) = some (xs ++ ys)

  unfoldable pub apply_segment : Step → List Json → Option (List Json)
  unfolding apply_step
  apply_segment s [] = some []
  apply_segment s (node ∷ nodes) = both (apply_step s node) (apply_segment s nodes)

  -- The loop of `get_path`, over the nodes that are left; without nodes it is over.
  unfoldable pub follow : List Step → Option (List Json) → Option (List Json)
  unfolding apply_segment
  follow _ none = none
  follow [] (some nodes) = some nodes
  follow (s ∷ steps) (some []) = some []
  follow (s ∷ steps) (some (node ∷ nodes)) = follow steps (apply_segment s (node ∷ nodes))

  unfoldable pub along : Json → Option (List String) → Option (List Json)
  unfolding follow step_of
  along payload none = none
  along payload (some segments) = follow (map step_of segments) (some (payload ∷ []))

  unfoldable pub get_path : Json → String → Option (List Json)
  unfolding along split_segments
  get_path payload path = along payload (split_segments path)
