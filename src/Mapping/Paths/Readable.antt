-- ===== src/Mapping/Paths/Readable.antt =====
-- ecommerce_super/easyecom/field_mapping/path.py: paths that the check takes, in the reader of utils/jsonpath.py.
use ecommerce_super.Base.{
  String, ◌≡◌, refl, ap, ◌∙◌, true, Option, none, some, List, [], ◌∷◌, ◌++◌, map, str_eq, strip, ok,
  passed_guard, passed_check,
}
use ecommerce_super.Mapping.{empty_path, bad_path}
use ecommerce_super.Mapping.Paths.{
  valid_segment, check_segments, check_split, is_forbidden, validate_path,
}
use ecommerce_super.Mapping.Paths.Segments.{is_supported, step_of-supported}
use ecommerce_super.Payload.{Json, null, flag, number, text, array, dict, get}
use ecommerce_super.Payload.Path.{
  Step, key, index, each, descend, unsupported, filter, step_of, split_segments, item_at,
}
use ecommerce_super.Payload.Path.Reading.{
  one, to_list, descendants, kept, apply_step, both, apply_segment, follow, along, get_path,
}

-- A read that raises nothing.
abbrev IsRead : Option (List Json) → Type 0
IsRead found = (values : List Json) × (found ≡ some values)

module _ (str_of : Json → String) where
  apply_step-IsRead :
      (s : Step) (node : Json) → is_supported s ≡ true → IsRead (apply_step str_of s node)
  unfolding apply_step
  apply_step-IsRead unsupported node valid = cc
  apply_step-IsRead descend node valid = (descendants node, refl)
  apply_step-IsRead (key k) (null) valid = ([], refl)
  apply_step-IsRead (key k) (flag b) valid = ([], refl)
  apply_step-IsRead (key k) (number m) valid = ([], refl)
  apply_step-IsRead (key k) (text t) valid = ([], refl)
  apply_step-IsRead (key k) (array xs) valid = ([], refl)
  apply_step-IsRead (key k) (dict es) valid = (one (get k es), refl)
  apply_step-IsRead (index i) (null) valid = ([], refl)
  apply_step-IsRead (index i) (flag b) valid = ([], refl)
  apply_step-IsRead (index i) (number m) valid = ([], refl)
  apply_step-IsRead (index i) (text t) valid = ([], refl)
  apply_step-IsRead (index i) (array xs) valid = (one (item_at i xs), refl)
  apply_step-IsRead (index i) (dict es) valid = ([], refl)
  apply_step-IsRead each (null) valid = ([], refl)
  apply_step-IsRead each (flag b) valid = ([], refl)
  apply_step-IsRead each (number m) valid = ([], refl)
  apply_step-IsRead each (text t) valid = ([], refl)
  apply_step-IsRead each (array xs) valid = (to_list xs, refl)
  apply_step-IsRead each (dict es) valid = ([], refl)
  apply_step-IsRead (filter k w) (null) valid = ([], refl)
  apply_step-IsRead (filter k w) (flag b) valid = ([], refl)
  apply_step-IsRead (filter k w) (number m) valid = ([], refl)
  apply_step-IsRead (filter k w) (text t) valid = ([], refl)
  apply_step-IsRead (filter k w) (array xs) valid = (kept str_of k w (to_list xs), refl)
  apply_step-IsRead (filter k w) (dict es) valid = ([], refl)

  apply_segment-IsRead :
      (s : Step) (nodes : List Json) → is_supported s ≡ true → IsRead (apply_segment str_of s nodes)
  unfolding apply_segment
  apply_segment-IsRead s [] valid = ([], refl)
  apply_segment-IsRead s (node ∷ nodes) valid =
      let (xs, found) = apply_step-IsRead s node valid in
      let (ys, rest) = apply_segment-IsRead s nodes valid in
      (
        xs ++ ys,
        ap (λ o. both str_of o (apply_segment str_of s nodes)) found
            ∙ ap (both str_of (some xs)) rest,
      )

  follow-IsRead :
      (segments : List String) (o : Option (List Json))
      → IsRead o
      → check_segments segments ≡ ok tt
      → IsRead (follow str_of (map step_of segments) o)
  unfolding follow check_segments
  follow-IsRead segments none (values, found) valid = cc
  follow-IsRead [] (some nodes) read valid = (nodes, refl)
  follow-IsRead (s ∷ segments) (some []) read valid = ([], refl)
  follow-IsRead (s ∷ segments) (some (node ∷ nodes)) read valid =
      let (valid_here, rest) = passed_check (valid_segment s) bad_path valid in
      follow-IsRead segments (apply_segment str_of (step_of s) (node ∷ nodes))
        (apply_segment-IsRead (step_of s) (node ∷ nodes) (step_of-supported s valid_here)) rest

  along-IsRead :
      (payload : Json) (o : Option (List String))
      → check_split o ≡ ok tt
      → IsRead (along str_of payload o)
  unfolding along
  along-IsRead payload none valid = cc
  along-IsRead payload (some segments) valid =
      follow-IsRead segments (some (payload ∷ [])) (payload ∷ [], refl) valid

  -- A path that the compiler takes can be read in any payload: no segment of it is one that the reader
  -- refuses.
  pub get_path-validate_path :
      (path : String) (payload : Json)
      → validate_path path ≡ ok tt
      → (values : List Json) × (get_path str_of payload (strip path) ≡ some values)
  unfolding validate_path get_path
  get_path-validate_path path payload taken_path =
      let checked =
        passed_guard (is_forbidden (strip path)) bad_path
          (passed_guard (str_eq (strip path) "") empty_path taken_path) in
      along-IsRead payload (split_segments (strip path)) checked
