-- ===== src/Mapping/Paths.antt =====
-- ecommerce_super/easyecom/field_mapping/path.py: the check of a path when a mapping is compiled.
pub mod Filters
pub mod Segments
pub mod Readable
use ecommerce_super.Base.{
  ℕ, lstrip, String, Bool, true, false, ◌&&◌, ◌||◌, not, Option, none, some, List, [], ◌∷◌, ◌==◌,
  str_eq, if◌then◌else◌, strip, starts_with, contains, Result, ok, err,
}
use ecommerce_super.Mapping.{Fault, empty_path, bad_path}
use ecommerce_super.Payload.Path.{split_segments, is_word, is_digit, is_blank}
use Prim.Native.Char.{code}

-- `\[\?\s*@|\[\?\s*\(` at the start of a text.
abbrev pub opens_script : String → Bool
opens_script (String.◌∷◌ a (String.◌∷◌ b s)) =
    code a == 91 && code b == 63 && (starts_with "@" (lstrip s) || starts_with "(" (lstrip s))
opens_script _ = false

unfoldable pub has_script : String → Bool
has_script String.[] = false
has_script (String.◌∷◌ c s) = let later = has_script s in opens_script (String.◌∷◌ c s) || later

-- `_FORBIDDEN_PATTERNS`
unfoldable pub is_forbidden : String → Bool
unfolding contains has_script
is_forbidden p =
    contains "$." p
    || contains "$[" p
    || (contains "@." p || contains "@[" p)
    || (has_script p || contains ".*." p)

-- The rest of a plain key, `(?:[\w ]*[\w])?$`, after a character that is `\w` or not; `$` lets a
-- line end pass that closes the text.
unfoldable pub ends_key : Bool → String → Bool
ends_key after_word String.[] = after_word
ends_key after_word (String.◌∷◌ c String.[]) = is_word (code c) || code c == 10 && after_word
ends_key after_word (String.◌∷◌ c s) =
    let rest = ends_key (is_word (code c)) s in (is_word (code c) || code c == 32) && rest

abbrev pub valid_key : String → Bool
valid_key String.[] = false
valid_key (String.◌∷◌ c s) = is_word (code c) && not (is_digit (code c)) && ends_key true s

-- `\[\d+\]` after its opening bracket.
unfoldable pub ends_index : Bool → String → Bool
ends_index some_digit String.[] = false
ends_index some_digit (String.◌∷◌ c String.[]) = some_digit && code c == 93
ends_index some_digit (String.◌∷◌ c s) = let rest = ends_index true s in is_digit (code c) && rest

-- Where a match of `\[\?[\w]+\s*=\s*'[^']*'\]` stands, after `[?`.
pub data FilterMode : Type 0 where
  before_name in_name before_equals after_equals in_value closing : FilterMode

abbrev pub next_mode : FilterMode → ℕ → Option FilterMode
next_mode before_name c = if is_word c then some in_name else none
next_mode in_name c =
    if is_word c
    then some in_name
    else if c == 61
    then some after_equals
    else if is_blank c
    then some before_equals
    else none
next_mode before_equals c =
    if c == 61 then some after_equals else if is_blank c then some before_equals else none
next_mode after_equals c =
    if c == 39 then some in_value else if is_blank c then some after_equals else none
next_mode in_value c = if c == 39 then some closing else some in_value
next_mode closing c = none

-- The rest of a match: only a closed value may end, with its bracket.
unfoldable pub ends_filter : FilterMode → String → Bool
ends_filter mode String.[] = false
ends_filter closing (String.◌∷◌ c String.[]) = code c == 93
ends_filter mode (String.◌∷◌ c s) = elim (next_mode mode (code c)) [
  | none ↦ false
  | some next ↦ ends_filter next s
]

abbrev pub valid_bracket : String → Bool
valid_bracket String.[] = false
valid_bracket (String.◌∷◌ c s) =
    str_eq (String.◌∷◌ c s) "]"
    || str_eq (String.◌∷◌ c s) "*]"
    || (ends_index false (String.◌∷◌ c s) || code c == 63 && ends_filter before_name s)

-- `_VALID_SEGMENT_RE`. A segment with a bracket ends with one, so only a key has the line end that `$` lets pass.
abbrev pub valid_segment : String → Bool
valid_segment String.[] = false
valid_segment (String.◌∷◌ c s) =
    str_eq (String.◌∷◌ c s) ".." || (code c == 91 && valid_bracket s || valid_key (String.◌∷◌ c s))

unfoldable pub check_segments : List String → Result Fault Unit
unfolding ends_key ends_index ends_filter
check_segments [] = ok tt
check_segments (s ∷ segments) =
    let rest = check_segments segments in if valid_segment s then rest else err bad_path

abbrev pub check_split : Option (List String) → Result Fault Unit
check_split none = err bad_path
check_split (some segments) = check_segments segments

unfoldable pub validate_path : String → Result Fault Unit
unfolding strip is_forbidden split_segments check_segments
validate_path path =
    if str_eq (strip path) ""
    then err empty_path
    else if is_forbidden (strip path)
    then err bad_path
    else check_split (split_segments (strip path))

unfoldable pub path_has_iteration : String → Bool
unfolding contains
path_has_iteration path =
    contains "[]" path || contains "[*]" path || (contains "[?" path || contains ".." path)
