-- ===== src/Payload/Path.antt =====
-- ecommerce_super/easyecom/utils/jsonpath.py: paths, and what each of their segments asks for. Digits
-- and the names in a filter are of ASCII, and a payload is a tree of dicts and lists.
pub mod Reading
pub mod Writing
pub mod RoundTrip
use ecommerce_super.Base.{
  ℕ, zero, suc, ◌+◌, ◌-◌, ◌*◌, String, Bool, false, ◌&&◌, ◌||◌, not, Option, none, some, List, [],
  ◌∷◌, leb, ◌==◌, str_eq, if◌then◌else◌,
}
use ecommerce_super.Payload.{
  Json, null, flag, number, text, array, dict, Items, no_items, item, Entries, no_entries, entry,
  get,
}
use Prim.Native.Char.{code}

-- Where `_split_segments` stands: in a key, after a dot, or inside brackets.
pub data Mode : Type 0 where
  plain dotted bracket : Mode

unfoldable pub reversed : String → String → String
reversed String.[] onto = onto
reversed (String.◌∷◌ c s) onto = reversed s (String.◌∷◌ c onto)

abbrev pub emit : String → Option (List String) → Option (List String)
emit segment none = none
emit segment (some segments) = some (segment ∷ segments)

-- `if buf: segments.append(buf)`; the buffer holds its characters last first.
unfoldable pub flush : String → Option (List String) → Option (List String)
unfolding reversed
flush String.[] segments = segments
flush (String.◌∷◌ c s) segments = emit (reversed (String.◌∷◌ c s) "") segments

-- The rest of the loop of `_split_segments`; `none` is a bracket that is not closed.
unfoldable pub split_from : Mode → String → String → Option (List String)
unfolding flush
split_from bracket buf String.[] = none
split_from _ buf String.[] = flush buf (some [])
split_from bracket buf (String.◌∷◌ c s) =
    let closed = emit (reversed (String.◌∷◌ c buf) "") (split_from plain "" s) in
    let inside = split_from bracket (String.◌∷◌ c buf) s in if code c == 93 then closed else inside
split_from dotted buf (String.◌∷◌ c s) =
    let descent = emit ".." (split_from plain "" s) in
    let opened = split_from bracket (String.◌∷◌ c "") s in
    let key = split_from plain (String.◌∷◌ c "") s in
    if code c == 46 then descent else if code c == 91 then opened else key
split_from plain buf (String.◌∷◌ c s) =
    let dot = flush buf (split_from dotted "" s) in
    let opened = flush buf (split_from bracket (String.◌∷◌ c "") s) in
    let key = split_from plain (String.◌∷◌ c buf) s in
    if code c == 46 then dot else if code c == 91 then opened else key

unfoldable pub split_segments : String → Option (List String)
unfolding split_from
split_segments path = split_from plain "" path

-- What a segment asks for; `unsupported` is a bracket that no pattern takes.
pub data Step : Type 0 where
  key : String → Step
  index : ℕ → Step
  each descend unsupported : Step
  filter : String → String → Step

abbrev pub is_digit : ℕ → Bool
is_digit c = leb 48 c && leb c 57

-- The number that digits write, before a closing bracket.
unfoldable pub digits : ℕ → String → Option ℕ
digits n String.[] = none
digits n (String.◌∷◌ c String.[]) = if code c == 93 then some n else none
digits n (String.◌∷◌ c s) =
    let more = digits (10 * n + (code c - 48)) s in if is_digit (code c) then more else none

abbrev pub starts_digit : String → Bool
starts_digit String.[] = false
starts_digit (String.◌∷◌ c s) = is_digit (code c)

-- `\w`
abbrev pub is_word : ℕ → Bool
is_word c = is_digit c || (leb 65 c && leb c 90 || (leb 97 c && leb c 122 || c == 95))

-- The longest run of a class, and what follows it.
unfoldable pub span : (ℕ → Bool) → String → String × String
span p String.[] = ("", "")
span p (String.◌∷◌ c s) =
    let (taken, rest) = span p s in
    if p (code c) then (String.◌∷◌ c taken, rest) else ("", String.◌∷◌ c s)

abbrev pub after_char : ℕ → String → Option String
after_char d String.[] = none
after_char d (String.◌∷◌ c s) = if code c == d then some s else none

-- `\s`
abbrev pub is_blank : ℕ → Bool
is_blank c = leb 9 c && leb c 13 || leb 28 c && leb c 32

abbrev pub skip_blank : String → String
skip_blank s = (span is_blank s).1

abbrev pub then_text : Option String → (String → Option Step) → Option Step
then_text none f = none
then_text (some s) f = f s

-- `(name)\s*=\s*'(value)'\]` after the opening `[?`. No class of the pattern has a character of the
-- one that follows, so it never steps back.
unfoldable pub filter_of : String → Option Step
unfolding span
filter_of s =
    let (name, tail) = span is_word s in
    then_text (after_char 61 (skip_blank tail)) (λ right.
      then_text (after_char 39 (skip_blank right)) (λ quote.
        let (value, closing) = span (λ c. not (c == 39)) quote in
        if str_eq name ""
        then none
        else if str_eq closing "']"
        then some (filter name value)
        else none))

-- What a bracket asks for, from what follows its opening.
unfoldable pub bracket_step : String → Step
unfolding digits filter_of
bracket_step s =
    if str_eq s "]" || str_eq s "*]"
    then each
    else if starts_digit s
    then elim (digits 0 s) [ none ↦ unsupported | some n ↦ index n ]
    else elim (then_text (after_char 63 s) filter_of) [ none ↦ unsupported | some f ↦ f ]

unfoldable pub step_of : String → Step
unfolding bracket_step
step_of String.[] = key ""
step_of (String.◌∷◌ c s) =
    if str_eq (String.◌∷◌ c s) ".."
    then descend
    else if code c == 91
    then bracket_step s
    else key (String.◌∷◌ c s)

-- `node[n]` of a list, where it is there.
unfoldable pub item_at : ℕ → Items → Option Json
item_at n no_items = none
item_at zero (item x xs) = some x
item_at (suc n) (item x xs) = item_at n xs
