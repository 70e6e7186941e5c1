-- ===== src/Mapping/Paths/Filters.antt =====
-- ecommerce_super/easyecom/field_mapping/path.py: filters that its regular expression takes, in the pattern of
-- utils/jsonpath.py.
use Prim.Native.Char.{Char, char, code}
use text.Mathlib.TextEquality.{Char-path}
use ecommerce_super.Base.{
  ℕ, String, ◌≡◌, refl, ap, ◌∙◌, inl, inr, Bool, true, false, not, Option, none, some, arith,
  eq_iff, str_eq, ◌==◌, ◌<◌, if◌then◌else◌, Bool-cases, ==_iff,
}
use ecommerce_super.Mapping.Paths.{
  FilterMode, before_name, in_name, before_equals, after_equals, in_value, closing, ends_filter,
}
use ecommerce_super.Payload.Path.{
  Step, filter, filter_of, span, after_char, skip_blank, then_text, is_word, is_blank,
}

close_quote :
    (c d : Char)
    → (code c == 39) ≡ true
    → (code d == 93) ≡ true
    → str_eq (String.◌∷◌ c (String.◌∷◌ d String.[])) "']" ≡ true
close_quote c d quote bracket = (eq_iff (String.◌∷◌ c (String.◌∷◌ d String.[])) "']").1 (
    ap (λ x. String.◌∷◌ x (String.◌∷◌ d String.[]))
      (Char-path c (char 39 tt) ((==_iff (code c) 39).0 quote))
    ∙ ap (λ x. String.◌∷◌ (char 39 tt) (String.◌∷◌ x String.[]))
        (Char-path d (char 93 tt) ((==_iff (code d) 93).0 bracket)))

-- What is left of a value, up to its quote.
abbrev ValueEnds : String → Type 0
ValueEnds s = str_eq ((span (λ c. not (c == 39)) s).1) "']" ≡ true

closing-ends :
    (c : Char) (s : String)
    → (code c == 39) ≡ true
    → ends_filter closing s ≡ true
    → str_eq (String.◌∷◌ c s) "']" ≡ true
unfolding ends_filter
closing-ends c String.[] quote ends = cc
closing-ends c (String.◌∷◌ d String.[]) quote ends = close_quote c d quote ends
closing-ends c (String.◌∷◌ d (String.◌∷◌ e s)) quote ends = cc

-- The rest of a match after a step of it.
abbrev after_step : Option FilterMode → String → Bool
after_step o s = elim o [ none ↦ false | some next ↦ ends_filter next s ]

in_value-ends : (s : String) → ends_filter in_value s ≡ true → ValueEnds s
unfolding ends_filter span
in_value-ends String.[] ends = cc
in_value-ends (String.◌∷◌ c s) ends =
    by_test (code c == 39) refl ends (λ rest. in_value-ends s rest)
  where
    by_test :
        (t : Bool)
        → (code c == 39) ≡ t
        → after_step (if t then some closing else some in_value) s ≡ true
        → (ends_filter in_value s ≡ true → ValueEnds s)
        → ValueEnds (String.◌∷◌ c s)
    by_test true quote rest later = rw (quote) (closing-ends c s quote rest)
    by_test false other rest later = rw (other) (later rest)

-- A quote after blanks, and a value after it.
abbrev QuoteFollows : String → Type 0
QuoteFollows s = (quote : String) × (after_char 39 (skip_blank s) ≡ some quote) × ValueEnds quote

-- An equals sign after blanks, and a quote after it.
abbrev EqualsFollows : String → Type 0
EqualsFollows s =
    (right : String) × (after_char 61 (skip_blank s) ≡ some right) × QuoteFollows right

skip_stops :
    (c : Char) (s : String)
    → is_blank (code c) ≡ false
    → skip_blank (String.◌∷◌ c s) ≡ String.◌∷◌ c s
unfolding span
skip_stops c s solid = rw (skip_blank, solid) refl

skip_goes :
    (c : Char) (s : String) → is_blank (code c) ≡ true → skip_blank (String.◌∷◌ c s) ≡ skip_blank s
unfolding span
skip_goes c s blank = rw (skip_blank, blank) refl

solid_code : (n m : ℕ) → (n == m) ≡ true → 32 < m → is_blank n ≡ false
solid_code n m same above = ground (arith, ==_iff n m)

found_char :
    (m : ℕ) (c : Char) (s : String) → (code c == m) ≡ true → after_char m (String.◌∷◌ c s) ≡ some s
found_char m c s same = rw (same) refl

found_after :
    (m : ℕ) (c : Char) (s : String)
    → (code c == m) ≡ true
    → 32 < m
    → after_char m (skip_blank (String.◌∷◌ c s)) ≡ some s
found_after m c s same above =
    ap (after_char m) (skip_stops c s (solid_code (code c) m same above)) ∙ found_char m c s same

after_equals-ends : (s : String) → ends_filter after_equals s ≡ true → QuoteFollows s
unfolding ends_filter
after_equals-ends String.[] ends = cc
after_equals-ends (String.◌∷◌ c s) ends =
    by_test (code c == 39) (is_blank (code c)) refl refl ends (λ rest. after_equals-ends s rest)
  where
    by_test :
        (t u : Bool)
        → (code c == 39) ≡ t
        → is_blank (code c) ≡ u
        → after_step (if t then some in_value else if u then some after_equals else none) s ≡ true
        → (ends_filter after_equals s ≡ true → QuoteFollows s)
        → QuoteFollows (String.◌∷◌ c s)
    by_test true u quote blank rest later =
        (s, found_after 39 c s quote (omega arith), in_value-ends s rest)
    by_test false true other blank rest later =
        let (quote, found, value) = later rest in
        (quote, ap (after_char 39) (skip_goes c s blank) ∙ found, value)
    by_test false false other blank rest later = cc

equals_found :
    (c : Char) (s : String)
    → (code c == 61) ≡ true
    → ends_filter after_equals s ≡ true
    → EqualsFollows (String.◌∷◌ c s)
equals_found c s equals rest =
    (s, found_after 61 c s equals (omega arith), after_equals-ends s rest)

equals_later :
    (c : Char) (s : String)
    → is_blank (code c) ≡ true
    → EqualsFollows s
    → EqualsFollows (String.◌∷◌ c s)
equals_later c s blank (right, found, quote) =
    (right, ap (after_char 61) (skip_goes c s blank) ∙ found, quote)

before_equals-ends : (s : String) → ends_filter before_equals s ≡ true → EqualsFollows s
unfolding ends_filter
before_equals-ends String.[] ends = cc
before_equals-ends (String.◌∷◌ c s) ends =
    by_test (code c == 61) (is_blank (code c)) refl refl ends (λ rest. before_equals-ends s rest)
  where
    by_test :
        (t u : Bool)
        → (code c == 61) ≡ t
        → is_blank (code c) ≡ u
        → after_step (if t then some after_equals else if u then some before_equals else none) s
          ≡ true
        → (ends_filter before_equals s ≡ true → EqualsFollows s)
        → EqualsFollows (String.◌∷◌ c s)
    by_test true u equals blank rest later = equals_found c s equals rest
    by_test false true other blank rest later = equals_later c s blank (later rest)
    by_test false false other blank rest later = cc

in_name-ends : (s : String) → ends_filter in_name s ≡ true → EqualsFollows ((span is_word s).1)
unfolding ends_filter span
in_name-ends String.[] ends = cc
in_name-ends (String.◌∷◌ c s) ends =
    by_test (is_word (code c)) (code c == 61) (is_blank (code c)) refl refl refl ends
      (λ rest. in_name-ends s rest)
  where
    by_test :
        (v t u : Bool)
        → is_word (code c) ≡ v
        → (code c == 61) ≡ t
        → is_blank (code c) ≡ u
        → after_step
            (if v
              then some in_name
              else if t
              then some after_equals
              else if u
              then some before_equals
              else none)
            s
          ≡ true
        → (ends_filter in_name s ≡ true → EqualsFollows ((span is_word s).1))
        → EqualsFollows ((span is_word (String.◌∷◌ c s)).1)
    by_test true t u word equals blank rest later = rw (word) (later rest)
    by_test false true u other equals blank rest later = rw (other) (equals_found c s equals rest)
    by_test false false true other differs blank rest later =
        rw (other) (equals_later c s blank (before_equals-ends s rest))
    by_test false false false other differs blank rest later = cc

-- A filter that is read.
abbrev pub IsSome : Option Step → Type 0
IsSome o = (k : String) × (v : String) × (o ≡ some (filter k v))

text_is :
    (o : Option String) (f : String → Option Step) {s : String}
    → o ≡ some s
    → IsSome (f s)
    → IsSome (then_text o f)
text_is none f found read = cc
text_is (some t) f {s} found (k, v, read) = (k, v, ap f (some_text found) ∙ read)
  where
    some_text : some t ≡ some s → t ≡ s
    some_text same = cc

abbrev named_filter : String → String × String → Option Step
named_filter name (value, rest) =
    if str_eq name "" then none else if str_eq rest "']" then some (filter name value) else none

is_named :
    (name : String) (scan : String × String)
    → str_eq name "" ≡ false
    → str_eq (scan.1) "']" ≡ true
    → IsSome (named_filter name scan)
is_named name (value, rest) named closed = (name, value, rw (named, closed) refl)

after_name :
    (name tail : String)
    → str_eq name "" ≡ false
    → EqualsFollows tail
    → IsSome (
        then_text (after_char 61 (skip_blank tail)) (λ right.
          then_text
            (after_char 39 (skip_blank right))
            (λ quote. named_filter name (span (λ c. not (c == 39)) quote))))
after_name name tail named (right, equals, (quote, quoted, closed)) =
    text_is _ _ equals (text_is _ _ quoted (is_named name _ named closed))

has_name : (c : Char) (s : String) → str_eq (String.◌∷◌ c s) "" ≡ false
has_name c s = elim (Bool-cases (str_eq (String.◌∷◌ c s) "")) [
  | inl e ↦ empty_text ((eq_iff (String.◌∷◌ c s) "").0 e)
  | inr e ↦ e
]
  where
    empty_text : String.◌∷◌ c s ≡ String.[] → str_eq (String.◌∷◌ c s) "" ≡ false
    empty_text same = cc

pub filter_of-ends : (s : String) → ends_filter before_name s ≡ true → IsSome (filter_of s)
unfolding ends_filter filter_of span
filter_of-ends String.[] ends = cc
filter_of-ends (String.◌∷◌ c s) ends = by_test (is_word (code c)) refl ends
  where
    by_test :
        (t : Bool)
        → is_word (code c) ≡ t
        → after_step (if t then some in_name else none) s ≡ true
        → IsSome (filter_of (String.◌∷◌ c s))
    by_test true word rest =
        rw (filter_of, word)
          (after_name (String.◌∷◌ c (span is_word s).0) ((span is_word s).1)
            (has_name c ((span is_word s).0)) (in_name-ends s rest))
    by_test false other rest = cc
