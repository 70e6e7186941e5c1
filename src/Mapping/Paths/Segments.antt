-- ===== src/Mapping/Paths/Segments.antt =====
-- ecommerce_super/easyecom/field_mapping/path.py: segments that its regular expression takes, in the patterns of
-- utils/jsonpath.py.
use Prim.Native.Char.{Char, code}
use ecommerce_super.Base.{
  ℕ, ◌+◌, ◌-◌, ◌*◌, String, ◌≡◌, refl, sym, ap, Bool, true, false, ◌&&◌, ◌||◌, not, Option, none,
  some, arith, str_eq, ◌==◌, ==_iff,
}
use ecommerce_super.Mapping.Paths.{
  before_name, ends_key, ends_filter, ends_index, valid_bracket, valid_key, valid_segment,
}
use ecommerce_super.Payload.Path.{
  Step, index, unsupported, step_of, bracket_step, filter_of, digits, is_word, is_digit,
}
use ecommerce_super.Mapping.Paths.Filters.{IsSome, filter_of-ends}

-- An index that is read.
digits-ends :
    (s : String) (n : ℕ) (d : Bool) → ends_index d s ≡ true → (m : ℕ) × (digits n s ≡ some m)
unfolding ends_index digits
digits-ends String.[] n d ends = cc
digits-ends (String.◌∷◌ c String.[]) n d ends = (n, rw (last d (code c == 93) ends) refl)
  where
    last : (d t : Bool) → d && t ≡ true → t ≡ true
    last true t h = h
    last false t h = cc
digits-ends (String.◌∷◌ c (String.◌∷◌ e s)) n d ends =
    by_test (is_digit (code c)) refl ends (λ k rest. digits-ends (String.◌∷◌ e s) k true rest)
  where
    by_test :
        (t : Bool)
        → is_digit (code c) ≡ t
        → t && ends_index true (String.◌∷◌ e s) ≡ true
        → ((k : ℕ)
            → ends_index true (String.◌∷◌ e s) ≡ true
            → (m : ℕ) × (digits k (String.◌∷◌ e s) ≡ some m))
        → (m : ℕ) × (digits n (String.◌∷◌ c (String.◌∷◌ e s)) ≡ some m)
    by_test true digit rest later =
        let (m, found) = later (10 * n + (code c - 48)) rest in (m, rw (digits, digit) found)
    by_test false other rest later = cc

not_digit : (n : ℕ) → (n == 63) ≡ true → is_digit n ≡ false
not_digit n same = ground (arith, ==_iff n 63)

-- A segment that the reader has a pattern for.
abbrev pub is_supported : Step → Bool
is_supported unsupported = false
is_supported s = true

index_digit :
    (c : Char) (s : String) → ends_index false (String.◌∷◌ c s) ≡ true → is_digit (code c) ≡ true
unfolding ends_index
index_digit c String.[] ends = cc
index_digit c (String.◌∷◌ e s) ends =
    first (is_digit (code c)) (ends_index true (String.◌∷◌ e s)) ends
  where
    first : (t u : Bool) → t && u ≡ true → t ≡ true
    first true u both = refl
    first false u both = both

abbrev read_index : Option ℕ → Step
read_index o = elim o [ none ↦ unsupported | some n ↦ index n ]

abbrev read_filter : Option Step → Step
read_filter o = elim o [ none ↦ unsupported | some f ↦ f ]

supported_index :
    (s : String) → (m : ℕ) × (digits 0 s ≡ some m) → is_supported (read_index (digits 0 s)) ≡ true
supported_index s (m, found) = ap (λ o. is_supported (read_index o)) found

supported_filter : (o : Option Step) → IsSome o → is_supported (read_filter o) ≡ true
supported_filter o (k, v, found) = ap (λ o. is_supported (read_filter o)) found

bracket_step-supported :
    (s : String) → valid_bracket s ≡ true → is_supported (bracket_step s) ≡ true
unfolding bracket_step
bracket_step-supported String.[] valid = cc
bracket_step-supported (String.◌∷◌ c s) valid =
    by_test (str_eq (String.◌∷◌ c s) "]") (str_eq (String.◌∷◌ c s) "*]")
      (ends_index false (String.◌∷◌ c s)) (code c == 63) refl refl refl refl valid
  where
    by_test :
        (t u i q : Bool)
        → str_eq (String.◌∷◌ c s) "]" ≡ t
        → str_eq (String.◌∷◌ c s) "*]" ≡ u
        → ends_index false (String.◌∷◌ c s) ≡ i
        → (code c == 63) ≡ q
        → t || u || (i || q && ends_filter before_name s) ≡ true
        → is_supported (bracket_step (String.◌∷◌ c s)) ≡ true
    by_test true u i q empty star number mark taken = rw (empty) refl
    by_test false true i q empty star number mark taken = rw (empty, star) refl
    by_test false false true q empty star number mark taken =
        rw (empty, star, index_digit c s number)
          (supported_index (String.◌∷◌ c s) (digits-ends (String.◌∷◌ c s) 0 false number))
    by_test false false false true empty star number mark taken =
        rw (empty, star, not_digit (code c) mark, mark)
          (supported_filter (filter_of s) (filter_of-ends s taken))
    by_test false false false false empty star number mark taken = cc

bracket_no_word : (n : ℕ) → (n == 91) ≡ true → is_word n ≡ false
bracket_no_word n same = ground (arith, ==_iff n 91)

no_key :
    (n : ℕ)
    → (n == 91) ≡ true
    → (b letter rest : Bool) → b || is_word n && letter && rest ≡ true
    → b ≡ true
no_key n same true letter rest taken = refl
no_key n same false letter rest taken = by_word (is_word n) (bracket_no_word n same) taken
  where
    by_word : (w : Bool) → w ≡ false → w && letter && rest ≡ true → false ≡ true
    by_word true wrong both = sym wrong
    by_word false right both = both

pub step_of-supported : (s : String) → valid_segment s ≡ true → is_supported (step_of s) ≡ true
unfolding step_of
step_of-supported String.[] valid = refl
step_of-supported (String.◌∷◌ c s) valid =
    by_test (str_eq (String.◌∷◌ c s) "..") (code c == 91) refl refl valid
  where
    by_test :
        (t u : Bool)
        → str_eq (String.◌∷◌ c s) ".." ≡ t
        → (code c == 91) ≡ u
        → t || (u && valid_bracket s || valid_key (String.◌∷◌ c s)) ≡ true
        → is_supported (step_of (String.◌∷◌ c s)) ≡ true
    by_test true u dots opening taken = rw (dots) refl
    by_test false false dots opening taken = rw (dots, opening) refl
    by_test false true dots opening taken =
        rw (dots, opening)
          (bracket_step-supported s (
            no_key (code c) opening (valid_bracket s) (not (is_digit (code c))) (ends_key true s)
              taken))
