-- ===== src/Base/Text.antt =====
-- Text operations of Python's `str` that the program uses. Case folding is that of ASCII.
use Prim.Native.Nat.{ℕ, zero, suc, ◌/◌, ◌%◌}
use ecommerce_super.Base.Tests.{◌==◌, ltb, leb, if◌then◌else◌}
use mathlib.Core.Bool.{Bool, true, false, ◌&&◌, ◌||◌}
use Prim.Native.Char.{code}
use Prim.Native.String.{String}
use mathlib.Core.List.{List, [], ◌∷◌}

-- The code points of a text. `String` has its own `[]` and `∷`.
abbrev pub codes : String → List ℕ
codes String.[] = []
codes (String.◌∷◌ c s) = code c ∷ codes s

-- `s[:n]`
pub take_text : ℕ → String → String
take_text zero s = ""
take_text (suc n) String.[] = String.[]
take_text (suc n) (String.◌∷◌ c s) = String.◌∷◌ c (take_text n s)

-- `s + t`
abbrev pub append : String → String → String
append String.[] t = t
append (String.◌∷◌ c s) t = String.◌∷◌ c (append s t)

digit_text : ℕ → String
digit_text n =
    if n == 0
    then "0"
    else if n == 1
    then "1"
    else if n == 2
    then "2"
    else if n == 3
    then "3"
    else if n == 4
    then "4"
    else if n == 5
    then "5"
    else if n == 6
    then "6"
    else if n == 7
    then "7"
    else if n == 8
    then "8"
    else "9"

decimal_onto : ℕ → ℕ → String → String
decimal_onto zero n rest = rest
decimal_onto (suc fuel) n rest =
    let text = append (digit_text (n % 10)) rest in
    let more = decimal_onto fuel (n / 10) text in if ltb n 10 then text else more

-- `str(n)`; a number has no more digits than it counts, so the fuel is enough.
unfoldable pub decimal : ℕ → String
unfolding decimal_onto digit_text
decimal n = decimal_onto (suc n) n ""

-- `repr(s)` of a text that needs no escapes.
unfoldable pub quoted : String → String
quoted s = append "'" (append s "'")

-- A text onto another, last character first.
unfoldable pub onto_reversed : String → String → String
onto_reversed String.[] t = t
onto_reversed (String.◌∷◌ c s) t = onto_reversed s (String.◌∷◌ c t)

-- What `str.isspace` holds of.
abbrev pub is_space : ℕ → Bool
is_space c = leb 9 c && leb c 13 || leb 28 c && leb c 32

unfoldable pub lstrip : String → String
lstrip String.[] = String.[]
lstrip (String.◌∷◌ c s) = let rest = lstrip s in if is_space (code c) then rest else String.◌∷◌ c s

-- `s.strip()`
unfoldable pub strip : String → String
unfolding onto_reversed lstrip
strip s = onto_reversed (lstrip (onto_reversed (lstrip s) "")) ""

-- `sub in s`, from each position on.
abbrev pub starts_with : String → String → Bool
starts_with String.[] s = true
starts_with (String.◌∷◌ c sub) String.[] = false
starts_with (String.◌∷◌ c sub) (String.◌∷◌ d s) = code c == code d && starts_with sub s

unfoldable pub contains : String → String → Bool
contains sub String.[] = starts_with sub String.[]
contains sub (String.◌∷◌ c s) =
    let later = contains sub s in starts_with sub (String.◌∷◌ c s) || later
