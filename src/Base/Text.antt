-- ===== src/Base/Text.antt =====
-- Texts: what the program takes from Rust's `str`, `String` and `format!`.
use Prim.Native.Char.{code}
use Prim.Native.String.{String, ◌++◌}
use mathlib.Core.List.{List, [], ◌∷◌, ◌++◌ as append}
use text.Mathlib.Text.{starts_with}
use kpasskey.Base.Tests.{ltb, leb, ◌==◌, if◌then◌else◌}
use kpasskey.Base.Lists.{get_or}
use mathlib.Core.Bool.{Bool, true, false, ◌&&◌, ◌||◌}
use Prim.Native.Nat.{ℕ, zero, suc, ◌+◌, ◌-◌, ◌/◌, ◌%◌}
use mathlib.Core.Path.{◌≡◌, refl}

abbrev pub is_empty : String → Bool
is_empty String.[] = true
is_empty (String.◌∷◌ c s) = false

abbrev count_chars : String → ℕ
count_chars String.[] = 0
count_chars (String.◌∷◌ c s) = suc (count_chars s)

unfoldable pub concat : List String → String
concat [] = ""
concat (s ∷ ss) = s ++ concat ss

-- The UTF-8 bytes of a character, and of a text: `str::as_bytes`.
abbrev pub utf8_char : ℕ → List ℕ
utf8_char c =
    if ltb c 0x80
    then c ∷ []
    else if ltb c 0x800
    then (0xc0 + c / 64) ∷ (0x80 + c % 64) ∷ []
    else if ltb c 0x10000
    then (0xe0 + c / 4096) ∷ (0x80 + c / 64 % 64) ∷ (0x80 + c % 64) ∷ []
    else (0xf0 + c / 262144) ∷ (0x80 + c / 4096 % 64) ∷ (0x80 + c / 64 % 64) ∷ (0x80 + c % 64) ∷ []

unfoldable pub as_bytes : String → List ℕ
as_bytes String.[] = []
as_bytes (String.◌∷◌ c s) = append (utf8_char (code c)) (as_bytes s)

-- char::is_whitespace
abbrev pub is_whitespace : ℕ → Bool
is_whitespace c =
    (leb 9 c && leb c 13)
    || c == 32
    || c == 0x85
    || c == 0xa0
    || c == 0x1680
    || (leb 0x2000 c && leb c 0x200a)
    || c == 0x2028
    || c == 0x2029
    || c == 0x202f
    || c == 0x205f
    || c == 0x3000

unfoldable pub trim_start : String → String
trim_start String.[] = ""
trim_start (String.◌∷◌ c s) = if is_whitespace (code c) then trim_start s else String.◌∷◌ c s

unfoldable pub trim_end : String → String
trim_end String.[] = ""
trim_end (String.◌∷◌ c s) =
    let rest = trim_end s in
    if is_whitespace (code c) && is_empty rest then "" else String.◌∷◌ c rest

-- str::trim
unfoldable pub trim : String → String
unfolding trim_start trim_end
trim s = trim_end (trim_start s)

-- `str::replace`, from the left, with a pattern that is not empty; `skipped` characters belong to an
-- occurrence that was replaced.
unfoldable pub replace_from : ℕ → String → String → String → String
replace_from skipped pattern to String.[] = ""
replace_from (suc skipped) pattern to (String.◌∷◌ c s) = replace_from skipped pattern to s
replace_from zero pattern to (String.◌∷◌ c s) = elim (starts_with (String.◌∷◌ c s) pattern) [
  | true ↦ to ++ replace_from (count_chars pattern - 1) pattern to s
  | false ↦ String.◌∷◌ c (replace_from 0 pattern to s)
]

unfoldable pub replace : String → String → String → String
unfolding replace_from
replace text pattern to = replace_from 0 pattern to text

-- One decimal digit.
abbrev pub digit : ℕ → String
digit n = get_or ("0" ∷ "1" ∷ "2" ∷ "3" ∷ "4" ∷ "5" ∷ "6" ∷ "7" ∷ "8" ∷ "9" ∷ []) (n % 10) "0"

unfoldable pub decimal_digits : ℕ → ℕ → String
decimal_digits zero n = ""
decimal_digits (suc fuel) n = elim (ltb n 10) [
  | true ↦ digit n
  | false ↦ decimal_digits fuel (n / 10) ++ digit n
]

-- `{}` on a u64 or a smaller number, which has at most 20 digits.
unfoldable pub decimal : ℕ → String
unfolding decimal_digits
decimal n = decimal_digits 20 n

-- `{:06}` on a number below a million
unfoldable pub six_digits : ℕ → String
six_digits n =
    digit (n / 100000)
    ++ digit (n / 10000)
    ++ digit (n / 1000)
    ++ digit (n / 100)
    ++ digit (n / 10)
    ++ digit n

port_text : decimal 34719 ≡ "34719"
unfolding decimal
port_text = refl

replaced : replace "a tester tests" "tes" "no" ≡ "a noter nots"
unfolding replace
replaced = refl
