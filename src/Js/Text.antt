-- ===== src/Js/Text.antt =====
-- Texts: `String.prototype.trim`, the number of code points, and truthiness.
pub mod Laws
use pro_slides_go.Base.{
  if◌then◌else◌, List, [], ◌∷◌, value_or, get_elem?, zero, suc, ◌/◌, ◌%◌, ltb, ℕ, ◌≡◌, refl, Bool,
  true, false, ◌&&◌, ◌||◌, leb, ◌==◌,
}
use Prim.Native.Char.{Char, code}
use Prim.Native.String.{String, count, ◌++◌ as join}

-- The white space and line terminators of ECMAScript, which `trim` and `\s` stand for.
unfoldable pub is_space : ℕ → Bool
is_space c =
    (leb 9 c && leb c 13)
    || c == 32
    || c == 160
    || c == 5760
    || (leb 8192 c && leb c 8202)
    || c == 8232
    || c == 8233
    || c == 8239
    || c == 8287
    || c == 12288
    || c == 65279

abbrev pub is_empty : String → Bool
is_empty String.[] = true
is_empty (String.◌∷◌ c s) = false

pub trim_start : String → String
trim_start String.[] = ""
trim_start (String.◌∷◌ c s) =
    let rest = trim_start s in if is_space (code c) then rest else String.◌∷◌ c s

abbrev close : Char → String → String
close c rest = if is_empty rest && is_space (code c) then "" else String.◌∷◌ c rest

pub trim_end : String → String
trim_end String.[] = ""
trim_end (String.◌∷◌ c s) = close c (trim_end s)

unfoldable pub trim : String → String
unfolding trim_start trim_end is_space
trim s = trim_end (trim_start s)

-- `Array.from(value).length`: texts are counted in code points.
abbrev pub text_length : String → ℕ
text_length s = count s

-- `!value` for a text.
abbrev pub is_blank : String → Bool
is_blank s = is_empty (trim s)

trim_tests : trim "  a b\n" ≡ "a b"
unfolding trim
trim_tests = refl

abbrev digits : List String
digits = "0" ∷ "1" ∷ "2" ∷ "3" ∷ "4" ∷ "5" ∷ "6" ∷ "7" ∷ "8" ∷ "9" ∷ []

abbrev digit : ℕ → String
digit d = value_or (get_elem? digits d) ""

-- The decimal digits of a counter, on fuel; a counter has fewer digits than its successor.
decimal_on : ℕ → ℕ → String
decimal_on zero n = ""
decimal_on (suc fuel) n =
    let rest = decimal_on fuel (n / 10) in if ltb n 10 then digit n else join rest (digit (n % 10))

-- `${n}` for a counter.
unfoldable pub decimal : ℕ → String
unfolding decimal_on
decimal n = decimal_on (suc n) n

decimal_tests : decimal 107 ≡ "107"
unfolding decimal
decimal_tests = refl
