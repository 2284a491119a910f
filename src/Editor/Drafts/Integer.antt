-- ===== src/Editor/Drafts/Integer.antt =====
-- The numbers that a panel's inputs hold: `normalizeDigits` of apps/web/src/shared/forms/numbers.ts
-- and `parseDraftInteger` of apps/web/src/modules/presentations/editor/model/questionDraft.ts.
pub mod Laws
use Prim.Native.Char.{Char, code}
use pro_slides_go.Base.{
  ℕ, ◌+◌, ◌-◌, ◌*◌, String, Bool, true, not, ◌&&◌, ◌||◌, List, [], ◌∷◌, leb, ◌==◌, if◌then◌else◌,
  value_or, get_elem?, ◌≡◌, refl,
}
use pro_slides_go.Js.Number.{Number, nan, int, is_safe_integer}
use pro_slides_go.Js.Text.{is_space, is_empty, trim}

-- A text read as `replace` with a callback, or with "", does.
abbrev pub replace_each : (Char → Char) → String → String
replace_each f String.[] = ""
replace_each f (String.◌∷◌ c s) = String.◌∷◌ (f c) (replace_each f s)

abbrev pub remove_each : (ℕ → Bool) → String → String
remove_each p String.[] = ""
remove_each p (String.◌∷◌ c s) =
    if p (code c) then remove_each p s else String.◌∷◌ c (remove_each p s)

abbrev ascii_digits : List Char
ascii_digits = "0" ∷ "1" ∷ "2" ∷ "3" ∷ "4" ∷ "5" ∷ "6" ∷ "7" ∷ "8" ∷ "9" ∷ []

abbrev pub ascii_digit : ℕ → Char
ascii_digit d = value_or (get_elem? ascii_digits d) "0"

-- The Persian and the Arabic-Indic digits, each with its index in the string of the ten.
abbrev pub from_persian : Char → Char
from_persian c = if leb 1776 (code c) && leb (code c) 1785 then ascii_digit (code c - 1776) else c

abbrev pub from_arabic : Char → Char
from_arabic c = if leb 1632 (code c) && leb (code c) 1641 then ascii_digit (code c - 1632) else c

unfoldable pub normalize_digits : String → String
normalize_digits s = replace_each from_arabic (replace_each from_persian s)

-- The Arabic thousands separator, the Arabic comma, the comma and white space.
abbrev pub is_separator : ℕ → Bool
is_separator c = c == 1644 || (c == 1548 || (c == 44 || is_space c))

unfoldable pub normalize_integer_input : String → String
unfolding normalize_digits
normalize_integer_input s = remove_each is_separator (normalize_digits s)

abbrev pub is_digit : ℕ → Bool
is_digit c = leb 48 c && leb c 57

abbrev pub all_digits : String → Bool
all_digits String.[] = true
all_digits (String.◌∷◌ c s) = is_digit (code c) && all_digits s

-- The number that a text of digits stands for, after the digits that `acc` stands for.
abbrev pub digits_value : ℕ → String → ℕ
digits_value acc String.[] = acc
digits_value acc (String.◌∷◌ c s) = digits_value (acc * 10 + (code c - 48)) s

-- `Number(text)` of a text of digits; past the safe integers it is rounded, to a number that is
-- no safe integer either.
abbrev pub safe_or_nan : Number → Number
safe_or_nan n = if is_safe_integer n then n else nan

abbrev pub integer_of : String → Number
integer_of s =
    if not (is_empty s) && all_digits s then safe_or_nan (int (digits_value 0 s)) else nan

unfoldable pub parse_draft_integer : String → Number
unfolding normalize_integer_input trim
parse_draft_integer s = integer_of (trim (normalize_integer_input s))

parse_tests : parse_draft_integer " ۱\u{66c}۲3\u{664} " ≡ int 1234
unfolding parse_draft_integer is_space
parse_tests = refl
