-- ===== src/Editor/Drafts/Integer/Laws.antt =====
-- `parseDraftInteger` on the numerals that `Intl.NumberFormat("fa-IR")` writes without grouping.
use Prim.Native.Char.{Char, code}
use pro_slides_go.Base.{
  ℕ, zero, suc, ◌+◌, ◌/◌, ◌%◌, ◌<◌, String, ◌≡◌, refl, List, [], ◌∷◌, ◌++◌, arith, ltb,
  if◌then◌else◌, value_or, get_elem?, All, ◌-◌, ◌*◌, ap, ◌∙◌, inl, inr, true, false, Bool-cases,
  All-append, ◌≤◌, length, length-append, pos,
}
use pro_slides_go.Editor.Drafts.Integer.{
  ascii_digit, remove_each, from_persian, from_arabic, normalize_digits, is_separator, all_digits,
  digits_value, normalize_integer_input, safe_or_nan, integer_of, parse_draft_integer,
}
use pro_slides_go.Js.Number.{int, Number, milli}
use pro_slides_go.Js.Text.Laws.{HasNoSpace, trim_of_HasNoSpace}
use pro_slides_go.Js.Text.{is_space}

abbrev persian_digits : List Char
persian_digits = "۰" ∷ "۱" ∷ "۲" ∷ "۳" ∷ "۴" ∷ "۵" ∷ "۶" ∷ "۷" ∷ "۸" ∷ "۹" ∷ []

abbrev persian_digit : ℕ → Char
persian_digit d = value_or (get_elem? persian_digits d) "۰"

-- The digits of a counter, the highest first, on fuel.
digits_on : ℕ → ℕ → List ℕ
digits_on zero n = []
digits_on (suc fuel) n =
    let rest = digits_on fuel (n / 10) in if ltb n 10 then n ∷ [] else rest ++ (n % 10) ∷ []

abbrev written : (ℕ → Char) → List ℕ → String
written f [] = ""
written f (d ∷ ds) = String.◌∷◌ (f d) (written f ds)

-- The numeral of a counter in Persian digits.
unfoldable pub persian_numeral : ℕ → String
unfolding digits_on
persian_numeral n = written persian_digit (digits_on (suc n) n)

numeral_tests : persian_numeral 100 ≡ "۱۰۰"
unfolding persian_numeral
numeral_tests = refl

-- A digit's two characters.
digit_codes :
    (d : ℕ) → d < 10 → (code (persian_digit d) ≡ 1776 + d) × (code (ascii_digit d) ≡ 48 + d)
digit_codes zero h = (refl, refl)
digit_codes (suc zero) h = (refl, refl)
digit_codes (suc (suc zero)) h = (refl, refl)
digit_codes (suc (suc (suc zero))) h = (refl, refl)
digit_codes (suc (suc (suc (suc zero)))) h = (refl, refl)
digit_codes (suc (suc (suc (suc (suc zero))))) h = (refl, refl)
digit_codes (suc (suc (suc (suc (suc (suc zero)))))) h = (refl, refl)
digit_codes (suc (suc (suc (suc (suc (suc (suc zero))))))) h = (refl, refl)
digit_codes (suc (suc (suc (suc (suc (suc (suc (suc zero)))))))) h = (refl, refl)
digit_codes (suc (suc (suc (suc (suc (suc (suc (suc (suc zero))))))))) h = (refl, refl)
digit_codes (suc (suc (suc (suc (suc (suc (suc (suc (suc (suc d)))))))))) h =
    absurd (omega (arith, h))

abbrev IsDigits : List ℕ → Type 0
IsDigits ds = All (λ d. d < 10) ds

from_digit : (d : ℕ) → d < 10 → from_arabic (from_persian (persian_digit d)) ≡ ascii_digit d
from_digit d h =
    let (p, a) = digit_codes d h in
    let same : code (persian_digit d) - 1776 ≡ d = omega (arith, p) in
    let there : from_persian (persian_digit d) ≡ ascii_digit d =
      ground (arith, p, ap ascii_digit same) in
    rw there (ground (arith, a))

normalize-written :
    (ds : List ℕ)
    → IsDigits ds
    → normalize_digits (written persian_digit ds) ≡ written ascii_digit ds
unfolding normalize_digits
normalize-written [] h = refl
normalize-written (d ∷ ds) (k, h) =
    rw (from_digit d k) (ap (String.◌∷◌ (ascii_digit d)) (normalize-written ds h))

separators-written :
    (ds : List ℕ)
    → IsDigits ds
    → remove_each is_separator (written ascii_digit ds) ≡ written ascii_digit ds
unfolding is_space
separators-written [] h = refl
separators-written (d ∷ ds) (k, h) = ground (arith, digit_codes d k, separators-written ds h)

all_digits-written : (ds : List ℕ) → IsDigits ds → all_digits (written ascii_digit ds) ≡ true
all_digits-written [] h = refl
all_digits-written (d ∷ ds) (k, h) = ground (arith, digit_codes d k, all_digits-written ds h)

-- Digits have no white space to trim.
not_space : (d : ℕ) → d < 10 → is_space (code (ascii_digit d)) ≡ false
unfolding is_space
not_space d h = ground (arith, digit_codes d h)

written-HasNoSpace : (ds : List ℕ) → IsDigits ds → HasNoSpace (written ascii_digit ds)
written-HasNoSpace [] h = tt
written-HasNoSpace (d ∷ ds) (k, h) = (not_space d k, written-HasNoSpace ds h)

-- The value of digits, read from the left.
value_from : ℕ → List ℕ → ℕ
value_from acc [] = acc
value_from acc (d ∷ ds) = value_from (acc * 10 + d) ds

digits_value-written :
    (acc : ℕ) (ds : List ℕ)
    → IsDigits ds
    → digits_value acc (written ascii_digit ds) ≡ value_from acc ds
unfolding value_from
digits_value-written acc [] h = refl
digits_value-written acc (d ∷ ds) (k, h) =
    ap (λ x. digits_value (acc * 10 + x) (written ascii_digit ds))
      (omega (arith, (digit_codes d k).1))
    ∙ digits_value-written (acc * 10 + d) ds h

value_from-append :
    (acc : ℕ) (ds : List ℕ) (d : ℕ) → value_from acc (ds ++ d ∷ []) ≡ value_from acc ds * 10 + d
unfolding value_from
value_from-append acc [] d = refl
value_from-append acc (x ∷ xs) d = value_from-append (acc * 10 + x) xs d

digits_on-IsDigits : (fuel n : ℕ) → IsDigits (digits_on fuel n)
unfolding digits_on
digits_on-IsDigits zero n = tt
digits_on-IsDigits (suc fuel) n = elim (Bool-cases (ltb n 10)) [
  | inl e ↦ rw e (ground arith, tt)
  | inr e ↦ rw e (
      All-append _ (digits_on fuel (n / 10)) _ (digits_on-IsDigits fuel (n / 10)) (omega arith, tt))
]

value-digits_on : (fuel n : ℕ) → n < fuel → value_from 0 (digits_on fuel n) ≡ n
unfolding digits_on
value-digits_on zero n h = absurd (omega (arith, h))
value-digits_on (suc fuel) n h = elim (Bool-cases (ltb n 10)) [
  | inl e ↦ rw e (unfold value_from in omega arith)
  | inr e ↦ rw e (
      ground (
        arith,
        value_from-append 0 (digits_on fuel (n / 10)) (n % 10),
        value-digits_on fuel (n / 10) (ground (arith, h, e)),
      ))
]

digits_on-nonempty : (fuel n : ℕ) → 1 ≤ length (digits_on (suc fuel) n)
unfolding digits_on
digits_on-nonempty fuel n = ground (arith, length-append (digits_on fuel (n / 10)) (n % 10 ∷ []))

integer_of-written :
    (ds : List ℕ)
    → IsDigits ds
    → 1 ≤ length ds
    → integer_of (written ascii_digit ds) ≡ safe_or_nan (int (value_from 0 ds))
integer_of-written [] h k = absurd (omega (arith, k))
integer_of-written (d ∷ ds) h k =
    let digits : all_digits (written ascii_digit (d ∷ ds)) ≡ true = all_digits-written (d ∷ ds) h in
    rw digits (ap (λ n. safe_or_nan (int n)) (digits_value-written 0 (d ∷ ds) h))

-- The numeral of a safe integer is read back as that number.
pub parse_draft_integer-persian_numeral :
    (n : ℕ) → n ≤ 9007199254740991 → parse_draft_integer (persian_numeral n) ≡ int n
unfolding parse_draft_integer persian_numeral
parse_draft_integer-persian_numeral n h =
    let ds = digits_on (suc n) n in
    let ok : IsDigits ds = digits_on-IsDigits (suc n) n in
    unfold normalize_integer_input in
    (rw (normalize-written ds ok) (
      rw (separators-written ds ok) (
        rw (trim_of_HasNoSpace _ (written-HasNoSpace ds ok)) (
          rw (integer_of-written ds ok (digits_on-nonempty n n))
            (rw (value-digits_on (suc n) n (omega arith)) (ground (arith, h)))))))

-- A writer of numerals: the thousandths are cut off.
abbrev pub write_persian : Number → String
write_persian (milli (pos m)) = persian_numeral (m / 1000)
write_persian x = ""

pub write_persian_lem : (n : ℕ) → write_persian (int n) ≡ persian_numeral n
write_persian_lem n = ap persian_numeral (omega arith)
