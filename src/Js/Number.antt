-- ===== src/Js/Number.antt =====
-- The values of JavaScript's `number` type as the source uses them: NaN, the infinities, and
-- finite values in thousandths. The source's finite values are counters, points, durations in
-- seconds and times in milliseconds, so thousandths hold each of them exactly; the binary
-- fractions that are no whole number of thousandths, and the sign of zero, are left out.
pub mod Laws
use pro_slides_go.Base.{
  sub_ℕ, if◌then◌else◌, ℕ, ◌+◌, ◌*◌, ◌%◌, Bool, true, false, not, ◌&&◌, Option, none, some, leb,
  ◌==◌, ℤ, pos_part, neg_part, ◌+ℤ◌, ltb_ℤ, eqb_ℤ, pos,
}

pub data Number : Type 0 where
  nan pos_inf neg_inf : Number
  milli : ℤ → Number

-- The literal `n` of the source.
abbrev pub int : ℕ → Number
int n = milli (pos (n * 1000))

abbrev pub is_finite : Number → Bool
is_finite (milli z) = true
is_finite _ = false

-- `Number.isInteger` and `Number.isSafeInteger`.
abbrev pub is_integer : Number → Bool
is_integer (milli z) = (pos_part z + neg_part z) % 1000 == 0
is_integer _ = false

abbrev pub max_safe_milli : ℕ
max_safe_milli = 9007199254740991000

abbrev pub is_safe_integer : Number → Bool
is_safe_integer (milli z) =
    ((pos_part z + neg_part z) % 1000 == 0) && leb (pos_part z + neg_part z) max_safe_milli
is_safe_integer _ = false

-- `a < b` and `a === b`; each is false at NaN.
abbrev pub lt : Number → Number → Bool
lt nan b = false
lt a nan = false
lt (milli a) (milli b) = ltb_ℤ a b
lt pos_inf b = false
lt neg_inf neg_inf = false
lt neg_inf b = true
lt (milli a) pos_inf = true
lt (milli a) neg_inf = false

abbrev pub num_eq : Number → Number → Bool
num_eq (milli a) (milli b) = eqb_ℤ a b
num_eq pos_inf pos_inf = true
num_eq neg_inf neg_inf = true
num_eq _ _ = false

-- `a <= b`.
abbrev pub le : Number → Number → Bool
le nan b = false
le a nan = false
le a b = not (lt b a)

-- `Math.max` and `Math.min`; either is NaN if an argument is.
abbrev pub num_max : Number → Number → Number
num_max nan b = nan
num_max a nan = nan
num_max a b = if lt a b then b else a

abbrev pub num_min : Number → Number → Number
num_min nan b = nan
num_min a nan = nan
num_min a b = if lt b a then b else a

-- `a + b`.
abbrev pub num_add : Number → Number → Number
num_add nan b = nan
num_add a nan = nan
num_add (milli a) (milli b) = milli (a +ℤ b)
num_add (milli a) b = b
num_add pos_inf neg_inf = nan
num_add pos_inf b = pos_inf
num_add neg_inf pos_inf = nan
num_add neg_inf b = neg_inf

-- `-a` and `a - b`.
abbrev pub negated : Number → Number
negated (milli a) = milli (sub_ℕ (neg_part a) (pos_part a))
negated pos_inf = neg_inf
negated neg_inf = pos_inf
negated nan = nan

abbrev pub num_sub : Number → Number → Number
num_sub a b = num_add a (negated b)

-- `value || fallback`: NaN and 0 are falsy.
abbrev pub num_or : Number → Number → Number
num_or nan d = d
num_or (milli z) d = if eqb_ℤ z (pos 0) then d else milli z
num_or x d = x

-- `Number(value)` for a number that may be missing: `Number(undefined)` is NaN.
abbrev pub to_number : Option Number → Number
to_number none = nan
to_number (some x) = x
