-- ===== src/Js/Number/Laws.antt =====
-- The order of JavaScript's numbers.
use pro_slides_go.Base.{◌≡◌, true, arith, ℤ, ◌≤ℤ◌, false}
use pro_slides_go.Js.Number.{Number, nan, pos_inf, neg_inf, milli, is_finite, lt, le}

-- A finite number, by its thousandths.
abbrev pub IsFinite : Number → Type 0
IsFinite a = is_finite a ≡ true

infix 50 ◌≤#◌ ◌<#◌
abbrev pub ◌≤#◌ : Number → Number → Type 0
a ≤# b = le a b ≡ true

abbrev pub ◌<#◌ : Number → Number → Type 0
a <# b = lt a b ≡ true

pub le-of-≤ℤ : (a b : ℤ) → a ≤ℤ b → milli a ≤# milli b
le-of-≤ℤ a b h = ground arith

pub ≤#_refl : (a : Number) → IsFinite a → a ≤# a
≤#_refl (milli a) h = ground arith
≤#_refl nan h = cc
≤#_refl pos_inf h = cc
≤#_refl neg_inf h = cc

pub ≤#_trans : (a b c : Number) → a ≤# b → b ≤# c → a ≤# c
≤#_trans (milli a) (milli b) (milli c) h k = ground arith
≤#_trans a b c h k = ground arith

pub <#_trans : (a b c : Number) → a <# b → b <# c → a <# c
<#_trans (milli a) (milli b) (milli c) h k = ground arith
<#_trans a b c h k = ground arith

pub le-of-lt : (a b : Number) → a <# b → a ≤# b
le-of-lt (milli a) (milli b) h = ground arith
le-of-lt a b h = ground arith

pub le_of_not-lt : (a b : Number) → IsFinite a → IsFinite b → lt b a ≡ false → a ≤# b
le_of_not-lt (milli a) (milli b) h k e = ground arith
le_of_not-lt a b h k e = ground arith
