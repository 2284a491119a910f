-- ===== src/Editor/Drafts/Contrast.antt =====
-- The contrast of two colours, of apps/web/src/shared/styles/presentationTheme.ts. The
-- floating-point operations of JavaScript are parameters, on a type of its numbers but NaN, which
-- none of the operations gives on the operands that occur here.
use Prim.Native.Char.{code}
use pro_slides_go.Base.{
  ℕ, ◌+◌, ◌*◌, ◌-◌, String, Bool, ◌&&◌, List, [], ◌∷◌, get_elem?, value_or, leb, if◌then◌else◌,
}

-- `decimal m k` is the literal with the digits of `m`, of which `k` stand after the point.
pub record Floats (F : Type 0) : Type 0 where
  pub decimal : ℕ → ℕ → F
  pub plus : F → F → F
  pub times : F → F → F
  pub divided : F → F → F
  pub power : F → F → F
  pub at_most : F → F → Bool

abbrev codes : String → List ℕ
codes String.[] = []
codes (String.◌∷◌ c s) = code c ∷ codes s

-- The value of a digit in base 16.
abbrev digit_value : ℕ → ℕ
digit_value c =
    if leb 48 c && leb c 57 then c - 48 else if leb 97 c && leb c 102 then c - 87 else c - 55

abbrev digit_at : String → ℕ → ℕ
digit_at hex k = digit_value (value_or (get_elem? (codes hex) k) 48)

-- `Number.parseInt(hex.slice(start, start + 2), 16)`, of a colour of six digits.
abbrev byte_at : String → ℕ → ℕ
byte_at hex start = digit_at hex start * 16 + digit_at hex (start + 1)

module _ {F : Type 0} (floats : Floats F) where
  abbrev channel : String → ℕ → F
  channel hex start =
      let value = floats.divided (floats.decimal (byte_at hex start) 0) (floats.decimal 255 0) in
      if floats.at_most value (floats.decimal 3928 5)
      then floats.divided value (floats.decimal 1292 2)
      else floats.power
          (floats.divided (floats.plus value (floats.decimal 55 3)) (floats.decimal 1055 3))
          (floats.decimal 24 1)

  abbrev pub luminance : String → F
  luminance hex =
      floats.plus
        (floats.plus (floats.times (channel hex 1) (floats.decimal 2126 4))
          (floats.times (channel hex 3) (floats.decimal 7152 4)))
        (floats.times (channel hex 5) (floats.decimal 722 4))

  -- The two luminances, the lighter one first.
  abbrev sorted : F → F → F × F
  sorted a b = if floats.at_most b a then (a, b) else (b, a)

  unfoldable pub contrast : String → String → F
  contrast first second =
      let pair = sorted (luminance first) (luminance second) in
      floats.divided (floats.plus pair.0 (floats.decimal 5 2))
        (floats.plus pair.1 (floats.decimal 5 2))
