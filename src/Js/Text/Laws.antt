-- ===== src/Js/Text/Laws.antt =====
-- `String.prototype.trim` and the number of code points.
use Prim.Native.Nat.{◌≤◌}
use Prim.Native.Char.{Char, code}
use Prim.Native.String.{String, count}
use text.Mathlib.TextLemmas.{length-nil, length-cons}
use pro_slides_go.Base.{◌≡◌, refl, inl, inr, false, arith, Bool-cases}
use pro_slides_go.Js.Text.{close, is_space, is_empty, trim_start, trim_end, trim}

-- A text that is empty or begins with no white space.
abbrev IsFlush : String → Type 0
IsFlush String.[] = Unit
IsFlush (String.◌∷◌ c s) = is_space (code c) ≡ false

trim_start-IsFlush : (s : String) → IsFlush (trim_start s)
unfolding trim_start
trim_start-IsFlush String.[] = tt
trim_start-IsFlush (String.◌∷◌ c s) = elim (Bool-cases (is_space (code c))) [
  | inl blank ↦ rw blank (trim_start-IsFlush s)
  | inr shown ↦ rw shown shown
]

trim_start_of_IsFlush : (s : String) → IsFlush s → trim_start s ≡ s
unfolding trim_start
trim_start_of_IsFlush String.[] h = refl
trim_start_of_IsFlush (String.◌∷◌ c s) h = rw h

trim_end-IsFlush : (s : String) → IsFlush s → IsFlush (trim_end s)
unfolding trim_end
trim_end-IsFlush String.[] h = tt
trim_end-IsFlush (String.◌∷◌ c s) h = elim (Bool-cases (is_empty (trim_end s))) [
  | inl e ↦ rw (e, h) h
  | inr e ↦ rw (e, h)
]

trim_end-close : (c : Char) (t : String) → trim_end t ≡ t → trim_end (close c t) ≡ close c t
unfolding trim_end
trim_end-close c t h = elim (Bool-cases (is_empty t)) [
  | inl e ↦ elim (Bool-cases (is_space (code c))) [
    | inl k ↦ rw (e, k)
    | inr k ↦ rw (e, k) (rw (h, e, k))
  ]
  | inr e ↦ rw e (rw (h, e))
]

trim_end-trim_end : (s : String) → trim_end (trim_end s) ≡ trim_end s
unfolding trim_end
trim_end-trim_end String.[] = refl
trim_end-trim_end (String.◌∷◌ c s) = trim_end-close c (trim_end s) (trim_end-trim_end s)

pub trim_idem : (s : String) → trim (trim s) ≡ trim s
unfolding trim
trim_idem s =
    rw (trim_start_of_IsFlush _ (trim_end-IsFlush _ (trim_start-IsFlush s)))
      (trim_end-trim_end (trim_start s))

count-trim_start-le : (s : String) → count (trim_start s) ≤ count s
unfolding trim_start
count-trim_start-le String.[] = omega arith
count-trim_start-le (String.◌∷◌ c s) = ground (arith, count-trim_start-le s, length-cons c s)

count-trim_end-le : (s : String) → count (trim_end s) ≤ count s
unfolding trim_end
count-trim_end-le String.[] = omega arith
count-trim_end-le (String.◌∷◌ c s) =
    ground (arith, count-trim_end-le s, length-cons c s, length-cons c (trim_end s), length-nil)

pub count-trim-le : (s : String) → count (trim s) ≤ count s
unfolding trim
count-trim-le s = omega (arith, count-trim_end-le (trim_start s), count-trim_start-le s)

-- A text without white space is its own trimmed text.
abbrev pub HasNoSpace : String → Type 0
HasNoSpace String.[] = Unit
HasNoSpace (String.◌∷◌ c s) = (is_space (code c) ≡ false) × HasNoSpace s

trim_end_of_HasNoSpace : (s : String) → HasNoSpace s → trim_end s ≡ s
unfolding trim_end
trim_end_of_HasNoSpace String.[] h = refl
trim_end_of_HasNoSpace (String.◌∷◌ c s) (k, h) = rw (trim_end_of_HasNoSpace s h) (ground (arith, k))

pub trim_of_HasNoSpace : (s : String) → HasNoSpace s → trim s ≡ s
unfolding trim trim_start
trim_of_HasNoSpace String.[] h = unfold trim_end in refl
trim_of_HasNoSpace (String.◌∷◌ c s) (k, h) = rw k (trim_end_of_HasNoSpace (String.◌∷◌ c s) (k, h))
