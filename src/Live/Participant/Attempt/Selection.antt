-- ===== src/Live/Participant/Attempt/Selection.antt =====
-- The selection of options, for `toggleParticipantOption` of
-- apps/web/src/modules/live/participant/answerAttempt.ts.
use pro_slides_go.Base.{
  ℕ, ◌<◌, List, [], ◌∷◌, All, ◌≤◌, ◌≡◌, refl, sym, ap, ◌∙◌, inl, inr, Bool, true, false, not, ◌&&◌,
  ◌||◌, ◌++◌, arith, leb, ◌==◌, ==_iff, Bool-cases, keep,
}
use pro_slides_go.Live.Participant.Attempt.{
  insert_sorted, includes, sort, toggle_participant_option,
}
use mathlib.Core.Path.{subst}

-- Rising without repetition.
abbrev pub IsRising : List ℕ → Type 0
IsRising [] = Unit
IsRising (x ∷ xs) = All (λ y. x < y) xs × IsRising xs

below_all : (x y : ℕ) (ys : List ℕ) → x ≤ y → All (λ z. y < z) ys → All (λ z. x < z) ys
below_all x y [] h k = tt
below_all x y (z ∷ zs) h (a, k) = (omega (arith, h, a), below_all x y zs h k)

insert_front : (x : ℕ) (ys : List ℕ) → All (λ y. x < y) ys → insert_sorted x ys ≡ x ∷ ys
insert_front x [] h = refl
insert_front x (y ∷ ys) (a, h) = ground (arith, a)

insert_swap :
    (i x : ℕ) (ys : List ℕ)
    → All (λ y. x < y) ys
    → insert_sorted x (insert_sorted i ys) ≡ insert_sorted i (x ∷ ys)
insert_swap i x [] h = ground arith
insert_swap i x (y ∷ ys) (a, h) = ground (arith, a, insert_front x ys h)

-- On a rising selection, sorting with one more at the end puts it at its place.
sort-append : (i : ℕ) (xs : List ℕ) → IsRising xs → sort (xs ++ i ∷ []) ≡ insert_sorted i xs
sort-append i [] h = refl
sort-append i (x ∷ xs) (a, h) = rw (sort-append i xs h) (insert_swap i x xs a)

includes-insert :
    (i j : ℕ) (xs : List ℕ) → includes (insert_sorted i xs) j ≡ ((i == j) || includes xs j)
includes-insert i j [] = ground arith
includes-insert i j (x ∷ xs) = ground (arith, includes-insert i j xs)

pub includes-keep :
    (i j : ℕ) (xs : List ℕ)
    → includes (keep (λ v. not (v == i)) xs) j ≡ (not (j == i) && includes xs j)
includes-keep i j [] = ground arith
includes-keep i j (x ∷ xs) = ground (arith, includes-keep i j xs)

insert-All : (P : ℕ → Type 0) (i : ℕ) (xs : List ℕ) → P i → All P xs → All P (insert_sorted i xs)
insert-All P i [] p h = (p, tt)
insert-All P i (x ∷ xs) p (a, h) = elim (Bool-cases (leb i x)) [
  | inl e ↦ rw e (p, (a, h))
  | inr e ↦ rw e (a, insert-All P i xs p h)
]

insert-IsRising :
    (i : ℕ) (xs : List ℕ) → includes xs i ≡ false → IsRising xs → IsRising (insert_sorted i xs)
insert-IsRising i [] e h = (tt, tt)
insert-IsRising i (x ∷ xs) e (a, h) = elim (Bool-cases (leb i x)) [
  | inl f ↦ rw f ((ground (arith, e, f), below_all i x xs (ground (arith, f)) a), (a, h))
  | inr f ↦ rw f (
    insert-All (λ y. x < y) i xs (ground (arith, f)) a,
    insert-IsRising i xs (ground (arith, e)) h,
  )
]

keep-All : (P : ℕ → Type 0) (p : ℕ → Bool) (xs : List ℕ) → All P xs → All P (keep p xs)
keep-All P p [] h = tt
keep-All P p (x ∷ xs) (a, h) = elim (Bool-cases (p x)) [
  | inl e ↦ rw e (a, keep-All P p xs h)
  | inr e ↦ rw e (keep-All P p xs h)
]

keep-IsRising : (p : ℕ → Bool) (xs : List ℕ) → IsRising xs → IsRising (keep p xs)
keep-IsRising p [] h = tt
keep-IsRising p (x ∷ xs) (a, h) = elim (Bool-cases (p x)) [
  | inl e ↦ rw e (keep-All (λ y. x < y) p xs a, keep-IsRising p xs h)
  | inr e ↦ rw e (keep-IsRising p xs h)
]

absent : (i : ℕ) (xs : List ℕ) → All (λ y. i < y) xs → includes xs i ≡ false
absent i [] h = refl
absent i (x ∷ xs) (a, h) = ground (arith, a, absent i xs h)

keep_absent : (i : ℕ) (xs : List ℕ) → includes xs i ≡ false → keep (λ v. not (v == i)) xs ≡ xs
keep_absent i [] e = refl
keep_absent i (x ∷ xs) e = ground (arith, e, keep_absent i xs (ground (arith, e)))

keep-insert :
    (i : ℕ) (xs : List ℕ)
    → includes xs i ≡ false
    → keep (λ v. not (v == i)) (insert_sorted i xs) ≡ xs
keep-insert i [] e = ground arith
keep-insert i (x ∷ xs) e =
    ground (arith, e, keep_absent i xs (ground (arith, e)), keep-insert i xs (ground (arith, e)))

member : (P : ℕ → Type 0) (i : ℕ) (xs : List ℕ) → All P xs → includes xs i ≡ true → P i
member P i [] h e = cc
member P i (x ∷ xs) (a, h) e = elim (Bool-cases (x == i)) [
  | inl f ↦ subst P ((==_iff x i).0 f) a
  | inr f ↦ member P i xs h (ground (arith, e, f))
]

insert-keep :
    (i : ℕ) (xs : List ℕ)
    → IsRising xs
    → includes xs i ≡ true
    → insert_sorted i (keep (λ v. not (v == i)) xs) ≡ xs
insert-keep i [] h e = cc
insert-keep i (x ∷ xs) (a, h) e = elim (Bool-cases (x == i)) [
  | inl f ↦
      let same : x ≡ i = (==_iff x i).0 f in
      let gone : includes xs i ≡ false = subst (λ y. includes xs y ≡ false) same (absent x xs a) in
      rw f (
        rw (keep_absent i xs gone) (
          insert_front i xs (subst (λ y. All (λ z. y < z) xs) same a)
          ∙ ap (λ y. y ∷ xs) (sym same)))
  | inr f ↦
      let there : includes xs i ≡ true = ground (arith, e, f) in
      let low : x < i = member (λ y. x < y) i xs a there in
      rw f (ground (arith, low, insert-keep i xs h there))
]

-- What a click on option `i` of several does to a selection.
pub record IsToggled (i : ℕ) (before after : List ℕ) : Type 0 where
  pub rising : IsRising after
  pub flipped : includes after i ≡ not (includes before i)
  pub others : (j : ℕ) → (j == i) ≡ false → includes after j ≡ includes before j

IsToggled-off :
    (s : List ℕ) (i : ℕ)
    → IsRising s
    → includes s i ≡ true
    → IsToggled i s (keep (λ v. not (v == i)) s)
IsToggled-off s i h e = record {
  rising = keep-IsRising (λ v. not (v == i)) s h;
  flipped = ground (arith, e, includes-keep i i s);
  others = λ j f. ground (arith, f, includes-keep i j s);
}

IsToggled-on :
    (s : List ℕ) (i : ℕ) → IsRising s → includes s i ≡ false → IsToggled i s (insert_sorted i s)
IsToggled-on s i h e = record {
  rising = insert-IsRising i s e h;
  flipped = ground (arith, e, includes-insert i i s);
  others = λ j f. ground (arith, f, includes-insert i j s);
}

off :
    (s : List ℕ) (i : ℕ)
    → includes s i ≡ true
    → toggle_participant_option s i true ≡ keep (λ v. not (v == i)) s
unfolding toggle_participant_option
off s i e = rw e refl

on :
    (s : List ℕ) (i : ℕ)
    → IsRising s
    → includes s i ≡ false
    → toggle_participant_option s i true ≡ insert_sorted i s
unfolding toggle_participant_option
on s i h e = rw e (sort-append i s h)

-- Where several options may be chosen, a click on one of a rising selection gives a rising
-- selection that differs in that option alone, and a second click takes it back.
pub toggle_participant_option-twice :
    (s : List ℕ) (i : ℕ)
    → IsRising s
    → IsToggled i s (toggle_participant_option s i true)
      × (toggle_participant_option (toggle_participant_option s i true) i true ≡ s)
toggle_participant_option-twice s i h = elim (Bool-cases (includes s i)) [
  | inl e ↦
      let t = IsToggled-off s i h e in
      rw (off s i e) (
        t,
        on (keep (λ v. not (v == i)) s) i t.rising (ground (arith, t.flipped, e))
            ∙ insert-keep i s h e,
      )
  | inr e ↦
      let t = IsToggled-on s i h e in
      rw (on s i h e)
        (t, off (insert_sorted i s) i (ground (arith, t.flipped, e)) ∙ keep-insert i s e)
]
