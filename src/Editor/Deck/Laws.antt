-- ===== src/Editor/Deck/Laws.antt =====
-- A deck after a reorder and after a deletion, for `reorderEditorSlides`, `presentationAfterReorder`
-- and `activeSlideIdAfterDeletion` of apps/web/src/modules/presentations/editor/model.
use pro_slides_go.Base.{
  ℕ, zero, suc, ◌+◌, ◌≤◌, ◌≡◌, refl, String, some, List, [], ◌∷◌, length, map_from, get_elem?,
  insert_at, remove_at, ℤ, pos, negsuc, arith, count_if, Option-cases, inl, inr, eq_of_some,
  length-remove_at, ◌<◌, ap, ◌≢◌, true, false, ◌||◌, map, leb, ◌==◌, Bool-cases, find_index, sym,
  ◌∙◌, eq_refl, ◌-◌, min, Option, none, str_eq, eq_iff, count-insert, count-remove,
}
use pro_slides_go.Editor.Model.{EditorSlide}
use pro_slides_go.Editor.Deck.{
  same_id, at_order, reorder_editor_slides, has_id, without, is_another, neighbour,
  active_slide_id_after_deletion,
}

-- How often a slide's identifier stands in the list.
abbrev pub times : String → List EditorSlide → ℕ
times id slides = count_if (same_id id) slides

times-renumber :
    (id : String) (n : ℕ) (slides : List EditorSlide)
    → times id (map_from n at_order slides) ≡ times id slides
times-renumber id n [] = refl
times-renumber id n (x ∷ xs) = ground (arith, times-renumber id (suc n) xs)

-- A reorder, whatever its indices, keeps the slides: each identifier stands in the list as often as
-- before.
pub reorder_editor_slides-times :
    (slides : List EditorSlide) (source destination : ℤ) (id : String)
    → times id (reorder_editor_slides slides source destination) ≡ times id slides
unfolding reorder_editor_slides
reorder_editor_slides-times slides (pos s) (pos d) id = elim (Option-cases (get_elem? slides s)) [
  | inl e ↦ rw e (ground arith)
  | inr (v, e) ↦ rw e (
      ground (
        arith,
        times-renumber id 0 (insert_at d v (remove_at s slides)),
        count-insert (same_id id) d v (remove_at s slides),
        count-remove (same_id id) s v slides e,
      ))
]
reorder_editor_slides-times slides (negsuc s) d id = refl
reorder_editor_slides-times slides (pos s) (negsuc d) id = refl

abbrev pub ids : List EditorSlide → List String
ids slides = map (λ slide. EditorSlide.slide_id slide) slides

get-insert :
    (d n k : ℕ) (v : EditorSlide) (xs : List EditorSlide)
    → d ≤ length xs
    → k ≡ n + d
    → get_elem? (map_from n at_order (insert_at d v xs)) d ≡ some (at_order k v)
get-insert zero n k v xs h e = ap (λ i. some (at_order i v)) (omega (arith, e))
get-insert (suc d) n k v [] h e = absurd (omega (arith, h))
get-insert (suc d) n k v (x ∷ xs) h e =
    get-insert d (suc n) k v xs (omega (arith, h)) (omega (arith, e))

ids-renumber : (n : ℕ) (xs : List EditorSlide) → ids (map_from n at_order xs) ≡ ids xs
ids-renumber n [] = refl
ids-renumber n (x ∷ xs) = ap (◌∷◌ x.slide_id) (ids-renumber (suc n) xs)

ids-remove-insert :
    (d n : ℕ) (v : EditorSlide) (xs : List EditorSlide)
    → d ≤ length xs
    → ids (remove_at d (map_from n at_order (insert_at d v xs))) ≡ ids xs
ids-remove-insert zero n v xs h = ids-renumber (suc n) xs
ids-remove-insert (suc d) n v [] h = absurd (omega (arith, h))
ids-remove-insert (suc d) n v (x ∷ xs) h =
    ap (◌∷◌ x.slide_id) (ids-remove-insert d (suc n) v xs (omega (arith, h)))

-- Between two different positions of the list, the slide at the first stands at the second
-- afterwards, with that order, and the other slides keep their sequence.
pub reorder_editor_slides-moved :
    (slides : List EditorSlide) (s d : ℕ) (v : EditorSlide)
    → s < length slides
    → d < length slides
    → s ≢ d
    → get_elem? slides s ≡ some v
    → (get_elem? (reorder_editor_slides slides (pos s) (pos d)) d ≡ some (at_order d v))
      × (ids (remove_at d (reorder_editor_slides slides (pos s) (pos d)))
          ≡ ids (remove_at s slides))
unfolding reorder_editor_slides
reorder_editor_slides-moved slides s d v hs hd n e =
    let inside : (leb (length slides) s || (leb (length slides) d || s == d)) ≡ false =
      ground arith in
    let room : d ≤ length (remove_at s slides) = ground (arith, length-remove_at s slides hs) in
    rw inside (
      rw e (
        get-insert d 0 d v (remove_at s slides) room (omega arith),
        ids-remove-insert d 0 v (remove_at s slides) room,
      ))

apart : (x id deleted : String) → str_eq x id ≡ true → id ≢ deleted → str_eq x deleted ≡ false
apart x id deleted e n = elim (Bool-cases (str_eq x deleted)) [
  | inl f ↦ absurd (n (sym ((eq_iff x id).0 e) ∙ (eq_iff x deleted).0 f))
  | inr f ↦ f
]

in-without :
    (id deleted : String) (slides : List EditorSlide)
    → has_id id slides ≡ true
    → id ≢ deleted
    → has_id id (without deleted slides) ≡ true
in-without id deleted [] h n = h
in-without id deleted (x ∷ xs) h n = elim (Bool-cases (same_id id x)) [
  | inl e ↦ ground (arith, e, apart x.slide_id id deleted e n)
  | inr e ↦ ground (arith, in-without id deleted xs (ground (arith, h, e)) n, e)
]

get-in :
    (slides : List EditorSlide) (i : ℕ) (v : EditorSlide)
    → get_elem? slides i ≡ some v
    → has_id v.slide_id slides ≡ true
get-in [] i v h = cc
get-in (x ∷ xs) zero v h =
    ground
      (arith, eq_refl x.slide_id, ap (λ y. same_id v.slide_id y) (eq_of_some h), eq_refl v.slide_id)
get-in (x ∷ xs) (suc i) v h = ground (arith, get-in xs i v h)

found :
    (deleted : String) (slides : List EditorSlide)
    → has_id deleted slides ≡ true
    → (i : ℕ) × (find_index (same_id deleted) slides ≡ some i)
found deleted [] h = cc
found deleted (x ∷ xs) h = elim (Bool-cases (same_id deleted x)) [
  | inl e ↦ (0, rw e refl)
  | inr e ↦ let (i, f) = found deleted xs (ground (arith, h, e)) in (suc i, rw e (rw f refl))
]

in-range :
    (slides : List EditorSlide) (i : ℕ)
    → i < length slides
    → (v : EditorSlide) × (get_elem? slides i ≡ some v)
in-range [] i h = absurd (omega (arith, h))
in-range (x ∷ xs) zero h = (x, refl)
in-range (x ∷ xs) (suc i) h = in-range xs i (omega (arith, h))

-- The slide that is active after a deletion: one of those left, or none where none is left.
abbrev pub Remains : List EditorSlide → Option String → Type 0
Remains rest none = rest ≡ []
Remains rest (some id) = has_id id rest ≡ true

neighbour-Remains :
    (rest : List EditorSlide) (i : ℕ) (active : Option String)
    → Remains rest (neighbour rest (some i) active)
neighbour-Remains [] i active = refl
neighbour-Remains (x ∷ xs) i active =
    let (v, e) = in-range (x ∷ xs) (min i (length (x ∷ xs) - 1)) (omega arith) in
    rw e (get-in (x ∷ xs) _ v e)

another-Remains :
    (slides : List EditorSlide) (deleted : String) (active : Option String)
    → is_another active deleted ≡ true
    → ((a : String) → active ≡ some a → has_id a slides ≡ true)
    → Remains (without deleted slides) active
another-Remains slides deleted none h k = cc
another-Remains slides deleted (some a) h k =
    in-without a deleted slides (k a refl) (λ e. ground (arith, h, (eq_iff a deleted).1 e))

-- After the deletion of a slide of the list, where the active slide, if there is one, was of the
-- list, the active slide is one of those left, and there is none only if none is left.
pub active_slide_id_after_deletion-Remains :
    (slides : List EditorSlide) (deleted : String) (active : Option String)
    → has_id deleted slides ≡ true
    → ((a : String) → active ≡ some a → has_id a slides ≡ true)
    → Remains (without deleted slides) (active_slide_id_after_deletion slides deleted active)
unfolding active_slide_id_after_deletion
active_slide_id_after_deletion-Remains slides deleted active h k =
    elim (Bool-cases (is_another active deleted)) [
      | inl e ↦ rw e (another-Remains slides deleted active e k)
      | inr e ↦
          let (i, f) = found deleted slides h in
          rw e (rw f (neighbour-Remains (without deleted slides) i active))
    ]
