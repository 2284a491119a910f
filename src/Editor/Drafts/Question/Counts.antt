-- ===== src/Editor/Drafts/Question/Counts.antt =====
-- How the list operations of apps/web/src/modules/presentations/editor/model/questionDraft.ts
-- change the numbers of options, of identifiers and of marks.
use pro_slides_go.Base.{
  if◌then◌else◌, ℕ, suc, ◌+◌, ◌≤◌, ◌≡◌, refl, Bool, false, not, List, [], ◌∷◌, ◌==◌, String, map,
  map_from, length, keep, count_if, any, arith, ap, inl, inr, some, str_eq, Bool-cases,
  Option-cases, sym, ◌∙◌, true, eq_of_some, get_elem?, remove_at, count-insert, count-remove,
  count-all, ℤ, pos, negsuc,
}
use mathlib.Core.Path.{subst}
use pro_slides_go.Editor.Model.{QuestionType, single, multiple, EvaluationMode, correctness}
use pro_slides_go.Editor.Slides.Laws.{Marked}
use pro_slides_go.Editor.Drafts.Question.{
  has_key, marked, QuestionDraftOption, correct_options, ensure_correct_option, on_option,
  find_option, toggled, toggle, move,
}

-- How many options carry an identifier, and that none is carried twice.
abbrev pub carriers : String → List QuestionDraftOption → ℕ
carriers id os = count_if (has_key id) os

abbrev pub Apart : List QuestionDraftOption → Type 0
Apart os = (id : String) → carriers id os ≤ 1

pub length-remaining :
    (id : String) (os : List QuestionDraftOption)
    → length (keep (λ o. not (has_key id o)) os) + carriers id os ≡ length os
length-remaining id [] = omega arith
length-remaining id (o ∷ os) = ground (arith, length-remaining id os)

pub carriers-keep :
    (p : QuestionDraftOption → Bool) (id : String) (os : List QuestionDraftOption)
    → carriers id (keep p os) ≤ carriers id os
carriers-keep p id [] = omega arith
carriers-keep p id (o ∷ os) = ground (arith, carriers-keep p id os)

pub carriers-on :
    (id key : String) (f : QuestionDraftOption → QuestionDraftOption)
    → ((o : QuestionDraftOption) → (f o).id ≡ o.id)
    → (os : List QuestionDraftOption) → carriers key (on_option id f os) ≡ carriers key os
carriers-on id key f e [] = refl
carriers-on id key f e (o ∷ os) = elim (Bool-cases (has_key id o)) [
  | inl h ↦ rw h (ground (arith, ap (λ x. str_eq x key) (e o), carriers-on id key f e os))
  | inr h ↦ rw h (ground (arith, carriers-on id key f e os))
]

pub carriers-mark :
    (n : ℕ) (key : String) (f : ℕ → QuestionDraftOption → Bool) (os : List QuestionDraftOption)
    → carriers key (map_from n (λ i o. marked (f i o) o) os) ≡ carriers key os
carriers-mark n key f [] = refl
carriers-mark n key f (o ∷ os) = ground (arith, carriers-mark (suc n) key f os)

pub correct-on :
    (id : String) (f : QuestionDraftOption → QuestionDraftOption)
    → ((o : QuestionDraftOption) → (f o).is_correct ≡ o.is_correct)
    → (os : List QuestionDraftOption) → correct_options (on_option id f os) ≡ correct_options os
correct-on id f e [] = refl
correct-on id f e (o ∷ os) = elim (Bool-cases (has_key id o)) [
  | inl h ↦ rw h (ground (arith, e o, correct-on id f e os))
  | inr h ↦ rw h (ground (arith, correct-on id f e os))
]

pub first-marked :
    (n : ℕ) (os : List QuestionDraftOption)
    → correct_options (map_from n (λ i o. marked (i == 0) o) os)
      ≡ (if n == 0 then (if length os == 0 then 0 else 1) else 0)
first-marked n [] = ground arith
first-marked n (o ∷ os) = ground (arith, first-marked (suc n) os)

pub correct-remaining :
    (os : List QuestionDraftOption)
    → any (λ o. QuestionDraftOption.is_correct o) os ≡ not (correct_options os == 0)
correct-remaining [] = refl
correct-remaining (o ∷ os) = ground (arith, correct-remaining os)

pub none-marked : (os : List QuestionDraftOption) → correct_options (map (marked false) os) ≡ 0
none-marked [] = refl
none-marked (o ∷ os) = none-marked os

pub ensured :
    (os : List QuestionDraftOption) (t : QuestionType) (m : EvaluationMode)
    → 1 ≤ length os
    → Marked m t (correct_options (ensure_correct_option os t m))
ensured os t EvaluationMode.none h = none-marked os
ensured os single correctness h = ground (arith, correct-remaining os, first-marked 0 os)
ensured os multiple correctness h = ground (arith, correct-remaining os, first-marked 0 os)

pub on-absent :
    (id : String) (f : QuestionDraftOption → QuestionDraftOption) (os : List QuestionDraftOption)
    → carriers id os ≡ 0
    → on_option id f os ≡ os
on-absent id f [] h = refl
on-absent id f (o ∷ os) h = elim (Bool-cases (has_key id o)) [
  | inl e ↦ absurd (ground (arith, h, e))
  | inr e ↦ rw e (ap (◌∷◌ o) (on-absent id f os (ground (arith, h, e))))
]

pub found-carried :
    (id : String) (os : List QuestionDraftOption) (o : QuestionDraftOption)
    → find_option id os ≡ some o
    → 1 ≤ carriers id os
found-carried id [] o h = cc
found-carried id (x ∷ xs) o h = elim (Bool-cases (has_key id x)) [
  | inl e ↦ rw e (omega arith)
  | inr e ↦ rw e (found-carried id xs o (rw e at h))
]

pub keyed-marked :
    (id : String) (os : List QuestionDraftOption)
    → correct_options (map (λ o. marked (has_key id o) o) os) ≡ carriers id os
keyed-marked id [] = refl
keyed-marked id (o ∷ os) = ground (arith, keyed-marked id os)

abbrev pub flip : QuestionDraftOption → QuestionDraftOption
flip o = marked (not o.is_correct) o

-- Turning the one option that carries an identifier changes the number of correct ones by one.
abbrev pub IsFlipped :
    QuestionDraftOption → List QuestionDraftOption → List QuestionDraftOption → Type 0
IsFlipped o before after =
    (if o.is_correct then suc (correct_options after) else correct_options after)
    ≡ (if o.is_correct then correct_options before else suc (correct_options before))

pub flipped :
    (id : String) (os : List QuestionDraftOption) (o : QuestionDraftOption)
    → carriers id os ≤ 1
    → find_option id os ≡ some o
    → IsFlipped o os (on_option id flip os)
flipped id [] o h e = cc
flipped id (x ∷ xs) o h e = elim (Bool-cases (has_key id x)) [
  | inl k ↦
      let same : x ≡ o = eq_of_some (rw k at e) in
      let rest : on_option id flip xs ≡ xs = on-absent id flip xs (ground (arith, h, k)) in
      subst (λ y. IsFlipped y (x ∷ xs) (on_option id flip (x ∷ xs))) same
        (rw k (rw rest (ground arith)))
  | inr k ↦
      let here : IsFlipped o xs (on_option id flip xs) =
        flipped id xs o (ground (arith, h, k)) (rw k at e) in
      rw k (ground (arith, here))
]

pub toggled-Marked :
    (t : QuestionType) (id : String) (o : QuestionDraftOption) (os : List QuestionDraftOption)
    → carriers id os ≤ 1
    → find_option id os ≡ some o
    → Marked correctness t (correct_options os)
    → Marked correctness t (correct_options (toggled t id o os))
toggled-Marked single id o os h e m = ground (arith, h, found-carried id os o e, keyed-marked id os)
toggled-Marked multiple id o os h e m = ground (arith, m, flipped id os o h e)

pub toggle-Marked :
    (mode : EvaluationMode) (t : QuestionType) (id : String) (os : List QuestionDraftOption)
    → carriers id os ≤ 1
    → Marked mode t (correct_options os)
    → Marked mode t (correct_options (toggle mode t id os))
toggle-Marked EvaluationMode.none t id os h m = m
toggle-Marked correctness t id os h m = elim (Option-cases (find_option id os)) [
  | inl e ↦ rw (toggle, e) m
  | inr (o, e) ↦ rw (toggle, e) (toggled-Marked t id o os h e m)
]

pub keyed-carriers :
    (key id : String) (os : List QuestionDraftOption)
    → carriers key (map (λ o. marked (has_key id o) o) os) ≡ carriers key os
keyed-carriers key id [] = refl
keyed-carriers key id (o ∷ os) = ground (arith, keyed-carriers key id os)

pub carriers-toggled :
    (key : String) (t : QuestionType) (id : String) (o : QuestionDraftOption)
    (os : List QuestionDraftOption)
    → carriers key (toggled t id o os) ≡ carriers key os
carriers-toggled key single id o os = keyed-carriers key id os
carriers-toggled key multiple id o os = ground (
  arith,
  carriers-on id key (λ x. marked (not (QuestionDraftOption.is_correct x)) x) (λ x. refl) os,
)

pub carriers-toggle :
    (key : String) (mode : EvaluationMode) (t : QuestionType) (id : String)
    (os : List QuestionDraftOption)
    → carriers key (toggle mode t id os) ≡ carriers key os
carriers-toggle key EvaluationMode.none t id os = refl
carriers-toggle key correctness t id os = elim (Option-cases (find_option id os)) [
  | inl e ↦ rw (toggle, e) refl
  | inr (o, e) ↦ rw (toggle, e) (carriers-toggled key t id o os)
]

pub moved :
    (p : QuestionDraftOption → Bool) (os : List QuestionDraftOption) (from to : ℤ)
    → count_if p (move os from to) ≡ count_if p os
moved p os (pos s) (pos d) = elim (Option-cases (get_elem? os s)) [
  | inl e ↦ rw (move, e) (ground arith)
  | inr (v, e) ↦
      rw (move, e) (ground (arith, count-insert p d v (remove_at s os), count-remove p s v os e))
]
moved p os (negsuc s) d = refl
moved p os (pos s) (negsuc d) = refl

pub length-move :
    (os : List QuestionDraftOption) (from to : ℤ) → length (move os from to) ≡ length os
length-move os from to = sym (count-all _) ∙ moved (λ o. true) os from to ∙ count-all os
