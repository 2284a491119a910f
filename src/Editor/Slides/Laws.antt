-- ===== src/Editor/Slides/Laws.antt =====
-- What a slide's question satisfies after a conversion by `convertSlideToQuestion` of
-- apps/web/src/modules/presentations/editor/model/slideMutations.ts.
use pro_slides_go.Base.{
  if◌then◌else◌, ℕ, suc, ◌+◌, ◌≤◌, ◌≡◌, refl, Bool, Option, some, List, [], ◌∷◌, length, map_from,
  find_index, count_if, arith, ◌==◌, ltb, zero, String, inl, inr, none, Bool-cases, value_or,
  Option-cases, ◌++◌, length-append, length-map_from,
}
use pro_slides_go.Js.Text.{is_empty}
use pro_slides_go.Editor.Model.{
  EditorOption, QuestionType, single, multiple, EvaluationMode, correctness, ScoringMode,
  EditorQuestion, EditorSlide,
}
use pro_slides_go.Base.Lists.{shift}
use pro_slides_go.Editor.Slides.{
  pad_on, mark, remarked, normalize_options, ChoicePolicy, evaluates, create_default_question,
  pad_options, converted_question, convert_slide_to_question,
}

-- The options marked as correct, and what the evaluation mode and the type ask of their number.
abbrev pub count_correct : List EditorOption → ℕ
count_correct os = count_if (λ o. EditorOption.is_correct o) os

abbrev pub Marked : EvaluationMode → QuestionType → ℕ → Type 0
Marked EvaluationMode.none type n = n ≡ 0
Marked correctness single n = n ≡ 1
Marked correctness multiple n = 1 ≤ n

-- The orders from `n` on.
abbrev pub Numbered : ℕ → List EditorOption → Type 0
Numbered n [] = Unit
Numbered n (o ∷ os) = (o.order ≡ n) × Numbered (suc n) os

unmarked :
    (first : Option ℕ) (n : ℕ) (type : QuestionType) (os : List EditorOption)
    → count_correct (
        map_from n
          (λ i o.
            remarked (mark EvaluationMode.none type first i (EditorOption.is_correct o)) (suc i) o)
          os)
      ≡ 0
unmarked first n type [] = refl
unmarked first n type (o ∷ os) = unmarked first (suc n) type os

-- Marking the position `k` alone marks one option, if there is such a position.
marked_at :
    (k n : ℕ) (f : ℕ → Bool → Bool)
    → ((i : ℕ) (b : Bool) → f i b ≡ (i == k))
    → (os : List EditorOption)
    → count_correct (map_from n (λ i o. remarked (f i (EditorOption.is_correct o)) (suc i) o) os)
      ≡ (if ltb k n then 0 else if ltb k (n + length os) then 1 else 0)
marked_at k n f e [] = ground arith
marked_at k n f e (o ∷ os) = ground (arith, e n o.is_correct, marked_at k (suc n) f e os)

kept_marks :
    (n : ℕ) (k : ℕ) (os : List EditorOption)
    → count_correct (
        map_from n
          (λ i o.
            remarked (mark correctness multiple (some k) i (EditorOption.is_correct o)) (suc i) o)
          os)
      ≡ count_correct os
kept_marks n k [] = refl
kept_marks n k (o ∷ os) = ground (arith, kept_marks (suc n) k os)

-- Where `findIndex` finds an option, its position is one of the list, and the option counts.
abbrev IsFound : List EditorOption → Option ℕ → Type 0
IsFound os none = count_correct os ≡ 0
IsFound os (some k) = (suc k ≤ length os) × (1 ≤ count_correct os)

IsFound-step :
    (o : EditorOption) (os : List EditorOption) (r : Option ℕ)
    → IsFound os r
    → IsFound (o ∷ os) (if o.is_correct then some 0 else shift r)
IsFound-step o os none h = elim (Bool-cases o.is_correct) [
  | inl e ↦ rw e (omega arith, omega arith)
  | inr e ↦ rw e h
]
IsFound-step o os (some k) h = elim (Bool-cases o.is_correct) [
  | inl e ↦ rw e (omega arith, omega arith)
  | inr e ↦ rw e (omega (arith, h), h.1)
]

find_index-IsFound :
    (os : List EditorOption) → IsFound os (find_index (λ o. EditorOption.is_correct o) os)
find_index-IsFound [] = refl
find_index-IsFound (o ∷ os) = IsFound-step o os _ (find_index-IsFound os)

marked_with :
    (m : EvaluationMode) (t : QuestionType) (os : List EditorOption) (first : Option ℕ)
    → 1 ≤ length os
    → IsFound os first
    → Marked m t (
        count_correct (
          map_from 0 (λ i o. remarked (mark m t first i (EditorOption.is_correct o)) (suc i) o) os))
marked_with EvaluationMode.none t os first h f = unmarked first 0 t os
marked_with correctness single os none h f =
    ground (arith, marked_at 0 0 (λ i b. mark correctness single none i b) (λ i b. refl) os)
marked_with correctness single os (some k) h f =
    ground (arith, f, marked_at k 0 (λ i b. mark correctness single (some k) i b) (λ i b. refl) os)
marked_with correctness multiple os none h f =
    ground (arith, marked_at 0 0 (λ i b. mark correctness multiple none i b) (λ i b. refl) os)
marked_with correctness multiple os (some k) h f = ground (arith, f, kept_marks 0 k os)

-- For at least one option, the options that a conversion leaves have as many correct ones as the
-- evaluation mode and the type ask: none, one, or at least one.
pub normalize_options-Marked :
    (m : EvaluationMode) (t : QuestionType) (os : List EditorOption)
    → 1 ≤ length os
    → Marked m t (count_correct (normalize_options m t os))
normalize_options-Marked m t os h = marked_with m t os _ h (find_index-IsFound os)

numbered :
    (n : ℕ) (f : ℕ → EditorOption → Bool) (os : List EditorOption)
    → Numbered (suc n) (map_from n (λ i o. remarked (f i o) (suc i) o) os)
numbered n f [] = tt
numbered n f (o ∷ os) = (refl, numbered (suc n) f os)

pub normalize_options-Numbered :
    (m : EvaluationMode) (t : QuestionType) (os : List EditorOption)
    → Numbered 1 (normalize_options m t os)
normalize_options-Numbered m t os = numbered 0 _ os

default_marks : (m : EvaluationMode) (t : QuestionType) → Marked m t (if evaluates m then 1 else 0)
default_marks EvaluationMode.none t = refl
default_marks correctness single = refl
default_marks correctness multiple = omega arith

grown :
    (fuel : ℕ) (os : List EditorOption) (o : EditorOption)
    → 2 ≤ suc fuel + length os
    → 2 ≤ fuel + length (os ++ o ∷ [])
grown fuel os o h = ground (arith, h, length-append os (o ∷ []))

module _ {S : Type 0} (create_id : S → String × S) where
  padded :
      (fuel : ℕ) (os : List EditorOption) (s : S)
      → 2 ≤ fuel + length os
      → 2 ≤ length (pad_on create_id fuel os s).0
  unfolding pad_on
  padded zero os s h = omega (arith, h)
  padded (suc fuel) os s h = elim (Bool-cases (ltb (length os) 2)) [
    | inl e ↦ rw e (padded fuel (os ++ _ ∷ []) _ (grown fuel os _ h))
    | inr e ↦ rw e (ground (arith, e))
  ]

  pad_options-enough : (os : List EditorOption) (s : S) → 2 ≤ length (pad_options create_id os s).0
  unfolding pad_options
  pad_options-enough os s = padded 2 os s (omega arith)

length-normalized :
    (m : EvaluationMode) (t : QuestionType) (os : List EditorOption)
    → length (normalize_options m t os) ≡ length os
length-normalized m t os = length-map_from 0 _ os

-- What a question has after a conversion: enough options, marked as its modes ask, numbered from 1.
pub record IsConverted (q : EditorQuestion) : Type 0 where
  pub enough : 2 ≤ length q.options
  pub marked :
      Marked (value_or q.evaluation_mode correctness) q.question_type (count_correct q.options)
  pub numbered : Numbered 1 q.options

module _ {S : Type 0} (create_id : S → String × S) where
  default-IsConverted :
      (id : String) (t : QuestionType) (policy : ChoicePolicy) (s : S)
      → IsConverted (create_default_question create_id id t policy s).0
  unfolding create_default_question
  default-IsConverted id t policy s = record {
    enough = omega arith;
    marked = default_marks policy.evaluation_mode t;
    numbered = (refl, (refl, tt));
  }

  kept-IsConverted :
      (q : EditorQuestion) (t : QuestionType) (m : EvaluationMode) (c : ScoringMode) (s : S)
      → IsConverted (converted_question create_id q t m c (pad_options create_id q.options s).0)
  kept-IsConverted q t m c s = record {
    enough = ground (
      arith,
      length-normalized m t (pad_options create_id q.options s).0,
      pad_options-enough create_id q.options s,
    );
    marked =
        normalize_options-Marked m t _ ground (arith, pad_options-enough create_id q.options s);
    numbered = normalize_options-Numbered m t _;
  }

  -- Whatever slide is converted to a question, under whatever type, policy and source of
  -- identifiers, it then has a question of that type with at least two options, numbered from 1,
  -- of which none, one or at least one is correct, as its evaluation mode and type ask.
  pub convert_slide_to_question-IsConverted :
      (slide : EditorSlide) (t : QuestionType) (policy : Option ChoicePolicy) (s : S)
      → (q : EditorQuestion) × ((convert_slide_to_question create_id slide t policy s).0.question
          ≡ some q)
        × (q.question_type ≡ t)
        × IsConverted q
  unfolding convert_slide_to_question
  convert_slide_to_question-IsConverted slide t policy s = elim (Option-cases slide.question) [
    | inl e ↦ rw e (_, refl, refl, default-IsConverted _ t _ s)
    | inr (q, e) ↦ elim (Bool-cases (is_empty q.question_id)) [
      | inl b ↦ rw e (rw b (_, refl, refl, default-IsConverted _ t _ s))
      | inr b ↦ rw e (rw b (_, refl, refl, kept-IsConverted q t _ _ s))
    ]
  ]
