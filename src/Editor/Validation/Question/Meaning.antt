-- ===== src/Editor/Validation/Question/Meaning.antt =====
-- What a question has to satisfy to be run, in words of its own, for `validateEditorQuestion` of
-- apps/web/src/modules/presentations/model/editor.ts.
use pro_slides_go.Base.{
  ℕ, ◌≤◌, String, ◌≡◌, ◌≢◌, Bool, false, Option, some, List, [], ◌∷◌, length, value_or, or_else,
  is_true, All, map,
}
use pro_slides_go.Js.Number.{Number, int, to_number}
use pro_slides_go.Js.Text.{text_length}
use pro_slides_go.Editor.Model.{
  QuestionLike, OptionLike, QuestionType, single, Tag, known, other, EvaluationMode, correctness,
  ScoringMode,
}
use pro_slides_go.Editor.Validation.{InRange}
use pro_slides_go.Editor.Validation.Question.{
  option_key, option_caption, asked_text, given_options, evaluation, scoring, correct_count,
  duration,
}

-- No text occurs twice.
abbrev pub Distinct : List String → Type 0
Distinct [] = Unit
Distinct (x ∷ xs) = All (λ y. x ≢ y) xs × Distinct xs

pub record IsOffered (o : OptionLike) : Type 0 where
  pub captioned : option_caption o ≢ ""
  pub caption_fits : text_length (option_caption o) ≤ 2000
  pub keyed : option_key o ≢ ""
  pub key_fits : text_length (option_key o) ≤ 128
  pub picture_fits : text_length (value_or o.image_url "") ≤ 4096

-- The number of options marked as correct, against the evaluation mode and the type.
abbrev pub IsMarked : Tag EvaluationMode → Option (Tag QuestionType) → ℕ → Type 0
IsMarked (other mode) type correct = ⊥
IsMarked (known EvaluationMode.none) type correct = correct ≡ 0
IsMarked (known correctness) type correct =
    (1 ≤ correct) × (type ≡ some (known single) → correct ≡ 1)

-- The points, against the scoring and the evaluation mode: without scoring all is off, and with
-- scoring both bounds are integers that a double holds exactly.
abbrev pub IsPriced : Tag ScoringMode → Tag EvaluationMode → Number → Number → Bool → Bool → Type 0
IsPriced (other name) mode low high faster partial = ⊥
IsPriced (known ScoringMode.none) mode low high faster partial =
    (low ≡ int 0) × (high ≡ int 0) × (faster ≡ false) × (partial ≡ false)
IsPriced (known ScoringMode.points) mode low high faster partial =
    (mode ≡ known correctness)
    × ((a : ℕ) × (b : ℕ) × (low ≡ int a)
        × (high ≡ int b)
        × (a ≤ b)
        × (1 ≤ b)
        × (b ≤ 9007199254740991))

pub record IsRunnable (q : QuestionLike) : Type 0 where
  pub asked : asked_text q ≢ ""
  pub text_fits : text_length (asked_text q) ≤ 10000
  pub title_fits : text_length (value_or q.title "") ≤ 500
  pub picture_fits : text_length (value_or (or_else q.image_url q.question_image) "") ≤ 4096
  pub enough_options : 2 ≤ length (given_options q)
  pub few_options : length (given_options q) ≤ 100
  pub offered : All IsOffered (given_options q)
  pub distinct_ids : Distinct (map option_key (given_options q))
  pub typed : (t : QuestionType) × (q.question_type ≡ some (known t))
  pub marked : IsMarked (evaluation q) q.question_type (correct_count q)
  pub priced :
      IsPriced
        (scoring q)
        (evaluation q)
        (to_number q.min_point)
        (to_number q.max_point)
        (is_true q.faster_answers_more_points)
        (is_true q.partial_scoring)
  pub partial_only_multiple :
      q.question_type ≡ some (known single) → is_true q.partial_scoring ≡ false
  pub time_bounds : InRange 1 86400 (duration q)
