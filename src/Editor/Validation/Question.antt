-- ===== src/Editor/Validation/Question.antt =====
-- `validateEditorQuestion` of apps/web/src/modules/presentations/model/editor.ts.
pub mod Meaning
pub mod Laws
use pro_slides_go.Base.{
  if◌then◌else◌, ℕ, String, Bool, true, false, not, ◌&&◌, ◌||◌, Option, none, some, List, [], ◌∷◌,
  map, length, count_if, ltb, ◌==◌, value_or, or_else, is_true, str_eq, keep, any, suc,
}
use pro_slides_go.Js.Number.{Number, int, lt, is_safe_integer, num_eq, to_number}
use pro_slides_go.Js.Text.{trim, is_empty}
use pro_slides_go.Editor.Model.{
  QuestionLike, OptionLike, QuestionType, single, Tag, known, other, EvaluationMode, correctness,
  ScoringMode,
}
use pro_slides_go.Editor.Validation.{
  Issue, plain, issue_if, issue_either, first_message, longer, outside, gather,
}
use pro_slides_go.Editor.Wording.{
  question_required_text, question_text_required_text, question_text_too_long_text,
  question_title_too_long_text, question_image_too_long_text, options_too_few_text,
  options_too_many_text, option_text_required_text, option_text_too_long_text,
  option_id_invalid_text, option_image_too_long_text, option_ids_duplicate_text,
  question_type_invalid_text, evaluation_mode_invalid_text, correct_answer_not_allowed_text,
  correct_answer_required_text, single_correct_answer_required_text, scoring_mode_invalid_text,
  scoring_requires_correctness_text, partial_scoring_not_supported_text, question_time_invalid_text,
  unscored_policy_invalid_text, points_invalid_text,
}

pub data QuestionField : Type 0 where
  question question_text question_image question_type : QuestionField
  options option_text option_image question_time points partial_scoring : QuestionField

-- One option of the question, with what the validator reads of it.
module _ (o : OptionLike) where
  abbrev pub option_key : String
  option_key = trim (value_or o.option_id "")

  abbrev pub option_caption : String
  option_caption = trim (value_or (or_else o.text o.option_text) "")

  abbrev option_picture : String
  option_picture = value_or o.image_url ""

  abbrev of_option : String → QuestionField → String → Issue QuestionField
  of_option code field message = record {
    code = code;
    field = field;
    message = message;
    option_id = if is_empty option_key then none else some option_key;
  }

  abbrev pub option_issues : List (List (Issue QuestionField))
  option_issues =
      issue_either (is_empty option_caption)
        (of_option "option_text_required" option_text option_text_required_text)
        (longer 2000 option_caption)
        (of_option "option_text_too_long" option_text option_text_too_long_text)
      ∷ issue_if (is_empty option_key || longer 128 option_key)
          (of_option "option_id_invalid" options option_id_invalid_text)
      ∷ issue_if (longer 4096 option_picture)
          (of_option "option_image_too_long" option_image option_image_too_long_text)
      ∷ []

abbrev member : String → List String → Bool
member x xs = any (str_eq x) xs

-- `new Set(ids).size`.
abbrev pub set_size : List String → ℕ
set_size [] = 0
set_size (x ∷ xs) = if member x xs then set_size xs else suc (set_size xs)

abbrev pub duplicated : List String → Bool
duplicated ids = not (set_size ids == length ids)

abbrev pub type_invalid : Option (Tag QuestionType) → Bool
type_invalid (some (known t)) = false
type_invalid _ = true

abbrev pub is_single : Option (Tag QuestionType) → Bool
is_single (some (known single)) = true
is_single _ = false

abbrev pub evaluation_issues :
    Tag EvaluationMode → Option (Tag QuestionType) → ℕ → List (Issue QuestionField)
evaluation_issues (other mode) type correct =
    plain "evaluation_mode_invalid" options evaluation_mode_invalid_text ∷ []
evaluation_issues (known EvaluationMode.none) type correct =
    issue_if (not (correct == 0))
      (plain "correct_answer_not_allowed" options correct_answer_not_allowed_text)
evaluation_issues (known correctness) type correct =
    issue_either (correct == 0)
      (plain "correct_answer_required" options correct_answer_required_text)
      (is_single type && not (correct == 1))
      (plain "single_correct_answer_required" options single_correct_answer_required_text)

abbrev pub scoring_invalid : Tag ScoringMode → Bool
scoring_invalid (known mode) = false
scoring_invalid (other mode) = true

abbrev pub unevaluated : Tag ScoringMode → Tag EvaluationMode → Bool
unevaluated (known ScoringMode.points) (known correctness) = false
unevaluated (known ScoringMode.points) mode = true
unevaluated scoring mode = false

-- The bounds of a scored question, by the five tests of the source.
abbrev pub points_wrong : Number → Number → Bool
points_wrong low high =
    not (is_safe_integer low)
    || (lt low (int 0) || (not (is_safe_integer high) || (lt high (int 1) || lt high low)))

abbrev pub points_issues :
    Tag ScoringMode → Number → Number → Bool → Bool → List (Issue QuestionField)
points_issues (known ScoringMode.none) low high faster partial =
    issue_if (not (num_eq low (int 0)) || (not (num_eq high (int 0)) || (faster || partial)))
      (plain "unscored_policy_invalid" points unscored_policy_invalid_text)
points_issues (known ScoringMode.points) low high faster partial =
    issue_if (points_wrong low high) (plain "points_invalid" points points_invalid_text)
points_issues (other mode) low high faster partial = []

module _ (q : QuestionLike) where
  abbrev pub asked_text : String
  asked_text = trim (value_or (or_else q.text q.question_text) "")

  abbrev pub shown_picture : String
  shown_picture = value_or (or_else q.image_url q.question_image) ""

  abbrev pub given_options : List OptionLike
  given_options = value_or q.options []

  abbrev pub given_ids : List String
  given_ids = keep (λ id. not (is_empty id)) (map option_key given_options)

  abbrev pub evaluation : Tag EvaluationMode
  evaluation = value_or q.evaluation_mode (known correctness)

  abbrev pub scoring : Tag ScoringMode
  scoring = value_or q.scoring_mode (known ScoringMode.points)

  abbrev pub correct_count : ℕ
  correct_count = count_if (λ o. is_true o.is_correct) given_options

  abbrev pub duration : Number
  duration = to_number (or_else q.question_time q.time_limit)

  abbrev pub question_issues : List (List (Issue QuestionField))
  question_issues =
      issue_either (is_empty asked_text)
        (plain "question_text_required" question_text question_text_required_text)
        (longer 10000 asked_text)
        (plain "question_text_too_long" question_text question_text_too_long_text)
      ∷ issue_if (longer 500 (value_or q.title ""))
          (plain "question_title_too_long" question_text question_title_too_long_text)
      ∷ issue_if (longer 4096 shown_picture)
          (plain "question_image_too_long" question_image question_image_too_long_text)
      ∷ issue_if (ltb (length given_options) 2)
          (plain "options_too_few" options options_too_few_text)
      ∷ issue_if (ltb 100 (length given_options))
          (plain "options_too_many" options options_too_many_text)
      ∷ gather (map (λ o. gather (option_issues o)) given_options)
      ∷ issue_if (duplicated given_ids)
          (plain "option_ids_duplicate" options option_ids_duplicate_text)
      ∷ issue_if (type_invalid q.question_type)
          (plain "question_type_invalid" question_type question_type_invalid_text)
      ∷ evaluation_issues evaluation q.question_type correct_count
      ∷ issue_if (scoring_invalid scoring)
          (plain "scoring_mode_invalid" points scoring_mode_invalid_text)
      ∷ issue_if (unevaluated scoring evaluation)
          (plain "scoring_requires_correctness" points scoring_requires_correctness_text)
      ∷ issue_if (is_single q.question_type && is_true q.partial_scoring)
          (plain "partial_scoring_not_supported" partial_scoring partial_scoring_not_supported_text)
      ∷ issue_if (outside 1 86400 duration)
          (plain "question_time_invalid" question_time question_time_invalid_text)
      ∷ points_issues scoring (to_number q.min_point) (to_number q.max_point)
          (is_true q.faster_answers_more_points) (is_true q.partial_scoring)
      ∷ []

unfoldable pub validate_editor_question : Option QuestionLike → List (Issue QuestionField)
validate_editor_question none = plain "question_required" question question_required_text ∷ []
validate_editor_question (some q) = gather (question_issues q)

unfoldable pub get_question_validation_error : Option QuestionLike → Option String
unfolding validate_editor_question
get_question_validation_error q = first_message (validate_editor_question q)
