-- ===== src/Editor/Drafts/Question/Slide.antt =====
-- From a slide to the draft of its question and back: `createQuestionDraft`, `questionDraftEquals`,
-- `validateQuestionDraft` and `questionDraftToEditorSlide` of
-- apps/web/src/modules/presentations/editor/model/questionDraft.ts. How `Intl.NumberFormat` writes
-- a number is a parameter.
use pro_slides_go.Base.{
  ℕ, suc, String, Bool, true, false, ◌&&◌, ◌⊎◌, Option, none, some, List, [], ◌∷◌, ◌==◌, str_eq,
  if◌then◌else◌, map, map_from, value_or,
}
use pro_slides_go.Js.Number.{Number, int}
use pro_slides_go.Js.Text.{trim}
use pro_slides_go.Editor.Model.{
  EditorSlide, EditorQuestion, EditorOption, EditorItemKind, content, activity, QuestionType,
  single, multiple, EvaluationMode, correctness, ScoringMode, QuestionLike, OptionLike, known,
}
use pro_slides_go.Editor.Validation.{Issue}
use pro_slides_go.Editor.Validation.Question.{QuestionField, validate_editor_question}
use pro_slides_go.Editor.Slides.{evaluates, scores, is_multiple, text_or}
use pro_slides_go.Editor.Drafts.{unless_issue}
use pro_slides_go.Editor.Drafts.Integer.{parse_draft_integer}
use pro_slides_go.Editor.Drafts.Question.{QuestionDraft, QuestionDraftOption}

abbrev is_activity : EditorItemKind → Bool
is_activity content = false
is_activity activity = true

abbrev is_choice : Option String → Bool
is_choice none = false
is_choice (some kind) = str_eq kind "choice"

abbrev is_first : Option ℕ → Bool
is_first none = false
is_first (some version) = version == 1

-- `slide` is the draft of a question of version 1.
abbrev pub is_choice_slide : EditorSlide → Bool
is_choice_slide slide =
    is_activity slide.item_kind && (is_choice slide.activity_kind && is_first slide.schema_version)

-- `normalizeQuestion`: of `question_image` and `image_url`, the first that is not empty; the text
-- and the time of a question are never missing.
abbrev pub normalize_question : EditorQuestion → EditorQuestion
normalize_question q = record q {
  text = q.question_text;
  image_url = text_or q.question_image (text_or q.image_url "");
  question_image = text_or q.question_image (text_or q.image_url "");
  time_limit = q.question_time;
}

abbrev pub draft_option_of : EvaluationMode → EditorOption → QuestionDraftOption
draft_option_of mode o = record {
  id = o.option_id;
  text = text_or o.text "";
  is_correct = evaluates mode && o.is_correct;
  image_url = text_or o.image_url "";
}

module _ (format_integer : Number → String) where
  abbrev pub draft_of_question : EditorSlide → EditorQuestion → QuestionDraft
  draft_of_question slide q =
      let mode = value_or q.evaluation_mode correctness in
      let points_mode = value_or q.scoring_mode ScoringMode.points in
      record {
        slide_id = slide.slide_id;
        revision = slide.revision;
        order = slide.order;
        show_leaderboard_after = scores points_mode && slide.show_leaderboard_after;
        question_id = q.question_id;
        title = text_or q.title "";
        text = text_or q.question_text "";
        type = q.question_type;
        evaluation_mode = mode;
        scoring_mode = points_mode;
        time_input = format_integer q.question_time;
        min_points_input = format_integer q.min_point;
        max_points_input = format_integer q.max_point;
        image_url = text_or q.question_image "";
        faster_answers_more_points = q.faster_answers_more_points;
        partial_scoring = is_multiple q.question_type && q.partial_scoring;
        options = map (draft_option_of mode) q.options;
      }

  unfoldable pub create_question_draft : EditorSlide → Option QuestionDraft
  create_question_draft slide =
      if is_choice_slide slide
      then elim slide.question [
        | none ↦ none
        | some q ↦ some (draft_of_question slide (normalize_question q))
      ]
      else none

abbrev same_type : QuestionType → QuestionType → Bool
same_type single single = true
same_type multiple multiple = true
same_type a b = false

abbrev same_flag : Bool → Bool → Bool
same_flag true b = b
same_flag false true = false
same_flag false false = true

abbrev same_evaluation : EvaluationMode → EvaluationMode → Bool
same_evaluation a b = same_flag (evaluates a) (evaluates b)

abbrev same_scoring : ScoringMode → ScoringMode → Bool
same_scoring a b = same_flag (scores a) (scores b)

abbrev same_option : QuestionDraftOption → QuestionDraftOption → Bool
same_option a b =
    str_eq a.id b.id
    && (str_eq a.text b.text
        && (same_flag a.is_correct b.is_correct && str_eq a.image_url b.image_url))

-- The test on lengths, and `every` over the positions.
abbrev pub same_options : List QuestionDraftOption → List QuestionDraftOption → Bool
same_options [] [] = true
same_options (a ∷ as') (b ∷ bs) = same_option a b && same_options as' bs
same_options os os' = false

unfoldable pub question_draft_equals : QuestionDraft → QuestionDraft → Bool
question_draft_equals l r =
    str_eq l.slide_id r.slide_id
    && (l.revision == r.revision
        && (l.order == r.order
            && (same_flag l.show_leaderboard_after r.show_leaderboard_after
                && (str_eq l.question_id r.question_id
                    && (str_eq l.title r.title
                        && (str_eq l.text r.text
                            && (same_type l.type r.type
                                && (same_evaluation l.evaluation_mode r.evaluation_mode
                                    && (same_scoring l.scoring_mode r.scoring_mode
                                        && (str_eq l.time_input r.time_input
                                            && (str_eq l.min_points_input r.min_points_input
                                                && (str_eq l.max_points_input r.max_points_input
                                                    && (str_eq l.image_url r.image_url
                                                        && (same_flag l.faster_answers_more_points
                                                            r.faster_answers_more_points
                                                            && (same_flag l.partial_scoring
                                                            r.partial_scoring
                                                            && same_options l.options
                                                            r.options)))))))))))))))

abbrev pub points_of : ScoringMode → String → Number
points_of ScoringMode.none input = int 0
points_of ScoringMode.points input = parse_draft_integer input

abbrev pub scored_faster : QuestionDraft → Bool
scored_faster d = scores d.scoring_mode && d.faster_answers_more_points

abbrev pub scored_partial : QuestionDraft → Bool
scored_partial d = scores d.scoring_mode && (is_multiple d.type && d.partial_scoring)

abbrev pub option_like : EvaluationMode → QuestionDraftOption → OptionLike
option_like mode o = record {
  option_id = some o.id;
  text = some o.text;
  option_text = none;
  is_correct = some (evaluates mode && o.is_correct);
  image_url = some o.image_url;
}

abbrev pub draft_question_like : QuestionDraft → QuestionLike
draft_question_like d = record {
  title = some d.title;
  text = some d.text;
  question_text = some d.text;
  question_type = some (known d.type);
  evaluation_mode = some (known d.evaluation_mode);
  scoring_mode = some (known d.scoring_mode);
  time_limit = some (parse_draft_integer d.time_input);
  question_time = some (parse_draft_integer d.time_input);
  min_point = some (points_of d.scoring_mode d.min_points_input);
  max_point = some (points_of d.scoring_mode d.max_points_input);
  image_url = some d.image_url;
  question_image = some d.image_url;
  faster_answers_more_points = some (scored_faster d);
  partial_scoring = some (scored_partial d);
  options = some (map (option_like d.evaluation_mode) d.options);
}

unfoldable pub validate_question_draft : QuestionDraft → List (Issue QuestionField)
validate_question_draft d = validate_editor_question (some (draft_question_like d))

abbrev pub saved_option : EvaluationMode → ℕ → QuestionDraftOption → EditorOption
saved_option mode index o = record {
  option_id = o.id;
  text = trim o.text;
  is_correct = evaluates mode && o.is_correct;
  image_url = trim o.image_url;
  order = suc index;
}

abbrev pub saved_question : QuestionDraft → EditorQuestion
saved_question d = record {
  question_id = d.question_id;
  title = d.title;
  text = trim d.text;
  question_text = trim d.text;
  question_type = d.type;
  evaluation_mode = some d.evaluation_mode;
  scoring_mode = some d.scoring_mode;
  time_limit = parse_draft_integer d.time_input;
  question_time = parse_draft_integer d.time_input;
  min_point = points_of d.scoring_mode d.min_points_input;
  max_point = points_of d.scoring_mode d.max_points_input;
  image_url = trim d.image_url;
  question_image = trim d.image_url;
  faster_answers_more_points = scored_faster d;
  partial_scoring = scored_partial d;
  options = map_from 0 (saved_option d.evaluation_mode) d.options;
}

-- The fields of a content slide and of a word cloud are left out of the slide.
abbrev pub saved_slide : QuestionDraft → EditorSlide
saved_slide d = record {
  slide_id = d.slide_id;
  revision = d.revision;
  order = d.order;
  item_kind = activity;
  activity_kind = some "choice";
  schema_version = some 1;
  show_leaderboard_after = scores d.scoring_mode && d.show_leaderboard_after;
  question = some (saved_question d);
  text_activity = none;
  title = none;
  content_text = none;
  content_image_url = none;
}

unfoldable pub question_draft_to_editor_slide : QuestionDraft → String ⊎ EditorSlide
unfolding validate_question_draft
question_draft_to_editor_slide d = unless_issue (validate_question_draft d) (saved_slide d)
