-- ===== src/Editor/Registry.antt =====
-- The kinds of slides that the editor knows, of
-- apps/web/src/modules/presentations/model/itemRegistry.ts: which kind a slide is of, what it is
-- called, and what keeps it from being run. A registration is named by its key.
pub mod Wording
pub mod Ready
pub mod Laws
pub mod Saved
use pro_slides_go.Base.{
  String, Option, none, some, List, [], ◌∷◌, map, if◌then◌else◌, Bool, true, false, not, ◌&&◌,
  or_else, is_some, is_just, is_version,
}
use pro_slides_go.Editor.Model.{
  QuestionType, single, EvaluationMode, correctness, ScoringMode, EditorSlide, EditorItemKind,
  EditorQuestion, EditorOption, EditorTextActivity, QuestionLike, OptionLike, ContentLike,
  TextActivityLike, known, multiple,
}
use pro_slides_go.Js.Text.{trim}
use pro_slides_go.Editor.Validation.Content.{get_content_validation_error}
use pro_slides_go.Editor.Validation.Question.{get_question_validation_error}
use pro_slides_go.Editor.Validation.TextActivity.{get_text_activity_validation_error}
use pro_slides_go.Editor.Slides.{is_multiple, text_or, scores, evaluates}
use pro_slides_go.Editor.Registry.Wording.{
  content_name, untitled_content_text, choice_name, untitled_choice_text, poll_name, multiple_name,
  single_name, unknown_choice_text, leaderboard_without_points_text, result_behavior_text,
  ranking_behavior_text, text_name, word_cloud_name, leaderboard_after_cloud_text,
  cloud_behavior_text, untitled_item_text, unknown_item_text, no_slides_text, unknown_slide_text,
  poll_description, cloud_description, single_description, multiple_description, content_slide_name,
  content_description,
}
use mathlib.Core.Option

pub data EditorItemRegistryKey : Type 0 where
  content choice text : EditorItemRegistryKey

pub data EditorItemCategory : Type 0 where
  content activity : EditorItemCategory

pub data EditorTypeChoiceId : Type 0 where
  content poll word_cloud choice_single choice_multiple : EditorTypeChoiceId

pub record EditorTypeChoice : Type 0 where
  pub id : EditorTypeChoiceId
  pub registration_key : EditorItemRegistryKey
  pub label : String
  pub description : String
  pub question_type : Option QuestionType
  pub evaluation_mode : Option EvaluationMode
  pub scoring_mode : Option ScoringMode

pub data BehaviorId : Type 0 where
  activity_result overall_ranking : BehaviorId

pub data Tone : Type 0 where
  info warning : Tone

pub record EditorItemBehavior : Type 0 where
  pub id : BehaviorId
  pub label : String
  pub tone : Tone

abbrev pub category : EditorItemRegistryKey → EditorItemCategory
category content = content
category choice = activity
category text = activity

abbrev pub registration_label : EditorItemRegistryKey → String
registration_label content = content_name
registration_label choice = choice_name
registration_label text = text_name

abbrev pub is_content : EditorItemKind → Bool
is_content EditorItemKind.content = true
is_content EditorItemKind.activity = false

-- `slide` is an activity of this kind and of version 1.
abbrev pub is_activity_of : String → EditorSlide → Bool
is_activity_of name slide =
    not (is_content slide.item_kind)
    && (is_just name slide.activity_kind && is_version 1 slide.schema_version)

abbrev pub matches : EditorItemRegistryKey → EditorSlide → Bool
matches content slide = is_content slide.item_kind
matches choice slide = is_activity_of "choice" slide
matches text slide = is_activity_of "text" slide

-- A question that is there has one of the two types.
abbrev pub is_configured : EditorItemRegistryKey → EditorSlide → Bool
is_configured content slide = is_content slide.item_kind
is_configured choice slide = is_activity_of "choice" slide && is_some slide.question
is_configured text slide = is_some slide.text_activity

-- `value?.trim() || fallback`.
abbrev trimmed_or : Option String → String → String
trimmed_or none d = d
trimmed_or (some s) d = text_or (trim s) d

abbrev pub title_of : EditorItemRegistryKey → EditorSlide → String
title_of content slide =
    trimmed_or slide.title (trimmed_or slide.content_text untitled_content_text)
title_of choice slide = elim slide.question [
  | none ↦ untitled_choice_text
  | some q ↦ text_or (trim q.text) (text_or (trim q.question_text) untitled_choice_text)
]
title_of text slide = elim slide.text_activity [
  | none ↦ word_cloud_name
  | some a ↦ text_or (trim a.text) word_cloud_name
]

abbrev pub unscored : Option ScoringMode → Bool
unscored none = false
unscored (some mode) = not (scores mode)

abbrev unevaluated : Option EvaluationMode → Bool
unevaluated none = false
unevaluated (some mode) = not (evaluates mode)

abbrev type_label_of_question : EditorQuestion → String
type_label_of_question q =
    if unevaluated q.evaluation_mode && unscored q.scoring_mode
    then poll_name
    else (if is_multiple q.question_type then multiple_name else single_name)

abbrev pub type_label_of : EditorItemRegistryKey → EditorSlide → String
type_label_of content slide = content_name
type_label_of choice slide = elim slide.question [
  | none ↦ unknown_choice_text
  | some q ↦ type_label_of_question q
]
type_label_of text slide = word_cloud_name

-- An option, a question, a word cloud and a content slide, as their validators see them.
abbrev pub like_option : EditorOption → OptionLike
like_option o = record {
  option_id = some o.option_id;
  text = some o.text;
  option_text = none;
  is_correct = some o.is_correct;
  image_url = some o.image_url;
}

abbrev pub like_question : EditorQuestion → QuestionLike
like_question q = record {
  title = some q.title;
  text = some q.text;
  question_text = some q.question_text;
  question_type = some (known q.question_type);
  evaluation_mode = Option.map known q.evaluation_mode;
  scoring_mode = Option.map known q.scoring_mode;
  time_limit = some q.time_limit;
  question_time = some q.question_time;
  min_point = some q.min_point;
  max_point = some q.max_point;
  image_url = some q.image_url;
  question_image = some q.question_image;
  faster_answers_more_points = some q.faster_answers_more_points;
  partial_scoring = some q.partial_scoring;
  options = some (map like_option q.options);
}

abbrev pub like_text_activity : EditorTextActivity → TextActivityLike
like_text_activity a = record {
  title = some a.title;
  text = some a.text;
  image_url = some a.image_url;
  max_length = some a.max_length;
  max_words = some a.max_words;
  time_limit = some a.time_limit;
  aggregation = some "word_frequency";
}

abbrev pub like_content : EditorSlide → ContentLike
like_content slide = record {
  title = slide.title;
  content_text = slide.content_text;
  content_image_url = slide.content_image_url;
}

-- `if (error) return error;`, and then `if (test) return message; return null;`. No message of the
-- validators is the empty text.
abbrev pub or_message : Option String → Bool → String → Option String
or_message (some error) test message = some error
or_message none true message = some message
or_message none false message = none

abbrev pub scoring_off : Option EditorQuestion → Bool
scoring_off none = false
scoring_off (some q) = unscored q.scoring_mode

unfoldable pub validate : EditorItemRegistryKey → EditorSlide → Option String
validate content slide = get_content_validation_error (some (like_content slide))
validate choice slide =
    or_message (get_question_validation_error (Option.map like_question slide.question))
      (slide.show_leaderboard_after && scoring_off slide.question) leaderboard_without_points_text
validate text slide =
    or_message
      (get_text_activity_validation_error (Option.map like_text_activity slide.text_activity))
      slide.show_leaderboard_after leaderboard_after_cloud_text

abbrev behavior : BehaviorId → String → Tone → EditorItemBehavior
behavior id label tone = record { id = id; label = label; tone = tone }

abbrev behaviors_of_question : Bool → EditorQuestion → List EditorItemBehavior
behaviors_of_question ranking q =
    behavior activity_result result_behavior_text info
    ∷ (if ranking && not (unscored q.scoring_mode)
        then behavior overall_ranking ranking_behavior_text warning ∷ []
        else [])

abbrev pub behaviors_of : EditorItemRegistryKey → EditorSlide → List EditorItemBehavior
behaviors_of content slide = []
behaviors_of choice slide = elim slide.question [
  | none ↦ []
  | some q ↦ behaviors_of_question slide.show_leaderboard_after q
]
behaviors_of text slide = behavior activity_result cloud_behavior_text info ∷ []

abbrev pub editor_item_registrations : List EditorItemRegistryKey
editor_item_registrations = content ∷ choice ∷ text ∷ []

abbrev first_match : EditorSlide → List EditorItemRegistryKey → Option EditorItemRegistryKey
first_match slide [] = none
first_match slide (key ∷ keys) = if matches key slide then some key else first_match slide keys

unfoldable pub resolve_editor_item_registration : Option EditorSlide → Option EditorItemRegistryKey
resolve_editor_item_registration none = none
resolve_editor_item_registration (some slide) = first_match slide editor_item_registrations

abbrev choice_type :
    EditorTypeChoiceId
    → String
    → String
    → QuestionType
    → EvaluationMode
    → ScoringMode
    → EditorTypeChoice
choice_type id label description type em sm = record {
  id = id;
  registration_key = choice;
  label = label;
  description = description;
  question_type = some type;
  evaluation_mode = some em;
  scoring_mode = some sm;
}

abbrev plain_type : EditorTypeChoiceId → EditorItemRegistryKey → String → String → EditorTypeChoice
plain_type id key label description = record {
  id = id;
  registration_key = key;
  label = label;
  description = description;
  question_type = none;
  evaluation_mode = none;
  scoring_mode = none;
}

abbrev pub editor_type_choices : List EditorTypeChoice
editor_type_choices =
    choice_type poll poll_name poll_description single EvaluationMode.none ScoringMode.none
    ∷ plain_type word_cloud text word_cloud_name cloud_description
    ∷ choice_type choice_single single_name single_description single correctness ScoringMode.points
    ∷ choice_type choice_multiple multiple_name multiple_description multiple correctness
        ScoringMode.points
    ∷ plain_type content content content_slide_name content_description
    ∷ []

unfoldable pub get_editor_item_title : EditorSlide → String
unfolding resolve_editor_item_registration
get_editor_item_title slide = elim (resolve_editor_item_registration (some slide)) [
  | none ↦ untitled_item_text
  | some key ↦ title_of key slide
]

unfoldable pub get_editor_item_type_label : EditorSlide → String
unfolding resolve_editor_item_registration
get_editor_item_type_label slide = elim (resolve_editor_item_registration (some slide)) [
  | none ↦ unknown_item_text
  | some key ↦ type_label_of key slide
]

unfoldable pub get_editor_item_behaviors : EditorSlide → List EditorItemBehavior
unfolding resolve_editor_item_registration
get_editor_item_behaviors slide = elim (resolve_editor_item_registration (some slide)) [
  | none ↦ []
  | some key ↦ behaviors_of key slide
]

-- What one turn of the loop returns: `none` is the next turn.
unfoldable pub slide_error : EditorSlide → Option String
unfolding resolve_editor_item_registration validate
slide_error slide = elim (resolve_editor_item_registration (some slide)) [
  | none ↦ some unknown_slide_text
  | some key ↦ validate key slide
]

pub first_error : List EditorSlide → Option String
first_error [] = none
first_error (slide ∷ slides) = or_else (slide_error slide) (first_error slides)

unfoldable pub get_presentation_validation_error : List EditorSlide → Option String
unfolding first_error
get_presentation_validation_error [] = some no_slides_text
get_presentation_validation_error slides = first_error slides
