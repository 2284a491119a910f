-- ===== src/Editor/Slides.antt =====
-- The slides of apps/web/src/modules/presentations/editor/model/slideMutations.ts: how they are
-- created, and how a slide is converted to another kind.
pub mod Laws
use pro_slides_go.Base.{
  if◌then◌else◌, ℕ, zero, suc, String, Bool, true, false, not, ◌&&◌, Option, none, some, List, [],
  ◌∷◌, length, find_index, map_from, ltb, ◌==◌, value_or, ◌++◌, str_eq,
}
use Prim.Native.String.{◌++◌ as join}
use pro_slides_go.Js.Number.{Number, int, num_or, num_max, num_min}
use pro_slides_go.Js.Text.{is_empty, decimal}
use pro_slides_go.Editor.Model.{
  EditorSlide, EditorQuestion, EditorOption, EditorTextActivity, content, activity, QuestionType,
  single, multiple, EvaluationMode, correctness, ScoringMode,
}
use pro_slides_go.Editor.Wording.{
  new_poll_text, new_question_text, first_option_text, second_option_text, option_prefix_text,
  new_word_cloud_text, new_content_text,
}

pub data SlideTypeChoice : Type 0 where
  single_choice multiple_choice content_slide : SlideTypeChoice

pub record ChoicePolicy : Type 0 where
  pub evaluation_mode : EvaluationMode
  pub scoring_mode : ScoringMode

abbrev pub default_choice_policy : ChoicePolicy
default_choice_policy = record { evaluation_mode = correctness; scoring_mode = ScoringMode.points }

-- `"content"` is `none`.
abbrev pub slide_choice_to_mode : SlideTypeChoice → Option QuestionType
slide_choice_to_mode content_slide = none
slide_choice_to_mode single_choice = some single
slide_choice_to_mode multiple_choice = some multiple

abbrev pub evaluates : EvaluationMode → Bool
evaluates EvaluationMode.none = false
evaluates correctness = true

abbrev pub scores : ScoringMode → Bool
scores ScoringMode.none = false
scores ScoringMode.points = true

abbrev pub is_multiple : QuestionType → Bool
is_multiple single = false
is_multiple multiple = true

-- `text || fallback`, and the same for a text that may be missing.
abbrev pub text_or : String → String → String
text_or s d = if is_empty s then d else s

abbrev pub present_or : Option String → String → String
present_or none d = d
present_or (some s) d = text_or s d

abbrev new_option : String → String → Bool → ℕ → EditorOption
new_option id text is_correct order = record {
  option_id = id;
  text = text;
  is_correct = is_correct;
  image_url = "";
  order = order;
}

abbrev pub create_default_text_activity : EditorTextActivity
create_default_text_activity = record {
  title = "";
  text = new_word_cloud_text;
  image_url = "";
  max_length = int 80;
  max_words = int 3;
  time_limit = int 30;
}

abbrev pub convert_slide_to_content : EditorSlide → EditorSlide
convert_slide_to_content slide = record slide {
  item_kind = content;
  activity_kind = none;
  schema_version = none;
  question = none;
  text_activity = none;
  title = some (present_or slide.title new_content_text);
  content_text = some (present_or slide.content_text "");
  content_image_url = some (present_or slide.content_image_url "");
  show_leaderboard_after = false;
}

abbrev pub is_text : Option String → Bool
is_text none = false
is_text (some kind) = str_eq kind "text"

abbrev pub convert_slide_to_text_activity : EditorSlide → EditorSlide
convert_slide_to_text_activity slide = record slide {
  item_kind = activity;
  activity_kind = some "text";
  schema_version = some 1;
  show_leaderboard_after = false;
  question = none;
  text_activity = some (
      if is_text slide.activity_kind
      then value_or slide.text_activity create_default_text_activity
      else create_default_text_activity);
}

-- The position that stays the only correct one, with `findIndex`'s -1 as `none`.
abbrev pub mark : EvaluationMode → QuestionType → Option ℕ → ℕ → Bool → Bool
mark EvaluationMode.none type first index was = false
mark correctness single first index was = index == value_or first 0
mark correctness multiple none index was = index == 0
mark correctness multiple (some i) index was = was

abbrev remarked : Bool → ℕ → EditorOption → EditorOption
remarked is_correct order option = record option { is_correct = is_correct; order = order }

abbrev pub normalize_options : EvaluationMode → QuestionType → List EditorOption → List EditorOption
normalize_options mode type os =
    let first = find_index (λ o. EditorOption.is_correct o) os in
    map_from 0 (λ i o. remarked (mark mode type first i (EditorOption.is_correct o)) (suc i) o) os

abbrev pub upper_points : ScoringMode → Number → Number
upper_points ScoringMode.none high = int 0
upper_points ScoringMode.points high = num_max (int 1) (num_or high (int 100))

abbrev pub lower_points : ScoringMode → Number → Number → Number
lower_points ScoringMode.none low top = int 0
lower_points ScoringMode.points low top = num_min (num_max (int 0) (num_or low (int 0))) top

-- `createId`, with the state it keeps.
module _ {S : Type 0} (create_id : S → String × S) where
  unfoldable pub create_default_question :
      String → QuestionType → ChoicePolicy → S → EditorQuestion × S
  create_default_question slide_id type policy s =
      let (first, s₁) = create_id s in
      let (second, s₂) = create_id s₁ in
      let is_poll = not (evaluates policy.evaluation_mode) && not (scores policy.scoring_mode) in
      let text = if is_poll then new_poll_text else new_question_text in
      (
        record {
          question_id = slide_id;
          title = "";
          text = text;
          question_text = text;
          question_type = type;
          evaluation_mode = some policy.evaluation_mode;
          scoring_mode = some policy.scoring_mode;
          min_point = int 0;
          max_point = if scores policy.scoring_mode then int 100 else int 0;
          time_limit = int 10;
          question_time = int 10;
          image_url = "";
          question_image = "";
          faster_answers_more_points = false;
          partial_scoring = false;
          options =
              new_option first first_option_text (evaluates policy.evaluation_mode) 1
              ∷ new_option second second_option_text false 2
              ∷ [];
        },
        s₂,
      )

  unfoldable pub create_text_activity_slide : ℕ → S → EditorSlide × S
  create_text_activity_slide order s =
      let (id, s₁) = create_id s in
      (
        record {
          slide_id = id;
          revision = 1;
          order = order;
          item_kind = activity;
          activity_kind = some "text";
          schema_version = some 1;
          show_leaderboard_after = false;
          question = none;
          text_activity = some create_default_text_activity;
          title = none;
          content_text = none;
          content_image_url = none;
        },
        s₁,
      )

  abbrev slide_of : ℕ → String → Option QuestionType → Option EditorQuestion → EditorSlide
  slide_of order id mode made = record {
    slide_id = id;
    revision = 1;
    order = order;
    item_kind = elim mode [ none ↦ content | some m ↦ activity ];
    activity_kind = elim mode [ none ↦ none | some m ↦ some "choice" ];
    schema_version = elim mode [ none ↦ none | some m ↦ some 1 ];
    show_leaderboard_after = false;
    title = some (elim mode [ none ↦ new_content_text | some m ↦ "" ]);
    content_text = some "";
    content_image_url = some "";
    question = made;
    text_activity = none;
  }

  unfoldable pub create_slide_for_choice : ℕ → SlideTypeChoice → ChoicePolicy → S → EditorSlide × S
  unfolding create_default_question
  create_slide_for_choice order choice policy s =
      let (id, s₁) = create_id s in
      elim (slide_choice_to_mode choice) [
        | none ↦ (slide_of order id none none, s₁)
        | some mode ↦
            let (made, s₂) = create_default_question id mode policy s₁ in
            (slide_of order id (some mode) (some made), s₂)
      ]

  -- `while (options.length < 2) options.push(…)`, in at most two turns.
  pub pad_on : ℕ → List EditorOption → S → List EditorOption × S
  pad_on zero os s = (os, s)
  pad_on (suc fuel) os s =
      let n = length os in
      let (id, s₁) = create_id s in
      let rest =
        pad_on fuel
          (os ++ new_option id (join option_prefix_text (decimal (suc n))) (n == 0) (suc n) ∷ [])
          s₁ in
      if ltb n 2 then rest else (os, s)

  unfoldable pub pad_options : List EditorOption → S → List EditorOption × S
  unfolding pad_on
  pad_options os s = pad_on 2 os s

  abbrev pub converted_question :
      EditorQuestion
      → QuestionType
      → EvaluationMode
      → ScoringMode
      → List EditorOption
      → EditorQuestion
  converted_question existing type em sm os =
      let top = upper_points sm existing.max_point in
      record existing {
        question_type = type;
        evaluation_mode = some em;
        scoring_mode = some sm;
        min_point = lower_points sm existing.min_point top;
        max_point = top;
        faster_answers_more_points = scores sm && existing.faster_answers_more_points;
        partial_scoring = scores sm && (is_multiple type && existing.partial_scoring);
        options = normalize_options em type os;
      }

  abbrev with_question : EditorSlide → Option ℕ → Bool → EditorQuestion → EditorSlide
  with_question slide version leaderboard made = record slide {
    item_kind = activity;
    activity_kind = some "choice";
    schema_version = version;
    show_leaderboard_after = leaderboard;
    text_activity = none;
    question = some made;
  }

  abbrev replace_question : EditorSlide → QuestionType → Option ChoicePolicy → S → EditorSlide × S
  replace_question slide type policy s =
      let (made, s₁) =
        create_default_question slide.slide_id type (value_or policy default_choice_policy) s in
      (with_question slide (some 1) false made, s₁)

  abbrev pub mode_of : Option ChoicePolicy → Option EvaluationMode → EvaluationMode
  mode_of (some policy) mode = policy.evaluation_mode
  mode_of none mode = value_or mode correctness

  abbrev pub scoring_of : Option ChoicePolicy → Option ScoringMode → ScoringMode
  scoring_of (some policy) mode = policy.scoring_mode
  scoring_of none mode = value_or mode ScoringMode.points

  abbrev keep_question :
      EditorSlide → EditorQuestion → QuestionType → Option ChoicePolicy → S → EditorSlide × S
  keep_question slide existing type policy s =
      let (os, s₁) = pad_options existing.options s in
      let em = mode_of policy existing.evaluation_mode in
      let sm = scoring_of policy existing.scoring_mode in
      (
        with_question slide (some (value_or slide.schema_version 1))
            (scores sm && slide.show_leaderboard_after) (converted_question existing type em sm os),
        s₁,
      )

  unfoldable pub convert_slide_to_question :
      EditorSlide → QuestionType → Option ChoicePolicy → S → EditorSlide × S
  unfolding create_default_question pad_options
  convert_slide_to_question slide type policy s = elim slide.question [
    | none ↦ replace_question slide type policy s
    | some existing ↦
        if is_empty existing.question_id
        then replace_question slide type policy s
        else keep_question slide existing type policy s
  ]
