-- ===== src/Live/Projection/Slides.antt =====
-- The slide of a live session, as the pages show it: `normalizeLiveSlide` with its helpers, and
-- `presentationSlideToLegacy`, of apps/web/src/modules/live/runtime/protocol.ts. The engine's
-- conversions, its `Date.parse` and its clock are parameters.
use pro_slides_go.Live.Projection.Views.{
  question, content, single, multiple, LegacyQuestionOption, LegacyQuestionType,
  LegacyQuestionSlide, LegacyContentSlide, LegacyLiveSlide,
}
use pro_slides_go.Base.{
  pos, negsuc, sub_ℕ, ◌/◌, ℕ, suc, String, Bool, false, ◌&&◌, ◌||◌, Option, none, some, List, [],
  str_eq, if◌then◌else◌, map, map_from, or_else, value_or, any,
}
use pro_slides_go.Js.Number.{milli, num_sub, Number, int, nan, is_finite, num_max, num_min, lt}
use pro_slides_go.Js.Value.{
  items, field, is_nullish, Value, Fields, Coercion, get, number_of, truthy, obj, str, num, null,
  bool, end,
}
use pro_slides_go.Live.Types.{LiveSession, ActivityKind, choice}
use pro_slides_go.Live.Result.{string_of, array_items}
use pro_slides_go.Editor.Slides.{text_or}
use pro_slides_go.Live.Protocol.{finite_number, optional_finite_number}

-- `ProtocolSession`, with the fields that the slides read.
pub record ProtocolSession : Type 0 where
  pub active_item_id : Option String
  pub state_version : Option Number
  pub ends_at : Option String
  pub remaining_seconds : Option Number

abbrev pub protocol_session : LiveSession → ProtocolSession
protocol_session s = record {
  active_item_id = s.active_item_id;
  state_version = some s.state_version;
  ends_at = s.ends_at;
  remaining_seconds = s.remaining_seconds;
}

abbrev pub record_value : Value → Fields
record_value (obj fs) = fs
record_value v = end

abbrev pub string_value : Value → String
string_value (str s) = s
string_value v = ""

abbrev pub is_text : String → Value → Bool
is_text name (str s) = str_eq s name
is_text name v = false

-- `value === true`.
abbrev pub is_just_true : Value → Bool
is_just_true (bool b) = b
is_just_true v = false

-- A whole number of milliseconds, in seconds.
abbrev pub seconds_of : Number → Number
seconds_of (milli (pos m)) = milli (pos (m / 1000))
seconds_of (milli (negsuc m)) = milli (sub_ℕ 0 (suc m / 1000))
seconds_of x = x

abbrev pub finite_or_undefined : Option Number → Option Number
finite_or_undefined none = none
finite_or_undefined (some n) = optional_finite_number n

abbrev pub clamped : Number → Number → Number
clamped allotted remaining =
    num_max (int 0) (num_min (if lt (int 0) allotted then allotted else remaining) remaining)

abbrev pub server_remaining_seconds : Number → Option Number → Option Number
server_remaining_seconds allotted none = none
server_remaining_seconds allotted (some remaining) = some (clamped allotted remaining)

abbrev answer_of : List String → String → Option Bool
answer_of [] id = none
answer_of correct id = some (any (λ c. str_eq c id) correct)

abbrev position_of : Value → Value
position_of (num n) = num n
position_of (str s) = str s
position_of v = null

-- A slide of a presentation, before it is run: its session has no deadline.
abbrev preview_session : String → ProtocolSession
preview_session id = record {
  active_item_id = some id;
  state_version = some (int 0);
  ends_at = none;
  remaining_seconds = none;
}

abbrev is_kind : String → Fields → Bool
is_kind name fields = is_text name (get "activity_kind" fields)

module _ (js : Coercion) where
  -- `finiteNumber` and `optionalFiniteNumber` of a value of any shape.
  abbrev pub finite_of : Value → Number
  finite_of v = finite_number (number_of js v) (int 0)

  -- `String(option.id ?? "")`.
  abbrev pub id_of : Value → String
  id_of v = if is_nullish v then "" else string_of js v

  abbrev pub option_to_legacy : List String → ℕ → Value → LegacyQuestionOption
  option_to_legacy correct index raw =
      let option = record_value raw in
      record {
        option_id = index;
        option_index = num (int index);
        option_text = string_value (get "text" option);
        image_url = string_value (get "image_url" option);
        order = index;
        answer = answer_of correct (id_of (get "id" option));
      }

  -- `String(activeItem.id || session.active_item_id || "")`.
  abbrev pub item_id : Value → Option String → String
  item_id v other = if truthy v then string_of js v else value_or other ""

  abbrev content_to_legacy : String → Value → Fields → LegacyContentSlide
  content_to_legacy id position fields = record {
    slide_id = id;
    order = position_of position;
    title = string_value (get "title" fields);
    content_text =
        text_or (string_value (get "text" fields)) (string_value (get "content_text" fields));
    content_image_url = string_value (get "image_url" fields);
  }

-- The engine's `Date.parse`, and its clock in milliseconds.
module _ (parse_date : String → Number) (now : Number) where
  -- `typeof session.ends_at === "string" ? Date.parse(session.ends_at) : NaN`.
  abbrev pub ends_at_of : Option String → Number
  ends_at_of none = nan
  ends_at_of (some s) = parse_date s

  abbrev pub derived_seconds : Number → Option Number
  derived_seconds ends_at =
      if is_finite ends_at then some (num_max (int 0) (seconds_of (num_sub ends_at now))) else none

  unfoldable pub remaining_of : Number → ProtocolSession → Option Number
  remaining_of allotted session =
      or_else (server_remaining_seconds allotted (finite_or_undefined session.remaining_seconds))
        (derived_seconds (ends_at_of session.ends_at))

module _ (js : Coercion) (parse_date : String → Number) (now : Number) where
  unfoldable pub choice_activity_to_legacy : String → Fields → ProtocolSession → LegacyQuestionSlide
  unfolding get remaining_of
  choice_activity_to_legacy id fields session =
      let prompt = record_value (get "prompt" fields) in
      let response = record_value (get "response" fields) in
      let evaluation = record_value (get "evaluation" fields) in
      let scoring = record_value (get "scoring" fields) in
      let timing = record_value (get "timing" fields) in
      let results = record_value (get "results" fields) in
      let raw_options = items (array_items (get "options" response)) in
      let correct_option_ids =
        map (string_of js) (items (array_items (get "correct_option_ids" evaluation))) in
      let allotted = finite_of js (get "duration_seconds" timing) in
      let is_many = is_text "multiple" (get "selection" response) in
      record {
        slide_id = id;
        question_id = id;
        run_id = session.state_version;
        activity_kind = choice;
        question_text = string_value (get "text" prompt);
        question_title = string_value (get "title" prompt);
        question_time = allotted;
        remaining_seconds = remaining_of parse_date now allotted session;
        max_point = some (finite_of js (get "max_points" scoring));
        min_point = some (finite_of js (get "min_points" scoring));
        question_type = if is_many then multiple else single;
        has_multiple = is_many;
        is_scored = is_text "points" (get "mode" scoring);
        has_correct_answer = is_text "correctness" (get "mode" evaluation);
        image_url = string_value (get "image_url" prompt);
        show_leaderboard_after = is_just_true (get "show_overall_leaderboard_after" results);
        response_max_length = none;
        response_max_words = none;
        options = map_from 0 (option_to_legacy js correct_option_ids) raw_options;
      }

  unfoldable pub text_activity_to_legacy : String → Fields → ProtocolSession → LegacyQuestionSlide
  unfolding get remaining_of
  text_activity_to_legacy id fields session =
      let prompt = record_value (get "prompt" fields) in
      let response = record_value (get "response" fields) in
      let timing = record_value (get "timing" fields) in
      let allotted = finite_of js (get "duration_seconds" timing) in
      record {
        slide_id = id;
        question_id = id;
        run_id = session.state_version;
        activity_kind = ActivityKind.text;
        question_text = string_value (get "text" prompt);
        question_title = string_value (get "title" prompt);
        question_time = allotted;
        remaining_seconds = remaining_of parse_date now allotted session;
        max_point = none;
        min_point = none;
        question_type = LegacyQuestionType.text;
        has_multiple = false;
        is_scored = false;
        has_correct_answer = false;
        image_url = string_value (get "image_url" prompt);
        show_leaderboard_after = false;
        response_max_length = some (finite_of js (get "max_length" response));
        response_max_words = some (finite_of js (get "max_words" response));
        options = [];
      }

  abbrev pub activity_to_legacy : String → Fields → ProtocolSession → Option LegacyLiveSlide
  activity_to_legacy id fields session =
      if is_text "choice" (get "activity_kind" fields)
      then some (question (choice_activity_to_legacy id fields session))
      else (if is_text "text" (get "activity_kind" fields)
          then some (question (text_activity_to_legacy id fields session))
          else none)

  abbrev item_to_legacy : Fields → ProtocolSession → Option LegacyLiveSlide
  item_to_legacy active_item session =
      let fields = record_value (get "content" active_item) in
      let id = item_id js (get "id" active_item) session.active_item_id in
      if is_text "activity" (get "kind" active_item)
      then activity_to_legacy id fields session
      else (if is_text "content" (get "kind" active_item)
          then some (content (content_to_legacy js id (get "position" active_item) fields))
          else none)

  unfoldable pub normalize_live_slide : Value → ProtocolSession → Option LegacyLiveSlide
  unfolding get choice_activity_to_legacy text_activity_to_legacy
  normalize_live_slide (obj active_item) session = item_to_legacy active_item session
  normalize_live_slide v session = none

  unfoldable pub presentation_slide_to_legacy :
      String → Value → String → Value → Option LegacyLiveSlide
  unfolding get choice_activity_to_legacy text_activity_to_legacy normalize_live_slide
  presentation_slide_to_legacy id position kind raw =
      let fields = record_value raw in
      if str_eq kind "activity" && (is_kind "choice" fields || is_kind "text" fields)
      then some (
          question (
            if is_kind "text" fields
            then text_activity_to_legacy id fields (preview_session id)
            else choice_activity_to_legacy id fields (preview_session id)))
      else normalize_live_slide
          (obj (
            field "id" (str id)
              (field "position" position (field "kind" (str kind) (field "content" raw end)))))
          (preview_session id)
