-- ===== src/Live/Tests/Projection.antt =====
-- The theorems about the view of a snapshot, at a concrete snapshot.
use pro_slides_go.Base.{◌≡◌, refl, none, some, [], false}
use pro_slides_go.Live.Tests.{js}
use pro_slides_go.Js.Number.{int, nan}
use pro_slides_go.Js.Value.{Value, str, num, obj, field, end, get}
use pro_slides_go.Live.Types.{
  presenting, accepting, item, LiveSession, LiveSnapshot, Viewer, ActivityKind,
}
use pro_slides_go.Live.Projection.Views.{
  LegacyQuestionType, LegacyQuestionSlide, ProjectedServerData,
}
use pro_slides_go.Live.Projection.Slides.{
  protocol_session, remaining_of, text_activity_to_legacy, normalize_live_slide,
}
use pro_slides_go.Live.Projection.Timing.{InTime, normalize_live_slide-InTime}
use pro_slides_go.Live.Projection.Showing.{IsViewOf, project_live_snapshot-IsViewOf}
use pro_slides_go.Live.Projection.{project_live_snapshot}

abbrev session : LiveSession
session = record {
  id = "s";
  presentation_id = "p";
  state = presenting;
  state_version = int 4;
  active_item_id = some "q";
  activity_phase = some accepting;
  stage_view = item;
  ends_at = none;
  remaining_seconds = some (int 75);
  host_id = none;
  join_code = none;
}

abbrev served_item : Value
served_item = obj (
    field "id" (str "q") (
      field "kind" (str "activity") (
        field "content"
          (obj (
            field "activity_kind" (str "text")
              (field "timing" (obj (field "duration_seconds" (num (int 30)) end)) end)))
          end)))

abbrev snapshot : LiveSnapshot
snapshot = record {
  role = Viewer.manager [];
  session = session;
  active_item = served_item;
  participant_count = int 2;
  has_scoring = false;
  last_event_id = int 9;
  activity_result = none;
}

abbrev shown_question : LegacyQuestionSlide
shown_question = record {
  slide_id = "q";
  question_id = "q";
  run_id = some (int 4);
  activity_kind = ActivityKind.text;
  question_text = "";
  question_title = "";
  question_time = int 30;
  remaining_seconds = some (int 30);
  max_point = none;
  min_point = none;
  question_type = LegacyQuestionType.text;
  has_multiple = false;
  is_scored = false;
  has_correct_answer = false;
  image_url = "";
  show_leaderboard_after = false;
  response_max_length = some (int 0);
  response_max_words = some (int 0);
  options = [];
}

normalize_live_slide-InTime_example : InTime (protocol_session session) shown_question
unfolding normalize_live_slide text_activity_to_legacy remaining_of get
normalize_live_slide-InTime_example =
    normalize_live_slide-InTime js (λ s. nan) (int 1000) served_item (protocol_session session)
      shown_question refl refl

project_live_snapshot-IsViewOf_example :
    (p : ProjectedServerData) × (project_live_snapshot js (λ s. nan) (int 1000) (some snapshot) []
      ≡ some p)
    × IsViewOf snapshot p
project_live_snapshot-IsViewOf_example =
    project_live_snapshot-IsViewOf js (λ s. nan) (int 1000) snapshot []
