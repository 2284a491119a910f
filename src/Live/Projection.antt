-- ===== src/Live/Projection.antt =====
-- What the pages show of a snapshot: `projectLiveSnapshot` of
-- apps/web/src/modules/live/runtime/protocol.ts. The engine's conversions, its `Date.parse` and
-- its clock are parameters.
pub mod Views
pub mod Slides
pub mod Timing
pub mod Showing
use pro_slides_go.Live.Projection.Views.{
  question, content, LegacyLiveUser, LegacyQuestionSlide, LegacyContentSlide, LegacyLiveSlide,
  OptionSubmits, LegacyQuestionResult, ProjectedServerData,
}
use pro_slides_go.Live.Projection.Slides.{normalize_live_slide, protocol_session}
use pro_slides_go.Base.{
  ℕ, suc, String, Bool, true, false, ◌&&◌, Option, none, some, List, [], ◌∷◌, if◌then◌else◌, map,
  map_from, take, value_or,
}
use pro_slides_go.Js.Number.{Number, int, is_finite}
use pro_slides_go.Js.Value.{Coercion}
use pro_slides_go.Live.Types.{
  LiveState, presenting, ended, ActivityPhase, accepting, closed, revealed, StageView, item,
  overall_ranking, LiveSnapshot, RosterEntry, ParticipantWithScore, ActivityKind, choice,
  ActivityResult, WordFrequencyTerm, ResultPayload, option_counts, terms, Viewer, participant,
  manager,
}
use pro_slides_go.Live.Protocol.{finite_number}
use mathlib.Core.Option

abbrev rank_or : Option Number → Option Number → Option Number
rank_or none other = other
rank_or (some n) other = if is_finite n then some n else other

abbrev pub roster_entry_to_legacy : ℕ → RosterEntry → LegacyLiveUser
roster_entry_to_legacy index entry = record {
  user_id = entry.participant_id;
  name = entry.display_name;
  character = value_or entry.avatar "";
  rank = rank_or entry.rank (some (int (suc index)));
  total_points = finite_number entry.score (int 0);
  new_points = none;
}

abbrev pub participant_to_legacy : ParticipantWithScore → LegacyLiveUser
participant_to_legacy p = record {
  user_id = p.id;
  name = p.display_name;
  character = value_or p.avatar "";
  rank = rank_or p.rank none;
  total_points = finite_number p.score (int 0);
  new_points = none;
}

abbrev pub manager_rows : Viewer → List RosterEntry → List LegacyLiveUser
manager_rows (manager top) roster = map_from 0 roster_entry_to_legacy roster
manager_rows (participant p responded personal) roster = []

abbrev pub is_ranking : StageView → LiveState → Bool
is_ranking overall_ranking state = true
is_ranking item ended = true
is_ranking item state = false

abbrev pub ranking_rows : Viewer → List RosterEntry → List LegacyLiveUser
ranking_rows (manager top) roster = take 5 (manager_rows (manager top) roster)
ranking_rows (participant p responded personal) roster = participant_to_legacy p ∷ []

-- The counts are listed in the order in which the engine enumerates them.
abbrev counts_of : ResultPayload → List (String × Number)
counts_of (option_counts counts) = counts
counts_of (terms words) = []

abbrev words_of : ResultPayload → List WordFrequencyTerm
words_of (option_counts counts) = []
words_of (terms words) = words

abbrev is_word_cloud : ActivityKind → Bool
is_word_cloud choice = false
is_word_cloud ActivityKind.text = true

-- The phases in which the viewer sees the question.
abbrev pub is_answerable : Viewer → Option ActivityPhase → Bool
is_answerable viewer (some accepting) = true
is_answerable viewer (some revealed) = true
is_answerable (manager top) (some closed) = true
is_answerable viewer phase = false

abbrev pub is_presenting_item : LiveState → StageView → Bool
is_presenting_item presenting item = true
is_presenting_item state view = false

abbrev pub question_of : Bool → Option LegacyLiveSlide → Option LegacyQuestionSlide
question_of true (some (question q)) = some q
question_of visible active = none

abbrev pub content_of : Bool → Option LegacyLiveSlide → Option LegacyContentSlide
content_of true (some (content c)) = some c
content_of visible active = none

module _ (js : Coercion) where
  abbrev submits_of : String × Number → OptionSubmits
  submits_of (option_id, count) = record {
    option_id = js.parse_number option_id;
    number_of_submits = finite_number count (int 0);
  }

  abbrev pub result_to_legacy : ActivityResult → LegacyQuestionResult
  result_to_legacy result = record {
    question_id = result.activity_item_id;
    response_count = result.response_count;
    options_result =
        if is_word_cloud result.activity_kind
        then none
        else some (map submits_of (counts_of result.payload));
    word_terms =
        if is_word_cloud result.activity_kind then some (words_of result.payload) else none;
  }

  abbrev pub projected :
      LiveSnapshot → List RosterEntry → Option LegacyLiveSlide → ProjectedServerData
  projected snapshot roster active =
      let session = snapshot.session in
      let on_item = is_presenting_item session.state session.stage_view in
      record {
        users = manager_rows snapshot.role roster;
        current_question =
            question_of (on_item && is_answerable snapshot.role session.activity_phase) active;
        current_content = content_of on_item active;
        leaderboard_results =
            if is_ranking session.stage_view session.state
            then some (ranking_rows snapshot.role roster)
            else none;
        participant_count = finite_number snapshot.participant_count (int 0);
        question_results = Option.map result_to_legacy snapshot.activity_result;
      }

module _ (js : Coercion) (parse_date : String → Number) (now : Number) where
  unfoldable pub project_live_snapshot :
      Option LiveSnapshot → List RosterEntry → Option ProjectedServerData
  unfolding normalize_live_slide
  project_live_snapshot none roster = none
  project_live_snapshot (some snapshot) roster = some (
      projected js snapshot roster (
        normalize_live_slide js parse_date now snapshot.active_item
          (protocol_session snapshot.session)))
