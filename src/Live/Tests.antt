-- ===== src/Live/Tests.antt =====
-- The live session's theorems at concrete runs, sessions and payloads.
pub mod Projection
pub mod Participant
pub mod Sending
use pro_slides_go.Base.{
  if◌then◌else◌, ℕ, String, ◌≡◌, ◌≢◌, refl, ◌⊎◌, inr, ◌↔◌, true, false, Option, none, some, List,
  [], ◌∷◌, All, str_eq,
}
use pro_slides_go.Js.Number.{Number, nan, int}
use pro_slides_go.Js.Value.{Coercion, Value, str, num, obj, field, end, get}
use pro_slides_go.Live.Types.{
  LiveState, presenting, draft, ActivityPhase, accepting, item, overall_ranking, LiveSession,
  LiveSnapshot, Viewer, LiveEvent, ranking_updated, RosterPage, joined, score, ActivityResult,
  option_counts, choice,
}
use pro_slides_go.Live.Protocol.{
  LiveCursor, LiveActionName, start, next, close_activity, should_apply_live_event,
}
use pro_slides_go.Live.Protocol.Plan.{
  navigate, finish, after_next, after_end, is_draft, IsRow, apply_actions-IsRow, navigate-next,
  navigate-start, finish-ended, next_reaches_ranking, is_presentable, refuses,
}
use pro_slides_go.Live.Protocol.Cursor.{advance_all, IsSound, advance_all_replay}
use pro_slides_go.Live.Server.{
  Stored, Target, apply_actions, apply_action, SlideKind, activity_slide, missing_slide,
}
use pro_slides_go.Js.TextMap.{lookup}
use pro_slides_go.Live.Result.{normalize_activity_result, record_payload}
use pro_slides_go.Live.Result.Laws.{IsClean, normalize_activity_result-IsClean}
use pro_slides_go.Live.Runtime.State.{
  Runtime, LiveClientRole, new_runtime, select_session, disconnect,
}
use pro_slides_go.Live.Runtime.Roster.{ok, ticket_for, load_roster_start, load_roster_finish}
use pro_slides_go.Live.Runtime.Refresh.{
  RefreshTicket, refresh_start, changed, refresh_snapshot, refresh_tail,
}
use pro_slides_go.Live.Runtime.Steps.{Reach, Step}
use pro_slides_go.Live.Runtime.Steps.Mirror.{run-IsMirror, Shows}
use pro_slides_go.Live.Runtime.Steps.Keeps.{Later}
use pro_slides_go.Live.Runtime.Steps.Forward.{run-Advances}
use pro_slides_go.Live.Runtime.Steps.Stale.{roster_newest_wins, refresh_stops}
use pro_slides_go.Live.Runtime.Actions.{
  ActionRequest, ActionTicket, action_key, run_action_start, send_end, send_navigation,
}
use pro_slides_go.Live.Runtime.Actions.Served.{serve, InSync}
use pro_slides_go.Live.Runtime.Actions.Retry.{run_action_start-again}
use pro_slides_go.Live.Runtime.Actions.Commands.{send_end-ended, send_navigation-next}

abbrev pub js : Coercion
js = record { parse_number = λ s. nan; object_number = λ v. nan; to_text = λ v. "1" }

abbrev idle : Runtime
idle = new_runtime LiveClientRole.manager

abbrev chosen : Runtime
chosen = select_session "s" idle

abbrev choice_run : Reach js idle chosen
choice_run = Reach.then Reach.here (Step.session_selected "s" idle)

abbrev asked : Runtime
asked = (load_roster_start joined false chosen).0

abbrev asked_run : Reach js chosen asked
asked_run = Reach.then Reach.here (Step.roster_asked joined false chosen)

abbrev page : RosterPage
page = record { items = []; order = joined; limit = 50; has_more = true; next_cursor = none }

run-IsMirror_example : Shows chosen
unfolding select_session
run-IsMirror_example = run-IsMirror js LiveClientRole.manager chosen choice_run refl

run-Advances_example : IsSound chosen.cursor × Later chosen asked
run-Advances_example = run-Advances js LiveClientRole.manager chosen asked choice_run asked_run

zero-IsSound : IsSound chosen.cursor
unfolding select_session
zero-IsSound = record { event_id = refl; state_version = refl }

roster_newest_wins_example :
    load_roster_finish
      (ticket_for "s" joined false chosen)
      (ok page)
      (load_roster_start score true asked).0
    ≡ ((load_roster_start score true asked).0, false)
unfolding load_roster_start select_session
roster_newest_wins_example =
    roster_newest_wins js joined score false true chosen asked
      (load_roster_start score true asked).0 (ticket_for "s" joined false chosen)
      (ticket_for "s" score true asked) (ok page) zero-IsSound refl Reach.here refl Reach.here

abbrev session : LiveState → Number → Option ActivityPhase → LiveSession
session state version phase = record {
  id = "s";
  presentation_id = "p";
  state = state;
  state_version = version;
  active_item_id = some "a";
  activity_phase = phase;
  stage_view = item;
  ends_at = none;
  remaining_seconds = none;
  host_id = some "h";
  join_code = some "1234";
}

abbrev snapshot : LiveSnapshot
snapshot = record {
  role = Viewer.manager [];
  session = session presenting (int 5) (some accepting);
  active_item = Value.undefined;
  participant_count = int 3;
  has_scoring = true;
  last_event_id = int 9;
  activity_result = none;
}

abbrev refreshing : Runtime
refreshing = (refresh_start chosen).0

abbrev refresh_ticket : RefreshTicket
refresh_ticket = record { id = "s"; lifecycle_version = 1; promise = 0 }

refresh_stops_example :
    (refresh_snapshot refresh_ticket snapshot (disconnect refreshing)
      ≡ (disconnect refreshing, changed))
    × (refresh_tail refresh_ticket (disconnect refreshing) ≡ (disconnect refreshing, changed))
unfolding refresh_start select_session
refresh_stops_example =
    refresh_stops js chosen refreshing (disconnect refreshing) (disconnect refreshing)
      refresh_ticket snapshot zero-IsSound refl Reach.here (inr refl) Reach.here

abbrev held : Runtime
held = record chosen { snapshot_value = some snapshot }

abbrev row : Stored
row = record {
  state = presenting;
  state_version = 5;
  active_item_id = some "a";
  activity_phase = some accepting;
  stage_view = item;
  ends_at = none;
}

held-InSync : InSync snapshot.session row held
unfolding select_session
held-InSync = record {
  id = "s";
  selected = refl;
  named = refl;
  snapshot = snapshot;
  held = refl;
  top = [];
  manager = refl;
  synced = refl;
}

abbrev kinds : String → SlideKind
kinds id = if str_eq id "b" then activity_slide (some "12:30") else missing_slide

abbrev target : Option Target
target = some (record { item_id = "b"; kind = activity_slide (some "12:30") })

live : row.state ≢ draft
live e = cc

abbrev refresh : Stored → Runtime → Runtime × Option String
refresh s r = (r, none)

send_navigation-next_example :
    let out =
      send_navigation js
        (λ a. "q")
        (serve snapshot.session kinds)
        refresh
        next
        (some (str "b"))
        row
        held in
    (out.0 ≡ after_next target row) × (out.2 ≡ true) × (out.1.command_in_flight ≡ false)
unfolding select_session
send_navigation-next_example =
    send_navigation-next js snapshot.session kinds (λ a. "q") refresh (some (str "b")) target row
      held (refl, refl, refl) held-InSync refl refl

send_end-ended_example :
    let out = send_end js (λ a. "q") (serve snapshot.session kinds) refresh row held in
    (out.0 ≡ after_end row) × (out.2 ≡ true) × (out.1.command_in_flight ≡ false)
unfolding select_session
send_end-ended_example =
    send_end-ended js snapshot.session kinds (λ a. "q") refresh row held held-InSync refl live

abbrev sent : Runtime × Option (ActionTicket × ActionRequest)
sent = run_action_start js "q" close_activity none held

abbrev sent_pair : ActionTicket × ActionRequest
sent_pair = (
  record { key = action_key js "s" snapshot close_activity none; current = snapshot },
  record {
    session_id = "s";
    request_id = "q";
    expected_state_version = int 5;
    action = close_activity;
    item_id = none;
  },
)

run_action_start-again_example :
    run_action_start js "other" close_activity none sent.0 ≡ (sent.0, some sent_pair)
unfolding run_action_start select_session lookup
run_action_start-again_example =
    run_action_start-again js "q" "other" close_activity none held sent.0 sent_pair refl refl

abbrev event : ℕ → LiveEvent
event n = record {
  event_id = int n;
  schema_version = 1;
  session_id = "s";
  state_version = int 1;
  name = ranking_updated;
  payload = Value.undefined;
  occurred_at = "";
}

abbrev events : List LiveEvent
events = event 2 ∷ event 1 ∷ event 3 ∷ []

abbrev origin : LiveCursor
origin = record { event_id = int 0; state_version = int 0 }

origin-IsSound : IsSound origin
origin-IsSound = record { event_id = refl; state_version = refl }

advance_all_replay_example :
    (advance_all (advance_all origin events) events ≡ advance_all origin events)
    × All (λ e. should_apply_live_event (advance_all origin events) e ≡ false) events
advance_all_replay_example = advance_all_replay origin events origin-IsSound

navigate-next_example :
    navigate target row next
    ≡ (if refuses row.state row.activity_phase target then none else some (after_next target row))
navigate-next_example = navigate-next target row

navigate-start_example : (navigate target row start ≡ none) ↔ (
    (row.state ≢ LiveState.ended)
    × (target ≢ none)
    × ((is_presentable target ≡ false)
        ⊎ ((row.state ≡ presenting)
            × ((row.activity_phase ≡ some accepting)
                ⊎ (row.activity_phase ≡ some ActivityPhase.closed)))))
navigate-start_example = navigate-start target row

finish-ended_example :
    finish target row ≡ (if is_draft row.state then none else some (after_end row))
finish-ended_example = finish-ended target row

phased : row.activity_phase ≢ none
phased e = cc

next_reaches_ranking_example :
    (t : Stored) × (u : Stored) × (navigate none row next ≡ some t)
    × (navigate none t next ≡ some u)
    × (u.stage_view ≡ overall_ranking)
    × (u.active_item_id ≡ row.active_item_id)
    × (u.state ≡ presenting)
    × (navigate none u next ≡ some u)
next_reaches_ranking_example = next_reaches_ranking row refl phased

row-IsRow : IsRow row
row-IsRow = record { phase = λ h. absurd (h refl); view = λ h. cc; deadline = λ h. refl }

apply_actions-IsRow_example : IsRow (after_end row)
unfolding apply_actions apply_action
apply_actions-IsRow_example =
    apply_actions-IsRow none (close_activity ∷ LiveActionName.end ∷ []) row (after_end row)
      row-IsRow refl

abbrev result_value : Value
result_value = obj (
    field "activity_item_id" (str "a") (
      field "activity_kind" (str "choice") (
        field "schema_version" (num (int 1)) (
          field "response_count" (num (int 2)) (
            field "payload" (obj (field "option_counts" (obj (field "0" (num (int 2)) end)) end))
              end)))))

abbrev clean_result : ActivityResult
clean_result = record {
  activity_item_id = "a";
  activity_kind = choice;
  schema_version = int 1;
  response_count = int 2;
  payload = option_counts (("0", int 2) ∷ []);
}

normalize_activity_result-IsClean_example : IsClean js (record_payload js result_value) clean_result
unfolding normalize_activity_result get
normalize_activity_result-IsClean_example =
    normalize_activity_result-IsClean js result_value clean_result refl
