-- ===== src/Live/Protocol.antt =====
-- apps/web/src/modules/live/runtime/protocol.ts: the cursor that orders events and snapshots, and
-- the plans of server actions behind the presenter's commands.
pub mod Cursor
pub mod Plan
use pro_slides_go.Base.{if◌then◌else◌, Bool, false, not, Option, none, some, List, [], ◌∷◌}
use pro_slides_go.Js.Number.{Number, int, is_finite, le, num_max}
use pro_slides_go.Live.Types.{
  LiveState, draft, presenting, ended, ActivityPhase, accepting, closed, revealed, StageView, item,
  LiveEvent, LiveSnapshot,
}

pub record LiveCursor : Type 0 where
  pub event_id : Number
  pub state_version : Number

pub data LiveActionName : Type 0 where
  start present_item close_activity reveal_activity show_overall_ranking end : LiveActionName

pub data LiveNavigationCommand : Type 0 where
  start next : LiveNavigationCommand

-- Numbers that are not finite read as the fallback.
abbrev pub finite_number : Number → Number → Number
finite_number value fallback = if is_finite value then value else fallback

abbrev pub optional_finite_number : Number → Option Number
optional_finite_number value = if is_finite value then some value else none

abbrev newer : LiveCursor → LiveEvent → Option Number → Bool
newer cursor event none = false
newer cursor event (some event_id) =
    if le event_id (finite_number cursor.event_id (int 0))
    then false
    else le (finite_number cursor.state_version (int 0)) (finite_number event.state_version (int 0))

unfoldable pub should_apply_live_event : LiveCursor → LiveEvent → Bool
should_apply_live_event cursor event = newer cursor event (optional_finite_number event.event_id)

unfoldable pub advance_live_cursor : LiveCursor → LiveEvent → LiveCursor
advance_live_cursor cursor event =
    if not (should_apply_live_event cursor event) then cursor else record {
      event_id = finite_number event.event_id cursor.event_id;
      state_version =
          num_max (finite_number cursor.state_version (int 0))
            (finite_number event.state_version (int 0));
    }

unfoldable pub live_cursor_from_snapshot : LiveSnapshot → LiveCursor
live_cursor_from_snapshot snapshot = record {
  event_id = finite_number snapshot.last_event_id (int 0);
  state_version = finite_number snapshot.session.state_version (int 0);
}

-- A plan reads of the slide only whether there is one.
abbrev action_for_slide {ℓ} : {Slide : Type ℓ} → Option Slide → List LiveActionName
action_for_slide none = []
action_for_slide (some slide) = present_item ∷ []

abbrev start_plan {ℓ} : {Slide : Type ℓ} → Option LiveState → Option Slide → List LiveActionName
start_plan (some draft) slide = LiveActionName.start ∷ action_for_slide slide
start_plan state slide = action_for_slide slide

-- The step after an activity: `state` is `presenting`.
abbrev next_plan {ℓ} :
    {Slide : Type ℓ} → Option ActivityPhase → StageView → Option Slide → List LiveActionName
next_plan (some accepting) view slide = close_activity ∷ reveal_activity ∷ []
next_plan (some closed) view slide = reveal_activity ∷ []
next_plan (some revealed) item none = show_overall_ranking ∷ []
next_plan phase view slide = action_for_slide slide

module _ {ℓ} {Slide : Type ℓ} where
  unfoldable pub plan_live_navigation :
      Option LiveState
      → LiveNavigationCommand
      → Option Slide
      → Option ActivityPhase
      → StageView
      → List LiveActionName
  plan_live_navigation (some ended) command slide phase view = []
  plan_live_navigation state LiveNavigationCommand.start slide phase view = start_plan state slide
  plan_live_navigation (some presenting) next slide phase view = next_plan phase view slide
  plan_live_navigation state next slide phase view = action_for_slide slide

unfoldable pub plan_live_end : Option LiveState → Option ActivityPhase → List LiveActionName
plan_live_end (some presenting) (some accepting) = close_activity ∷ end ∷ []
plan_live_end (some ended) phase = []
plan_live_end state phase = end ∷ []
