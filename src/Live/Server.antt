-- ===== src/Live/Server.antt =====
-- The server's side of an action, from apps/api/internal/live: `CanApplyAction` of state.go and the
-- change of the session that `ApplyAction` of postgres_store.go commits, with the refusals of
-- `present_item`. A refusal of any kind is `none`. What the store answers about a slide is given
-- with the slide: its kind, whether its content decodes, and the deadline that it would get. The
-- rights of the host, the version check, the replay of a repeated request and the errors of the
-- store itself are left out here.
use pro_slides_go.Base.{
  if◌then◌else◌, ℕ, ◌+◌, String, Bool, true, false, Option, none, some, List, [], ◌∷◌,
}
use pro_slides_go.Live.Types.{
  LiveState, draft, lobby, presenting, ended, ActivityPhase, accepting, closed, revealed, StageView,
  item, overall_ranking,
}
use pro_slides_go.Live.Protocol.{
  LiveActionName, present_item, close_activity, reveal_activity, show_overall_ranking,
}
use pro_slides_go.Js.Text.{is_empty}

-- The columns of `live_sessions` that an action reads or writes.
pub record Stored : Type 0 where
  pub state : LiveState
  pub state_version : ℕ
  pub active_item_id : Option String
  pub activity_phase : Option ActivityPhase
  pub stage_view : StageView
  pub ends_at : Option String

-- What the query for an item finds: no slide, or one with a `kind` column of content, an activity or
-- anything else. An activity's content decodes, and gives the deadline that is computed from its
-- duration, or does not.
pub data SlideKind : Type 0 where
  missing_slide : SlideKind
  content_slide : SlideKind
  activity_slide : (deadline : Option String) → SlideKind
  other_slide : SlideKind

-- The item that comes with `present_item`, and what the session has under that id.
pub record Target : Type 0 where
  pub item_id : String
  pub kind : SlideKind

unfoldable pub can_apply_action : LiveState → Option ActivityPhase → LiveActionName → Bool
can_apply_action draft phase LiveActionName.start = true
can_apply_action lobby phase present_item = true
can_apply_action presenting none present_item = true
can_apply_action presenting (some revealed) present_item = true
can_apply_action presenting (some accepting) close_activity = true
can_apply_action presenting (some closed) reveal_activity = true
can_apply_action presenting (some revealed) show_overall_ranking = true
can_apply_action lobby phase LiveActionName.end = true
can_apply_action presenting none LiveActionName.end = true
can_apply_action presenting (some closed) LiveActionName.end = true
can_apply_action presenting (some revealed) LiveActionName.end = true
can_apply_action state phase action = false

abbrev shown : String → Option ActivityPhase → Option String → Stored → Stored
shown id phase deadline s = record s {
  state = presenting;
  active_item_id = some id;
  activity_phase = phase;
  stage_view = item;
  ends_at = deadline;
}

abbrev presented : String → SlideKind → Stored → Option Stored
presented id missing_slide s = none
presented id content_slide s = some (shown id none none s)
presented id (activity_slide none) s = none
presented id (activity_slide (some deadline)) s = some (shown id (some accepting) (some deadline) s)
presented id other_slide s = none

-- No target is a request without an item.
changed : Option Target → LiveActionName → Stored → Option Stored
changed target LiveActionName.start s = some (record s {
  state = lobby;
  active_item_id = none;
  activity_phase = none;
  stage_view = item;
  ends_at = none;
})
changed none present_item s = none
changed (some t) present_item s = if is_empty t.item_id then none else presented t.item_id t.kind s
changed target close_activity s =
    some (record s { activity_phase = some closed; stage_view = item; ends_at = none })
changed target reveal_activity s =
    some (record s { activity_phase = some revealed; stage_view = item; ends_at = none })
changed target show_overall_ranking s =
    some (record s { stage_view = overall_ranking; ends_at = none })
changed target LiveActionName.end s = some (record s {
  state = ended;
  active_item_id = none;
  activity_phase = none;
  stage_view = item;
  ends_at = none;
})

abbrev bumped : Option Stored → Option Stored
bumped none = none
bumped (some s) = some (record s { state_version = s.state_version + 1 })

unfoldable pub apply_action : Option Target → LiveActionName → Stored → Option Stored
unfolding changed can_apply_action
apply_action target action s =
    if can_apply_action s.state s.activity_phase action
    then bumped (changed target action s)
    else none

-- A list of actions, each sent after the one before was accepted.
abbrev then_apply : (Stored → Option Stored) → Option Stored → Option Stored
then_apply k none = none
then_apply k (some s) = k s

unfoldable pub apply_actions : Option Target → List LiveActionName → Stored → Option Stored
apply_actions target [] s = some s
apply_actions target (action ∷ actions) s =
    then_apply (apply_actions target actions) (apply_action target action s)
