-- ===== src/Live/Runtime/Actions.antt =====
-- `runAction`, `sendNavigation`, `sendManagerAction` and `sendEnd` of LiveRuntime.ts. A command
-- runs here with nothing between its requests and their answers; the transport is a function of
-- the request and of a world, which is the server's, and the refresh at the end is a parameter.
pub mod Retry
pub mod Served
pub mod Commands
use pro_slides_go.Base.{
  if◌then◌else◌, String, Bool, true, false, not, ◌||◌, Option, none, some, List, [], ◌∷◌,
}
use pro_slides_go.Js.Number.{Number}
use pro_slides_go.Js.Text.{is_empty}
use pro_slides_go.Js.Value.{Value, Coercion, num, is_nullish}
use pro_slides_go.Js.TextMap.{lookup, insert, delete}
use pro_slides_go.Live.Types.{LiveSnapshot, LiveSession, item, Viewer, participant}
use pro_slides_go.Live.Protocol.{
  LiveActionName, LiveNavigationCommand, plan_live_navigation, plan_live_end, present_item,
  close_activity, reveal_activity, show_overall_ranking,
}
use pro_slides_go.Live.Result.{string_of}
use pro_slides_go.Live.Runtime.State.{Runtime, LiveClientRole, publish}
use pro_slides_go.Live.Runtime.Roster.{truthy_text, Reply, ok, failed}
use pro_slides_go.Live.Runtime.Events.{replace_snapshot}

pub record ActionRequest : Type 0 where
  pub session_id : String
  pub request_id : String
  pub expected_state_version : Number
  pub action : LiveActionName
  pub item_id : Option String

-- What `runAction` remembers across its request.
pub record ActionTicket : Type 0 where
  pub key : String
  pub current : LiveSnapshot

abbrev pub action_text : LiveActionName → String
action_text LiveActionName.start = "start"
action_text present_item = "present_item"
action_text close_activity = "close_activity"
action_text reveal_activity = "reveal_activity"
action_text show_overall_ranking = "show_overall_ranking"
action_text LiveActionName.end = "end"

-- Of the slide only `slide_id` is read.
abbrev pub item_text : Coercion → Option Value → String
item_text js none = ""
item_text js (some v) = if is_nullish v then "" else string_of js v

infixl 65 ◌+++◌
abbrev pub ◌+++◌ : String → String → String
s +++ t = Prim.Native.String.◌++◌ s t

unfoldable pub action_key :
    Coercion → String → LiveSnapshot → LiveActionName → Option Value → String
action_key js id current action slide =
    id
    +++ ":"
    +++ js.to_text (num current.session.state_version)
    +++ ":"
    +++ action_text action
    +++ ":"
    +++ item_text js slide

abbrev pub item_of : LiveActionName → String → Option String
item_of present_item id = if is_empty id then none else some id
item_of action id = none

abbrev pub request_of :
    Coercion → String → String → LiveSnapshot → LiveActionName → Option Value → ActionRequest
request_of js id request_id current action slide = record {
  session_id = id;
  request_id = request_id;
  expected_state_version = current.session.state_version;
  action = action;
  item_id = item_of action (item_text js slide);
}

-- The id of an earlier try, or a new one that is kept for the next.
abbrev pub with_id : String → String → Option String → Runtime → Runtime × String
with_id key fresh (some id) r = (r, id)
with_id key fresh none r =
    (record r { pending_action_ids = insert key fresh r.pending_action_ids }, fresh)

abbrev pub issue :
    Coercion
    → String
    → LiveSnapshot
    → LiveActionName
    → Option Value
    → String
    → Runtime × String
    → Runtime × Option (ActionTicket × ActionRequest)
issue js id current action slide key (r, request_id) = (
  r,
  some (record { key = key; current = current }, request_of js id request_id current action slide),
)

abbrev pub authorised :
    Coercion
    → String
    → LiveActionName
    → Option Value
    → String
    → LiveSnapshot
    → Viewer
    → Runtime
    → Runtime × Option (ActionTicket × ActionRequest)
authorised js fresh action slide id current (participant who answered result) r = (r, none)
authorised js fresh action slide id current (Viewer.manager top) r =
    let key = action_key js id current action slide in
    issue js id current action slide key
      (with_id key fresh (truthy_text (lookup key r.pending_action_ids)) r)

abbrev pub selected :
    Coercion
    → String
    → LiveActionName
    → Option Value
    → Option String
    → Option LiveSnapshot
    → Runtime
    → Runtime × Option (ActionTicket × ActionRequest)
selected js fresh action slide (some id) (some current) r =
    authorised js fresh action slide id current current.role r
selected js fresh action slide id current r = (r, none)

-- Up to the request; `fresh` is the id that `createRequestId` would return. No ticket means that
-- the method returned false at once.
unfoldable pub run_action_start :
    Coercion
    → String
    → LiveActionName
    → Option Value
    → Runtime
    → Runtime × Option (ActionTicket × ActionRequest)
run_action_start js fresh action slide r =
    selected js fresh action slide (truthy_text r.selected_session_id) r.snapshot_value r

-- From the answer to the return.
unfoldable pub run_action_finish : ActionTicket → LiveSession → Runtime → Runtime
run_action_finish t session r =
    let r' = replace_snapshot (record (t.current) { session = session }) r in
    record r' { pending_action_ids = delete t.key r'.pending_action_ids }

-- Only `present_item` is sent with the slide.
abbrev pub slide_for : LiveActionName → Option Value → Option Value
slide_for present_item slide = slide
slide_for action slide = none

module _ {W : Type 0} (js : Coercion) (fresh : LiveActionName → String)
    (transport : ActionRequest → W → W × Reply LiveSession)
    (refresh : W → Runtime → Runtime × Option String) where
  -- The state of the client and the world, with the error that stopped the command.
  abbrev pub Outcome : Type 0
  Outcome = W × Runtime × Option String

  abbrev pub answered :
      (W → Runtime → Outcome) → ActionTicket → Runtime → W × Reply LiveSession → Outcome
  answered rest t r (w, ok session) = rest w (run_action_finish t session r)
  answered rest t r (w, failed message) = (w, r, some message)

  abbrev pub requested :
      String
      → (W → Runtime → Outcome)
      → W
      → Runtime × Option (ActionTicket × ActionRequest)
      → Outcome
  requested refusal rest w (r, none) = (w, r, some refusal)
  requested refusal rest w (r, some (t, request)) = answered rest t r (transport request w)

  -- The loop over the planned actions.
  unfoldable pub run_actions : String → List LiveActionName → Option Value → W → Runtime → Outcome
  run_actions refusal [] slide w r = (w, r, none)
  run_actions refusal (action ∷ actions) slide w r =
      requested refusal (run_actions refusal actions slide) w
        (run_action_start js (fresh action) action (slide_for action slide) r)

  abbrev pub report : Option String → Runtime → Runtime
  report none r = r
  report (some message) r = publish (λ s. record s { connection_error = some message }) r

  abbrev pub refreshed : Runtime × Option String → Runtime
  refreshed (r, error) = report error r

  abbrev pub conclude : Outcome → W × Runtime × Bool
  conclude (w, r, none) = (w, record (refreshed (refresh w r)) { command_in_flight = false }, true)
  conclude (w, r, some message) =
      (w, record (report (some message) r) { command_in_flight = false }, false)

  abbrev pub command : Bool → (Runtime → Outcome) → W → Runtime → W × Runtime × Bool
  command true body w r = (w, r, false)
  command false body w r = conclude (body (record r { command_in_flight = true }))

  abbrev pub plan_for :
      LiveNavigationCommand → Option Value → Option LiveSnapshot → List LiveActionName
  plan_for navigation slide none = plan_live_navigation none navigation slide none item
  plan_for navigation slide (some s) =
      plan_live_navigation (some s.session.state) navigation slide s.session.activity_phase
        s.session.stage_view

  unfoldable pub send_navigation :
      LiveNavigationCommand → Option Value → W → Runtime → W × Runtime × Bool
  unfolding run_actions
  send_navigation navigation slide w r =
      command r.command_in_flight
        (run_actions "Live action was not authorized" (plan_for navigation slide r.snapshot_value)
          slide w)
        w r

  abbrev pub is_manager : LiveClientRole → Bool
  is_manager LiveClientRole.manager = true
  is_manager LiveClientRole.player = false

  unfoldable pub send_manager_action : LiveActionName → W → Runtime → W × Runtime × Bool
  unfolding run_actions
  send_manager_action action w r =
      command (r.command_in_flight || not (is_manager r.role))
        (run_actions "Live manager action was not authorized" (action ∷ []) none w) w r

  abbrev pub end_plan : Option LiveSnapshot → List LiveActionName
  end_plan none = plan_live_end none none
  end_plan (some s) = plan_live_end (some s.session.state) s.session.activity_phase

  unfoldable pub send_end : W → Runtime → W × Runtime × Bool
  unfolding run_actions
  send_end w r =
      command r.command_in_flight
        (run_actions "Live end action was not authorized" (end_plan r.snapshot_value) none w) w r
