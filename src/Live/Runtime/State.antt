-- ===== src/Live/Runtime/State.antt =====
-- The state of `LiveRuntime` and the methods that only set it: `publish`, `resetInternals`,
-- `selectSession`, `storeSnapshot`, `disconnect` and `destroy`.
-- An abort controller and a promise are known by the number of such
-- objects made before, which `handles` counts. The listeners, which only observe what
-- `publish` has stored, are left out.
use pro_slides_go.Base.{
  if◌then◌else◌, ℕ, ◌+◌, String, Bool, true, false, ◌||◌, Option, none, some, List, [], str_eq,
}
use pro_slides_go.Js.Number.{int, lt}
use pro_slides_go.Live.Types.{LiveSnapshot, RosterEntry, RosterOrder, joined}
use pro_slides_go.Live.Protocol.{LiveCursor, live_cursor_from_snapshot}

pub data LiveClientRole : Type 0 where
  manager player : LiveClientRole

pub record LiveJoinResult : Type 0 where
  pub client_user_id : String
  pub participant_id : String
  pub display_name : String
  pub avatar : String

pub record LiveRuntimeState : Type 0 where
  pub is_connected : Bool
  pub is_stream_connected : Bool
  pub connection_error : Option String
  pub session_id : Option String
  pub snapshot : Option LiveSnapshot
  pub last_join_result : Option LiveJoinResult
  pub roster : List RosterEntry
  pub roster_order : RosterOrder
  pub has_more_roster : Bool
  pub is_roster_loading : Bool

abbrev pub initial_cursor : LiveCursor
initial_cursor = record { event_id = int 0; state_version = int 0 }

abbrev pub initial_state : LiveRuntimeState
initial_state = record {
  is_connected = false;
  is_stream_connected = false;
  connection_error = none;
  session_id = none;
  snapshot = none;
  last_join_result = none;
  roster = [];
  roster_order = joined;
  has_more_roster = false;
  is_roster_loading = false;
}

pub record Runtime : Type 0 where
  pub role : LiveClientRole
  pub state : LiveRuntimeState
  pub selected_session_id : Option String
  pub snapshot_value : Option LiveSnapshot
  pub cursor : LiveCursor
  pub roster_cursor : String
  pub roster_order_value : RosterOrder
  pub roster_value : List RosterEntry
  pub stream_abort : Option ℕ
  pub refresh_promise : Option ℕ
  pub refresh_dirty : Bool
  pub command_in_flight : Bool
  pub pending_action_ids : List (String × String)
  pub lifecycle_version : ℕ
  pub roster_request_version : ℕ
  pub handles : ℕ
  pub destroyed : Bool

-- The constructor.
abbrev pub new_runtime : LiveClientRole → Runtime
new_runtime role = record {
  role = role;
  state = initial_state;
  selected_session_id = none;
  snapshot_value = none;
  cursor = initial_cursor;
  roster_cursor = "";
  roster_order_value = joined;
  roster_value = [];
  stream_abort = none;
  refresh_promise = none;
  refresh_dirty = false;
  command_in_flight = false;
  pending_action_ids = [];
  lifecycle_version = 0;
  roster_request_version = 0;
  handles = 0;
  destroyed = false;
}

-- `publish(patch)`: a patch is the function that sets its fields.
abbrev pub publish : (LiveRuntimeState → LiveRuntimeState) → Runtime → Runtime
publish patch r = if r.destroyed then r else record r { state = patch r.state }

unfoldable pub reset_internals : Runtime → Runtime
reset_internals r = record r {
  lifecycle_version = r.lifecycle_version + 1;
  roster_request_version = r.roster_request_version + 1;
  stream_abort = none;
  selected_session_id = none;
  snapshot_value = none;
  cursor = initial_cursor;
  roster_cursor = "";
  roster_order_value = joined;
  roster_value = [];
  refresh_promise = none;
  refresh_dirty = false;
  command_in_flight = false;
  pending_action_ids = [];
}

-- `left === right` for texts that may be null.
abbrev pub same_text : Option String → Option String → Bool
same_text none none = true
same_text (some s) (some t) = str_eq s t
same_text a b = false

unfoldable pub select_session : String → Runtime → Runtime
select_session session_id r =
    if same_text r.selected_session_id (some session_id)
    then r
    else publish
        (λ s. record s {
          session_id = some session_id;
          snapshot = none;
          is_stream_connected = false;
          roster = [];
          roster_order = joined;
          has_more_roster = false;
          is_roster_loading = false;
          last_join_result = none;
        })
        (record r {
          lifecycle_version = r.lifecycle_version + 1;
          roster_request_version = r.roster_request_version + 1;
          stream_abort = none;
          selected_session_id = some session_id;
          snapshot_value = none;
          cursor = initial_cursor;
          roster_cursor = "";
          roster_order_value = joined;
          roster_value = [];
          refresh_promise = none;
          refresh_dirty = false;
          command_in_flight = false;
          pending_action_ids = [];
        })

abbrev pub keep_snapshot : LiveSnapshot → Runtime → Runtime
keep_snapshot received r =
    publish (λ s. record s { snapshot = some received; session_id = r.selected_session_id })
      (record r { snapshot_value = some received; cursor = live_cursor_from_snapshot received })

-- The snapshot is refused if it is older than the cursor in either number.
unfoldable pub store_snapshot : LiveSnapshot → Runtime → Runtime × Bool
store_snapshot received r =
    let incoming = live_cursor_from_snapshot received in
    if lt incoming.event_id r.cursor.event_id || lt incoming.state_version r.cursor.state_version
    then (r, false)
    else (keep_snapshot received r, true)

-- `disconnect` sets the public state itself, also on a destroyed runtime.
unfoldable pub disconnect : Runtime → Runtime
unfolding reset_internals
disconnect r = record (reset_internals r) { state = initial_state }

unfoldable pub destroy : Runtime → Runtime
unfolding reset_internals
destroy r = if r.destroyed then r else record (reset_internals r) { destroyed = true }
