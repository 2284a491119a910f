-- ===== src/Live/Runtime/Events.antt =====
-- `handleEvent` of LiveRuntime.ts.
use pro_slides_go.Base.{if◌then◌else◌, String, false, not, Option, none, some}
use pro_slides_go.Js.Number.{Number, int, num_eq, num_add, num_max, num_or}
use pro_slides_go.Js.Value.{Value, get, Coercion, truthy, number_of}
use pro_slides_go.Live.Types.{
  LiveEvent, EventName, ActivityResult, LiveSnapshot, presence_updated, activity_result_updated,
  RosterOrder, joined,
}
use pro_slides_go.Live.Protocol.{should_apply_live_event, advance_live_cursor}
use pro_slides_go.Live.Result.{record_payload, normalize_activity_result}
use pro_slides_go.Live.Runtime.State.{Runtime, LiveClientRole, publish}
use pro_slides_go.Live.Runtime.Roster.{RosterTicket, load_roster_start}
use pro_slides_go.Live.Runtime.Refresh.{RefreshStart, refresh_start, roster_order_for}

-- What the handler has set going when it returns.
pub data Launched : Type 0 where
  nothing : Launched
  loading : Option RosterTicket → Launched
  refreshing : RefreshStart → Launched

-- `Number(payload.participant_delta || 0)`.
abbrev pub participant_delta : Coercion → Value → Number
participant_delta js payload =
    let v = get "participant_delta" (record_payload js payload) in
    if truthy v then number_of js v else int 0

abbrev pub replace_snapshot : LiveSnapshot → Runtime → Runtime
replace_snapshot received r =
    publish (λ s. record s { snapshot = some received })
      (record r { snapshot_value = some received })

abbrev pub count_participants : Number → Option LiveSnapshot → Runtime → Runtime
count_participants delta none r = r
count_participants delta (some s) r =
    if num_eq delta (int 0)
    then r
    else replace_snapshot
        (record s {
          participant_count = num_max (int 0) (num_add (num_or s.participant_count (int 0)) delta);
        })
        r

abbrev pub presence_order : Option LiveSnapshot → RosterOrder
presence_order none = joined
presence_order (some s) = roster_order_for s

abbrev pub launch_roster : Runtime × Option RosterTicket → Runtime × Launched
launch_roster (r, ticket) = (r, loading ticket)

abbrev pub reload_roster : LiveClientRole → Runtime → Runtime × Launched
reload_roster LiveClientRole.manager r =
    launch_roster (load_roster_start (presence_order r.snapshot_value) false r)
reload_roster LiveClientRole.player r = (r, nothing)

abbrev pub show_result : Option ActivityResult → Option LiveSnapshot → Runtime → Runtime
show_result (some result) (some s) r =
    replace_snapshot (record s { activity_result = some result }) r
show_result result snapshot r = r

abbrev pub launch_refresh : Runtime × RefreshStart → Runtime × Launched
launch_refresh (r, begun) = (r, refreshing begun)

-- The part after the cursor has moved. Every name of the schema is one of these.
abbrev pub dispatch : Coercion → LiveEvent → EventName → Runtime → Runtime × Launched
dispatch js event presence_updated r =
    let r' = count_participants (participant_delta js event.payload) r.snapshot_value r in
    reload_roster r'.role r'
dispatch js event activity_result_updated r =
    (show_result (normalize_activity_result js event.payload) r.snapshot_value r, nothing)
dispatch js event name r = launch_refresh (refresh_start r)

unfoldable pub handle_event : Coercion → LiveEvent → Runtime → Runtime × Launched
handle_event js event r =
    if not (should_apply_live_event r.cursor event)
    then (r, nothing)
    else dispatch js event event.name (record r { cursor = advance_live_cursor r.cursor event })

-- The handler of a refresh that was rejected.
unfoldable pub refresh_rejected : String → Runtime → Runtime
refresh_rejected message r = publish (λ s. record s { connection_error = some message }) r
