-- ===== src/Live/Runtime/Steps/Mirror.antt =====
-- The public state of apps/web/src/modules/live/runtime/LiveRuntime.ts beside its private fields.
use pro_slides_go.Base.{String, ◌≡◌, Bool, false, arith, refl, Option, inl, inr, Bool-cases}
use pro_slides_go.Live.Types.{
  LiveSnapshot, RosterPage, RosterOrder, LiveEvent, EventName, session_created, presence_updated,
  session_state_changed, activity_result_updated, ranking_updated,
}
use pro_slides_go.Live.Runtime.State.{
  Runtime, select_session, store_snapshot, LiveClientRole, new_runtime, disconnect, destroy,
}
use pro_slides_go.Live.Runtime.Roster.{RosterTicket, Reply, load_roster_start, load_roster_finish}
use pro_slides_go.Live.Runtime.Refresh.{
  refresh_start, RefreshTicket, refresh_snapshot, refresh_tail, refresh_settle,
}
use pro_slides_go.Js.Value.{Coercion, Value}
use pro_slides_go.Live.Protocol.{LiveActionName, should_apply_live_event, advance_live_cursor}
use pro_slides_go.Live.Runtime.Steps.{Reach, Step}
use pro_slides_go.Live.Runtime.Events.{
  handle_event, refresh_rejected, participant_delta, count_participants, reload_roster, dispatch,
}
use pro_slides_go.Live.Runtime.Actions.{run_action_finish, run_action_start}
use pro_slides_go.Js.Number.{Number}

-- The session, snapshot and roster that are shown are the ones that are held.
pub record Shows (r : Runtime) : Type 0 where
  pub session : r.state.session_id ≡ r.selected_session_id
  pub snapshot : r.state.snapshot ≡ r.snapshot_value
  pub roster : r.state.roster ≡ r.roster_value
  pub order : r.state.roster_order ≡ r.roster_order_value

abbrev pub IsMirror : Runtime → Type 0
IsMirror r = r.destroyed ≡ false → Shows r

load_roster_start-IsMirror :
    (order : RosterOrder) (append : Bool) (r : Runtime)
    → IsMirror r
    → IsMirror (load_roster_start order append r).0
unfolding load_roster_start
load_roster_start-IsMirror order append r h = ground arith

load_roster_finish-IsMirror :
    (t : RosterTicket) (reply : Reply RosterPage) (r : Runtime)
    → IsMirror r
    → IsMirror (load_roster_finish t reply r).0
unfolding load_roster_finish
load_roster_finish-IsMirror t reply r h = ground arith

refresh_start-IsMirror : (r : Runtime) → IsMirror r → IsMirror (refresh_start r).0
unfolding refresh_start
refresh_start-IsMirror r h = ground arith

select_session-IsMirror : (id : String) (r : Runtime) → IsMirror r → IsMirror (select_session id r)
unfolding select_session
select_session-IsMirror id r h = ground arith

store_snapshot-IsMirror :
    (s : LiveSnapshot) (r : Runtime) → IsMirror r → IsMirror (store_snapshot s r).0
unfolding store_snapshot
store_snapshot-IsMirror s r h = ground arith

refresh_snapshot-IsMirror :
    (t : RefreshTicket) (s : LiveSnapshot) (r : Runtime)
    → IsMirror r
    → IsMirror (refresh_snapshot t s r).0
unfolding refresh_snapshot
refresh_snapshot-IsMirror t s r h = ground arith

count_participants-IsMirror :
    (delta : Number) (r : Runtime)
    → IsMirror r
    → IsMirror (count_participants delta r.snapshot_value r)
count_participants-IsMirror delta r h = ground arith

reload_roster-IsMirror :
    (role : LiveClientRole) (r : Runtime) → IsMirror r → IsMirror (reload_roster role r).0
reload_roster-IsMirror LiveClientRole.manager r h = load_roster_start-IsMirror _ false r h
reload_roster-IsMirror LiveClientRole.player r h = h

dispatch-IsMirror :
    (js : Coercion) (e : LiveEvent) (name : EventName) (r : Runtime)
    → IsMirror r
    → IsMirror (dispatch js e name r).0
dispatch-IsMirror js e presence_updated r h =
    reload_roster-IsMirror _ _ (count_participants-IsMirror (participant_delta js e.payload) r h)
dispatch-IsMirror js e activity_result_updated r h = ground arith
dispatch-IsMirror js e session_created r h = refresh_start-IsMirror r h
dispatch-IsMirror js e session_state_changed r h = refresh_start-IsMirror r h
dispatch-IsMirror js e ranking_updated r h = refresh_start-IsMirror r h

handle_event-IsMirror :
    (js : Coercion) (e : LiveEvent) (r : Runtime) → IsMirror r → IsMirror (handle_event js e r).0
unfolding handle_event
handle_event-IsMirror js e r h = elim (Bool-cases (should_apply_live_event r.cursor e)) [
  | inl applied ↦ rw applied (
      dispatch-IsMirror js e e.name (record r { cursor = advance_live_cursor r.cursor e })
        (ground arith))
  | inr ignored ↦ rw ignored h
]

run_action_start-IsMirror :
    (js : Coercion) (fresh : String) (action : LiveActionName) (slide : Option Value) (r : Runtime)
    → IsMirror r
    → IsMirror (run_action_start js fresh action slide r).0
unfolding run_action_start
run_action_start-IsMirror js fresh action slide r h = ground arith

Step-IsMirror : (js : Coercion) {r s : Runtime} → Step js r s → IsMirror r → IsMirror s
unfolding refresh_tail refresh_settle refresh_rejected run_action_finish disconnect destroy
Step-IsMirror js (Step.event e r) h = handle_event-IsMirror js e r h
Step-IsMirror js (Step.roster_asked order append r) h = load_roster_start-IsMirror order append r h
Step-IsMirror js (Step.roster_answered t reply r) h = load_roster_finish-IsMirror t reply r h
Step-IsMirror js (Step.refresh_asked r) h = refresh_start-IsMirror r h
Step-IsMirror js (Step.refresh_answered t s r) h = refresh_snapshot-IsMirror t s r h
Step-IsMirror js (Step.refresh_resumed t r) h = ground arith
Step-IsMirror js (Step.refresh_ended t r) h = ground arith
Step-IsMirror js (Step.refresh_failed message r) h = ground arith
Step-IsMirror js (Step.session_selected id r) h = select_session-IsMirror id r h
Step-IsMirror js (Step.action_asked fresh action slide r) h =
    run_action_start-IsMirror js fresh action slide r h
Step-IsMirror js (Step.action_answered t session r) h = ground arith
Step-IsMirror js (Step.disconnected r) h = ground arith
Step-IsMirror js (Step.destroyed r) h = ground arith

Reach-IsMirror : (js : Coercion) {r s : Runtime} → Reach js r s → IsMirror r → IsMirror s
Reach-IsMirror js Reach.here h = h
Reach-IsMirror js (Reach.then run step) h = Step-IsMirror js step (Reach-IsMirror js run h)

-- In every run of a new runtime, until it is destroyed, the session, the snapshot, the roster and
-- its order that are shown are the ones that the runtime holds.
pub run-IsMirror :
    (js : Coercion) (role : LiveClientRole) (r : Runtime)
    → Reach js (new_runtime role) r
    → r.destroyed ≡ false
    → Shows r
run-IsMirror js role r run =
    Reach-IsMirror js run
      (λ _. record { session = refl; snapshot = refl; roster = refl; order = refl })
