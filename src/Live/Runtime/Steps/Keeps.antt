-- ===== src/Live/Runtime/Steps/Keeps.antt =====
-- What each method of apps/web/src/modules/live/runtime/LiveRuntime.ts does to the runtime's versions
-- and to its cursor.
use pro_slides_go.Base.{
  ◌≤◌, ◌<◌, String, ◌≡◌, refl, Bool, Option, arith, ◌∙◌, inl, inr, false, ◌||◌, Bool-cases, true,
  some,
}
use pro_slides_go.Live.Protocol.Cursor.{
  IsSound, Precedes, Precedes-refl, Precedes-trans, advance-IsSound, advance-Precedes,
  live_cursor_from_snapshot-IsSound,
}
use pro_slides_go.Live.Runtime.State.{
  Runtime, initial_cursor, store_snapshot, LiveClientRole, keep_snapshot,
}
use pro_slides_go.Live.Runtime.Roster.{Reply, RosterTicket, load_roster_start, load_roster_finish}
use pro_slides_go.Live.Runtime.Events.{
  dispatch, participant_delta, count_participants, reload_roster, handle_event,
}
use pro_slides_go.Live.Types.{
  presence_updated, LiveSnapshot, EventName, session_created, session_state_changed,
  activity_result_updated, ranking_updated, LiveEvent, RosterOrder, RosterPage, Viewer, participant,
}
use pro_slides_go.Js.Value.{Coercion, Value}
use pro_slides_go.Live.Protocol.{
  LiveActionName, live_cursor_from_snapshot, should_apply_live_event, advance_live_cursor,
  LiveCursor,
}
use pro_slides_go.Live.Runtime.Refresh.{
  RefreshTicket, refresh_start, refresh_tail, same_session, roster_order_for, loop_test,
  after_store, stored, refresh_snapshot, clear_roster,
}
use pro_slides_go.Live.Runtime.Actions.{run_action_start, answered}
use pro_slides_go.Js.Number.{Number, lt}
use native.Mathlib.Nat.{le_refl}
use pro_slides_go.Js.Number.Laws.{le_of_not-lt}

pub record Later (r s : Runtime) : Type 0 where
  pub lifecycle : r.lifecycle_version ≤ s.lifecycle_version
  pub requests : r.roster_request_version ≤ s.roster_request_version
  pub cursor : r.lifecycle_version ≡ s.lifecycle_version → Precedes r.cursor s.cursor

pub Later-trans : (r s t : Runtime) → Later r s → Later s t → Later r t
Later-trans r s t h k = record {
  lifecycle = omega (arith, h, k);
  requests = omega (arith, h, k);
  cursor = λ e.
      Precedes-trans r.cursor s.cursor t.cursor (h.cursor (omega (arith, h.lifecycle, k.lifecycle)))
        (k.cursor (omega (arith, h.lifecycle, k.lifecycle)));
}

-- The versions grow or stay, and the cursor stays.
pub record Keeps (r s : Runtime) : Type 0 where
  pub lifecycle : r.lifecycle_version ≤ s.lifecycle_version
  pub requests : r.roster_request_version ≤ s.roster_request_version
  pub cursor : s.cursor ≡ r.cursor

abbrev pub Advances : Runtime → Runtime → Type 0
Advances r s = IsSound s.cursor × Later r s

pub Advances-of_Keeps : (r s : Runtime) → IsSound r.cursor → Keeps r s → Advances r s
Advances-of_Keeps r s h k = (
  rw k.cursor h,
  record {
    lifecycle = k.lifecycle;
    requests = k.requests;
    cursor = λ e. rw k.cursor (Precedes-refl r.cursor h);
  },
)

pub initial-IsSound : IsSound initial_cursor
initial-IsSound = record { event_id = refl; state_version = refl }

-- A new lifecycle begins with the initial cursor.
pub Advances-of_fresh :
    (r s : Runtime)
    → r.lifecycle_version < s.lifecycle_version
    → r.roster_request_version ≤ s.roster_request_version
    → s.cursor ≡ initial_cursor
    → Advances r s
Advances-of_fresh r s h k e = (
  rw e initial-IsSound,
  record { lifecycle = omega arith; requests = k; cursor = λ same. absurd (omega arith) },
)

pub load_roster_start-Keeps :
    (order : RosterOrder) (append : Bool) (r : Runtime)
    → Keeps r (load_roster_start order append r).0
unfolding load_roster_start
load_roster_start-Keeps order append r = ground arith

pub load_roster_finish-Keeps :
    (t : RosterTicket) (reply : Reply RosterPage) (r : Runtime)
    → Keeps r (load_roster_finish t reply r).0
unfolding load_roster_finish
load_roster_finish-Keeps t reply r = ground arith

pub refresh_start-Keeps : (r : Runtime) → Keeps r (refresh_start r).0
unfolding refresh_start
refresh_start-Keeps r = ground arith

pub refresh_tail-Keeps : (t : RefreshTicket) (r : Runtime) → Keeps r (refresh_tail t r).0
unfolding refresh_tail
refresh_tail-Keeps t r = ground arith

pub run_action_start-Keeps :
    (js : Coercion) (fresh : String) (action : LiveActionName) (slide : Option Value) (r : Runtime)
    → Keeps r (run_action_start js fresh action slide r).0
unfolding run_action_start
run_action_start-Keeps js fresh action slide r = ground arith

pub Keeps-trans : (r s t : Runtime) → Keeps r s → Keeps s t → Keeps r t
Keeps-trans r s t h k = record {
  lifecycle = omega (arith, h.lifecycle, k.lifecycle);
  requests = omega (arith, h.requests, k.requests);
  cursor = k.cursor ∙ h.cursor;
}

pub count_participants-Keeps :
    (delta : Number) (r : Runtime) → Keeps r (count_participants delta r.snapshot_value r)
count_participants-Keeps delta r = ground arith

pub reload_roster-Keeps : (role : LiveClientRole) (r : Runtime) → Keeps r (reload_roster role r).0
reload_roster-Keeps LiveClientRole.manager r = load_roster_start-Keeps _ false r
reload_roster-Keeps LiveClientRole.player r = ground arith

pub dispatch-Keeps :
    (js : Coercion) (e : LiveEvent) (name : EventName) (r : Runtime)
    → Keeps r (dispatch js e name r).0
dispatch-Keeps js e presence_updated r =
    Keeps-trans r _ _ (count_participants-Keeps (participant_delta js e.payload) r)
      (reload_roster-Keeps _ _)
dispatch-Keeps js e activity_result_updated r = ground arith
dispatch-Keeps js e session_created r = refresh_start-Keeps r
dispatch-Keeps js e session_state_changed r = refresh_start-Keeps r
dispatch-Keeps js e ranking_updated r = refresh_start-Keeps r

pub Advances-trans_Keeps : (r s t : Runtime) → Advances r s → Keeps s t → Advances r t
Advances-trans_Keeps r s t (sound, later) k =
    let (sound', later') = Advances-of_Keeps s t sound k in (sound', Later-trans r s t later later')

pub handle_event-Advances :
    (js : Coercion) (e : LiveEvent) (r : Runtime)
    → IsSound r.cursor
    → Advances r (handle_event js e r).0
unfolding handle_event
handle_event-Advances js e r h = elim (Bool-cases (should_apply_live_event r.cursor e)) [
  | inl applied ↦ rw applied (
      Advances-trans_Keeps r (record r { cursor = advance_live_cursor r.cursor e }) _
        (
          advance-IsSound r.cursor e h,
          record {
            lifecycle = le_refl _;
            requests = le_refl _;
            cursor = λ _. advance-Precedes r.cursor e h;
          },
        )
        (dispatch-Keeps js e e.name _))
  | inr ignored ↦ rw ignored (Advances-of_Keeps r r h (ground arith))
]

pub newer-Precedes :
    (c d : LiveCursor)
    → IsSound c
    → IsSound d
    → (lt d.event_id c.event_id || lt d.state_version c.state_version) ≡ false
    → Precedes c d
newer-Precedes c d h k e = record {
  event_id = le_of_not-lt c.event_id d.event_id h.event_id k.event_id (ground arith);
  state_version =
      le_of_not-lt c.state_version d.state_version h.state_version k.state_version (ground arith);
}

pub keep_snapshot-Advances :
    (s : LiveSnapshot) (r : Runtime)
    → Precedes r.cursor (live_cursor_from_snapshot s)
    → Advances r (keep_snapshot s r)
keep_snapshot-Advances s r h =
    Advances-trans_Keeps r
      (record r { snapshot_value = some s; cursor = live_cursor_from_snapshot s })
      (keep_snapshot s r)
      (
        live_cursor_from_snapshot-IsSound s,
        record { lifecycle = le_refl _; requests = le_refl _; cursor = λ _. h },
      )
      (ground arith)

-- A snapshot is stored only if neither of its numbers is below the cursor's.
pub store_snapshot-Advances :
    (s : LiveSnapshot) (r : Runtime) → IsSound r.cursor → Advances r (store_snapshot s r).0
unfolding store_snapshot
store_snapshot-Advances s r h =
    let c = live_cursor_from_snapshot s in
    elim (Bool-cases
      (lt c.event_id r.cursor.event_id || lt c.state_version r.cursor.state_version)) [
        | inl older ↦ rw older (Advances-of_Keeps r r h (ground arith))
        | inr newer ↦ rw newer (
            keep_snapshot-Advances s r
              (newer-Precedes r.cursor c h (live_cursor_from_snapshot-IsSound s) newer))
      ]

pub loop_test-Keeps : (r : Runtime) → Keeps r (loop_test r).0
loop_test-Keeps r = ground arith

pub after_store-Keeps :
    (viewer : Viewer) (s : LiveSnapshot) (r : Runtime) → Keeps r (after_store viewer s r).0
after_store-Keeps (Viewer.manager top) s r = load_roster_start-Keeps (roster_order_for s) false r
after_store-Keeps (participant who answered result) s r =
    Keeps-trans r (clear_roster r) _ (ground arith) (loop_test-Keeps (clear_roster r))

pub stored-Keeps : (s : LiveSnapshot) (r : Runtime) (kept : Bool) → Keeps r (stored s (r, kept)).0
stored-Keeps s r true = after_store-Keeps s.role s r
stored-Keeps s r false =
    Keeps-trans r (record r { refresh_dirty = true }) _ (ground arith) (loop_test-Keeps _)

pub refresh_snapshot-Advances :
    (t : RefreshTicket) (s : LiveSnapshot) (r : Runtime)
    → IsSound r.cursor
    → Advances r (refresh_snapshot t s r).0
unfolding refresh_snapshot
refresh_snapshot-Advances t s r h = elim (Bool-cases (same_session t r)) [
  | inl same ↦ rw same (
      Advances-trans_Keeps r (store_snapshot s r).0 _ (store_snapshot-Advances s r h)
        (stored-Keeps s _ _))
  | inr other ↦ rw other (Advances-of_Keeps r r h (ground arith))
]
