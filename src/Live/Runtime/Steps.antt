-- ===== src/Live/Runtime/Steps.antt =====
-- Every stretch of the runtime's methods as a step, in any order. A step that continues a method
-- may carry any ticket and any answer, so that what holds of all runs holds however the server
-- answers and however the waits overlap.
pub mod Mirror
pub mod Keeps
pub mod Forward
pub mod Stale
use pro_slides_go.Base.{String, Bool, Option}
use pro_slides_go.Js.Value.{Value, Coercion}
use pro_slides_go.Live.Types.{LiveEvent, LiveSnapshot, LiveSession, RosterOrder, RosterPage}
use pro_slides_go.Live.Protocol.{LiveActionName}
use pro_slides_go.Live.Runtime.State.{Runtime, select_session, disconnect, destroy}
use pro_slides_go.Live.Runtime.Roster.{RosterTicket, Reply, load_roster_start, load_roster_finish}
use pro_slides_go.Live.Runtime.Refresh.{
  RefreshTicket, refresh_start, refresh_snapshot, refresh_tail, refresh_settle,
}
use pro_slides_go.Live.Runtime.Events.{handle_event, refresh_rejected}
use pro_slides_go.Live.Runtime.Actions.{ActionTicket, run_action_start, run_action_finish}

pub data Step (js : Coercion) : Runtime → Runtime → Type 0 where
  event : (e : LiveEvent) (r : Runtime) → Step js r (handle_event js e r).0
  roster_asked :
      (order : RosterOrder) (append : Bool) (r : Runtime)
      → Step js r (load_roster_start order append r).0
  roster_answered :
      (t : RosterTicket) (reply : Reply RosterPage) (r : Runtime)
      → Step js r (load_roster_finish t reply r).0
  refresh_asked : (r : Runtime) → Step js r (refresh_start r).0
  refresh_answered :
      (t : RefreshTicket) (s : LiveSnapshot) (r : Runtime) → Step js r (refresh_snapshot t s r).0
  refresh_resumed : (t : RefreshTicket) (r : Runtime) → Step js r (refresh_tail t r).0
  refresh_ended : (t : RefreshTicket) (r : Runtime) → Step js r (refresh_settle t r)
  refresh_failed : (message : String) (r : Runtime) → Step js r (refresh_rejected message r)
  session_selected : (id : String) (r : Runtime) → Step js r (select_session id r)
  action_asked :
      (fresh : String) (action : LiveActionName) (slide : Option Value) (r : Runtime)
      → Step js r (run_action_start js fresh action slide r).0
  action_answered :
      (t : ActionTicket) (session : LiveSession) (r : Runtime)
      → Step js r (run_action_finish t session r)
  disconnected : (r : Runtime) → Step js r (disconnect r)
  destroyed : (r : Runtime) → Step js r (destroy r)

pub data Reach (js : Coercion) (r : Runtime) : Runtime → Type 0 where
  here : Reach js r r
  then : {s t : Runtime} → Reach js r s → Step js s t → Reach js r t
