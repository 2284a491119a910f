-- ===== src/Live/Runtime/Steps/Stale.antt =====
-- What continues a method of apps/web/src/modules/live/runtime/LiveRuntime.ts after a newer roster
-- request, or after the session was left.
use pro_slides_go.Base.{
  ◌<◌, String, ◌≡◌, refl, Bool, Option, arith, inl, inr, false, true, some, ◌+◌, ◌≢◌, ◌⊎◌, ap, none,
  eq_iff,
}
use pro_slides_go.Live.Protocol.Cursor.{IsSound}
use pro_slides_go.Live.Runtime.State.{Runtime, same_text, select_session, disconnect}
use pro_slides_go.Live.Runtime.Roster.{Reply, RosterTicket, load_roster_start, load_roster_finish}
use pro_slides_go.Live.Types.{LiveSnapshot, RosterOrder, RosterPage}
use pro_slides_go.Js.Value.{Coercion}
use pro_slides_go.Live.Runtime.Refresh.{
  RefreshTicket, refresh_start, refresh_tail, refresh_snapshot, started, changed,
}
use pro_slides_go.Live.Runtime.Steps.{Reach, Step}
use pro_slides_go.Live.Runtime.Steps.Forward.{Step-Advances, Reach-Advances}

started_version :
    (order : RosterOrder) (append : Bool) (r : Runtime) (t : RosterTicket)
    → (load_roster_start order append r).1 ≡ some t
    → (t.request_version ≡ r.roster_request_version + 1)
      × ((load_roster_start order append r).0.roster_request_version ≡ r.roster_request_version + 1)
unfolding load_roster_start
started_version order append r t e = ground arith

finish_of_old :
    (t : RosterTicket) (reply : Reply RosterPage) (r : Runtime)
    → t.request_version < r.roster_request_version
    → load_roster_finish t reply r ≡ (r, false)
unfolding load_roster_finish
finish_of_old t reply r h = ground arith

-- Of two roster requests of a run, the answer to the earlier one, whatever it is and whenever it
-- comes after the later request was made, changes nothing and reports false.
pub roster_newest_wins :
    (js : Coercion) (order order' : RosterOrder) (append append' : Bool) (r s u : Runtime)
    (t t' : RosterTicket) (reply : Reply RosterPage)
    → IsSound r.cursor
    → (load_roster_start order append r).1 ≡ some t
    → Reach js (load_roster_start order append r).0 s
    → (load_roster_start order' append' s).1 ≡ some t'
    → Reach js (load_roster_start order' append' s).0 u
    → load_roster_finish t reply u ≡ (u, false)
roster_newest_wins js order order' append append' r s u t t' reply h asked run asked' run' =
    let first = Step-Advances js (Step.roster_asked order append r) h in
    let middle = Reach-Advances js first.0 run in
    let second = Step-Advances js (Step.roster_asked order' append' s) middle.0 in
    let last = Reach-Advances js second.0 run' in
    let (one, one') = started_version order append r t asked in
    let (two, two') = started_version order' append' s t' asked' in
    finish_of_old t reply u (omega (arith, one, one', two', middle.1.requests, last.1.requests))

snapshot_of_old :
    (t : RefreshTicket) (received : LiveSnapshot) (r : Runtime)
    → t.lifecycle_version < r.lifecycle_version
    → (refresh_snapshot t received r ≡ (r, changed)) × (refresh_tail t r ≡ (r, changed))
unfolding refresh_snapshot refresh_tail
snapshot_of_old t received r h = (ground arith, ground arith)

refresh_version :
    (r : Runtime) (t : RefreshTicket)
    → (refresh_start r).1 ≡ started t
    → t.lifecycle_version ≡ r.lifecycle_version
unfolding refresh_start
refresh_version r t e = ground arith

same_text_sound : (a : Option String) (s : String) → same_text a (some s) ≡ true → a ≡ some s
same_text_sound none s h = cc
same_text_sound (some t) s h = ap some ((eq_iff t s).0 h)

-- The lifecycle after the session was changed, by a selection or by a disconnection.
select_session-version :
    (id : String) (s : Runtime)
    → s.selected_session_id ≢ some id
    → (select_session id s).lifecycle_version ≡ s.lifecycle_version + 1
unfolding select_session
select_session-version id s h = ground (arith, same_text_sound s.selected_session_id id)

disconnect-version : (s : Runtime) → (disconnect s).lifecycle_version ≡ s.lifecycle_version + 1
unfolding disconnect
disconnect-version s = refl

-- The runtime right after the session was left.
abbrev pub IsLeft : Runtime → Runtime → Type 0
IsLeft s s' =
    ((id : String) × (s.selected_session_id ≢ some id) × (s' ≡ select_session id s))
    ⊎ (s' ≡ disconnect s)

left_version : (s s' : Runtime) → IsLeft s s' → s'.lifecycle_version ≡ s.lifecycle_version + 1
left_version s s' (inl (id, other, e)) = rw e (select_session-version id s other)
left_version s s' (inr e) = rw e (disconnect-version s)

left_step : (js : Coercion) (s s' : Runtime) → IsLeft s s' → Step js s s'
left_step js s s' (inl (id, other, e)) = rw e (Step.session_selected id s)
left_step js s s' (inr e) = rw e (Step.disconnected s)

-- Once another session was selected, or the runtime was disconnected, a refresh that was started
-- before stops: the snapshot that it gets is not stored, and after either of its waits it changes
-- nothing.
pub refresh_stops :
    (js : Coercion) (r s s' u : Runtime) (t : RefreshTicket) (received : LiveSnapshot)
    → IsSound r.cursor
    → (refresh_start r).1 ≡ started t
    → Reach js (refresh_start r).0 s
    → IsLeft s s'
    → Reach js s' u
    → (refresh_snapshot t received u ≡ (u, changed)) × (refresh_tail t u ≡ (u, changed))
refresh_stops js r s s' u t received h asked run left run' =
    let first = Step-Advances js (Step.refresh_asked r) h in
    let middle = Reach-Advances js first.0 run in
    let second = Step-Advances js (left_step js s s' left) middle.0 in
    let last = Reach-Advances js second.0 run' in
    snapshot_of_old t received u (
      omega (
        arith,
        refresh_version r t asked,
        first.1.lifecycle,
        middle.1.lifecycle,
        left_version s s' left,
        last.1.lifecycle,
      ))
