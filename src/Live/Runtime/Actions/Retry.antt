-- ===== src/Live/Runtime/Actions/Retry.antt =====
-- The request ids of `runAction` in apps/web/src/modules/live/runtime/LiveRuntime.ts.
use pro_slides_go.Base.{
  String, ◌≡◌, inl, inr, false, Option, some, List, eq_refl, Option-cases, ap, ◌∙◌, none, arith,
  sym,
}
use pro_slides_go.Js.Value.{Value, Coercion}
use pro_slides_go.Js.TextMap.{lookup, insert, lookup-insert, lookup-delete}
use pro_slides_go.Live.Types.{participant, LiveSnapshot, Viewer, LiveSession}
use pro_slides_go.Live.Protocol.{LiveActionName}
use pro_slides_go.Live.Runtime.State.{Runtime}
use pro_slides_go.Live.Runtime.Roster.{truthy_text}
use pro_slides_go.Live.Runtime.Actions.{
  ActionTicket, ActionRequest, with_id, authorised, action_key, issue, run_action_start,
  run_action_finish, selected,
}
use pro_slides_go.Js.Text.{is_empty}
use mathlib.Core.Path.{subst}

lookup-insert_self : (k v : String) (m : List (String × String)) → lookup k (insert k v m) ≡ some v
lookup-insert_self k v m = simp (lookup-insert, eq_refl)

-- The id that a second call finds.
with_id_again :
    (key fresh fresh' : String) (r : Runtime)
    → is_empty fresh ≡ false
    → let (r', id) = with_id key fresh (truthy_text (lookup key r.pending_action_ids)) r in
      with_id key fresh' (truthy_text (lookup key r'.pending_action_ids)) r' ≡ (r', id)
with_id_again key fresh fresh' r h =
    elim (Option-cases (truthy_text (lookup key r.pending_action_ids))) [
      | inl absent ↦ rw absent (rw (lookup-insert_self key fresh r.pending_action_ids) (rw h))
      | inr (id, found) ↦ rw found (rw found)
    ]

-- `issue` adds the request to the state and the id that `with_id` gives.
authorised_again :
    (js : Coercion) (fresh fresh' : String) (action : LiveActionName) (slide : Option Value)
    (id : String) (current : LiveSnapshot) (viewer : Viewer) (r r' : Runtime)
    (sent : ActionTicket × ActionRequest)
    → is_empty fresh ≡ false
    → authorised js fresh action slide id current viewer r ≡ (r', some sent)
    → authorised js fresh' action slide id current viewer r' ≡ (r', some sent)
authorised_again js fresh fresh' action slide id current (participant who a p) r r' sent h e = cc
authorised_again js fresh fresh' action slide id current (Viewer.manager top) r r' sent h e =
    let key = action_key js id current action slide in
    let given = with_id key fresh (truthy_text (lookup key r.pending_action_ids)) r in
    let state : given.0 ≡ r' = ap (λ x. x.0) e in
    let again : authorised js fresh' action slide id current (Viewer.manager top) given.0
        ≡ issue js id current action slide key given =
      ap (issue js id current action slide key) (with_id_again key fresh fresh' r h) in
    subst
      (λ x. authorised js fresh' action slide id current (Viewer.manager top) x ≡ (r', some sent))
      state (again ∙ e)

selected_again :
    (js : Coercion) (fresh fresh' : String) (action : LiveActionName) (slide : Option Value)
    (id : Option String) (current : Option LiveSnapshot) (r r' : Runtime)
    (sent : ActionTicket × ActionRequest)
    → is_empty fresh ≡ false
    → selected js fresh action slide id current r ≡ (r', some sent)
    → selected js fresh' action slide id current r' ≡ (r', some sent)
selected_again js fresh fresh' action slide (some id) (some current) r r' sent h e =
    authorised_again js fresh fresh' action slide id current current.role r r' sent h e
selected_again js fresh fresh' action slide id current r r' sent h e = cc

same_session_after :
    (js : Coercion) (fresh : String) (action : LiveActionName) (slide : Option Value) (r : Runtime)
    → ((run_action_start js fresh action slide r).0.selected_session_id ≡ r.selected_session_id)
      × ((run_action_start js fresh action slide r).0.snapshot_value ≡ r.snapshot_value)
unfolding run_action_start
same_session_after js fresh action slide r = (ground arith, ground arith)

-- An action that was asked for once and not yet answered, asked for again in the same state of the
-- session, is sent as the same request, with the same id, and changes nothing more; new ids are
-- not empty.
pub run_action_start-again :
    (js : Coercion) (fresh fresh' : String) (action : LiveActionName) (slide : Option Value)
    (r r' : Runtime) (sent : ActionTicket × ActionRequest)
    → is_empty fresh ≡ false
    → run_action_start js fresh action slide r ≡ (r', some sent)
    → run_action_start js fresh' action slide r' ≡ (r', some sent)
unfolding run_action_start
run_action_start-again js fresh fresh' action slide r r' sent h e =
    let (id_kept, snapshot_kept) = same_session_after js fresh action slide r in
    let same_id : r'.selected_session_id ≡ r.selected_session_id =
      sym (ap (λ x. x.0.selected_session_id) e) ∙ id_kept in
    let same_snapshot : r'.snapshot_value ≡ r.snapshot_value =
      sym (ap (λ x. x.0.snapshot_value) e) ∙ snapshot_kept in
    (λ i. selected js fresh' action slide (truthy_text (same_id i)) (same_snapshot i) r')
    ∙ selected_again js fresh fresh' action slide (truthy_text r.selected_session_id)
        r.snapshot_value r r' sent h e

-- After the answer the id is forgotten.
pub run_action_finish-forgets :
    (t : ActionTicket) (session : LiveSession) (r : Runtime)
    → lookup t.key (run_action_finish t session r).pending_action_ids ≡ none
unfolding run_action_finish
run_action_finish-forgets t session r = simp (lookup-delete, eq_refl)
