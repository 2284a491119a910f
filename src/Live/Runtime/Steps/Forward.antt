-- ===== src/Live/Runtime/Steps/Forward.antt =====
-- The versions and the cursor of apps/web/src/modules/live/runtime/LiveRuntime.ts along a run.
use pro_slides_go.Base.{String, refl, arith, inl, inr, Bool-cases, some}
use pro_slides_go.Live.Protocol.Cursor.{IsSound}
use pro_slides_go.Live.Runtime.State.{
  Runtime, LiveClientRole, same_text, select_session, disconnect, destroy, new_runtime,
}
use pro_slides_go.Live.Runtime.Events.{refresh_rejected}
use pro_slides_go.Js.Value.{Coercion}
use pro_slides_go.Live.Runtime.Refresh.{refresh_settle}
use pro_slides_go.Live.Runtime.Actions.{run_action_finish}
use pro_slides_go.Live.Runtime.Steps.{Reach, Step}
use pro_slides_go.Live.Runtime.Steps.Keeps.{
  Later, Later-trans, Advances, Advances-of_Keeps, initial-IsSound, Advances-of_fresh,
  load_roster_start-Keeps, load_roster_finish-Keeps, refresh_start-Keeps, refresh_tail-Keeps,
  run_action_start-Keeps, handle_event-Advances, refresh_snapshot-Advances,
}

select_session-Advances :
    (id : String) (r : Runtime) → IsSound r.cursor → Advances r (select_session id r)
unfolding select_session
select_session-Advances id r h = elim (Bool-cases (same_text r.selected_session_id (some id))) [
  | inl same ↦ rw same (Advances-of_Keeps r r h (ground arith))
  | inr other ↦ rw other (Advances-of_fresh r _ (ground arith) (ground arith) (ground arith))
]

pub Step-Advances : (js : Coercion) {r s : Runtime} → Step js r s → IsSound r.cursor → Advances r s
unfolding refresh_settle refresh_rejected run_action_finish disconnect destroy
Step-Advances js (Step.event e r) h = handle_event-Advances js e r h
Step-Advances js (Step.roster_asked order append r) h =
    Advances-of_Keeps r _ h (load_roster_start-Keeps order append r)
Step-Advances js (Step.roster_answered t reply r) h =
    Advances-of_Keeps r _ h (load_roster_finish-Keeps t reply r)
Step-Advances js (Step.refresh_asked r) h = Advances-of_Keeps r _ h (refresh_start-Keeps r)
Step-Advances js (Step.refresh_answered t s r) h = refresh_snapshot-Advances t s r h
Step-Advances js (Step.refresh_resumed t r) h = Advances-of_Keeps r _ h (refresh_tail-Keeps t r)
Step-Advances js (Step.refresh_ended t r) h = Advances-of_Keeps r _ h (ground arith)
Step-Advances js (Step.refresh_failed message r) h = Advances-of_Keeps r _ h (ground arith)
Step-Advances js (Step.session_selected id r) h = select_session-Advances id r h
Step-Advances js (Step.action_asked fresh action slide r) h =
    Advances-of_Keeps r _ h (run_action_start-Keeps js fresh action slide r)
Step-Advances js (Step.action_answered t session r) h = Advances-of_Keeps r _ h (ground arith)
Step-Advances js (Step.disconnected r) h = Advances-of_fresh r _ (ground arith) (ground arith) refl
Step-Advances js (Step.destroyed r) h = elim (Bool-cases r.destroyed) [
  | inl gone ↦ simp gone (Advances-of_Keeps r r h (ground arith))
  | inr alive ↦ simp alive (Advances-of_fresh r _ (ground arith) (ground arith) refl)
]

pub Reach-Advances :
    (js : Coercion) {r s : Runtime} → IsSound r.cursor → Reach js r s → Advances r s
Reach-Advances js {r} h Reach.here = Advances-of_Keeps r r h (ground arith)
Reach-Advances js {r} h (Reach.then {s} {t} run step) =
    let (sound, later) = Reach-Advances js h run in
    let (sound', later') = Step-Advances js step sound in (sound', Later-trans r s t later later')

-- In every run of a new runtime the cursor holds finite numbers; from then on no step lowers the
-- lifecycle or the roster request version, and within one lifecycle none moves the cursor back.
pub run-Advances :
    (js : Coercion) (role : LiveClientRole) (r s : Runtime)
    → Reach js (new_runtime role) r
    → Reach js r s
    → IsSound r.cursor × Later r s
run-Advances js role r s before after =
    let (sound, _) = Reach-Advances js initial-IsSound before in
    (sound, (Reach-Advances js sound after).1)
