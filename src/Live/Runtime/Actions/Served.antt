-- ===== src/Live/Runtime/Actions/Served.antt =====
-- The presenter's commands against a server that follows apps/api/internal/live: what the client
-- plans from its snapshot is what the server then does.
use pro_slides_go.Base.{
  if◌then◌else◌, String, ◌≡◌, false, Option, none, some, List, refl, ap, ◌≢◌, arith, ℕ, true, ◌∙◌,
}
use pro_slides_go.Js.Number.{int, num_eq}
use pro_slides_go.Js.Value.{Value, Coercion, str}
use pro_slides_go.Js.TextMap.{lookup}
use pro_slides_go.Live.Types.{LiveSession, ActivityTopPerformer, Viewer, LiveSnapshot}
use pro_slides_go.Live.Protocol.{
  LiveActionName, present_item, close_activity, reveal_activity, show_overall_ranking,
}
use pro_slides_go.Live.Server.{Stored, Target, apply_action, SlideKind}
use pro_slides_go.Live.Runtime.State.{Runtime}
use pro_slides_go.Live.Runtime.Roster.{Reply, ok, failed, truthy_text}
use pro_slides_go.Live.Runtime.Actions.{
  ActionRequest, run_action_start, slide_for, item_text, action_key, item_of, request_of, with_id,
  issue, run_action_finish,
}
use pro_slides_go.Js.Text.{is_empty}

-- What the server answers with its row: `base` has the columns that no action changes. The seconds
-- that remain are no column and are not sent with the answer to an action.
abbrev pub session_of : LiveSession → Stored → LiveSession
session_of base s = record base {
  state = s.state;
  state_version = int s.state_version;
  active_item_id = s.active_item_id;
  activity_phase = s.activity_phase;
  stage_view = s.stage_view;
  ends_at = s.ends_at;
  remaining_seconds = none;
}

-- The session's slides, by a lookup.
abbrev pub target_of : (String → SlideKind) → Option String → Option Target
target_of kinds none = none
target_of kinds (some id) = some (record { item_id = id; kind = kinds id })

abbrev pub answer : LiveSession → Stored → Option Stored → Stored × Reply LiveSession
answer base s none = (s, failed "invalid_live_action")
answer base s (some s') = (s', ok (session_of base s'))

-- An action at another state version is refused as a conflict.
unfoldable pub serve :
    LiveSession → (String → SlideKind) → ActionRequest → Stored → Stored × Reply LiveSession
serve base kinds q s =
    if num_eq q.expected_state_version (int s.state_version)
    then answer base s (apply_action (target_of kinds q.item_id) q.action s)
    else (s, failed "state_version_conflict")

-- The client is a manager's, with a session selected and the server's row in its snapshot, which
-- may also have the seconds that remained.
pub record InSync (base : LiveSession) (s : Stored) (r : Runtime) : Type 0 where
  pub id : String
  pub selected : r.selected_session_id ≡ some id
  pub named : is_empty id ≡ false
  pub snapshot : LiveSnapshot
  pub held : r.snapshot_value ≡ some snapshot
  pub top : List ActivityTopPerformer
  pub manager : snapshot.role ≡ Viewer.manager top
  pub synced : record snapshot.session { remaining_seconds = none } ≡ session_of base s

-- The slide that the client names, by an id that is not empty, is the server's target.
abbrev pub Names : (String → SlideKind) → Option Value → Option Target → Type 0
Names kinds none none = Unit
Names kinds (some (str id)) (some t) =
    (id ≡ t.item_id) × (is_empty id ≡ false) × (kinds id ≡ t.kind)
Names kinds slide target = ⊥

num_eq-int : (n : ℕ) → num_eq (int n) (int n) ≡ true
num_eq-int n = ground arith

-- Only `present_item` looks at the target.
apply_action_of_no_target :
    (target : Option Target) (action : LiveActionName) (s : Stored)
    → action ≢ present_item
    → apply_action none action s ≡ apply_action target action s
unfolding apply_action
apply_action_of_no_target target action s h = ground arith

module _ (js : Coercion) (kinds : String → SlideKind) where
  -- The item that the client sends is the server's target.
  target_of_item :
      (slide : Option Value) (target : Option Target)
      → Names kinds slide target
      → target_of kinds (item_of present_item (item_text js slide)) ≡ target
  target_of_item none none h = refl
  target_of_item (some (str id)) (some t) h = rw h.1 (rw h.2 (ground arith))
  target_of_item slide target h = absurd h

  apply_action_of_item :
      (action : LiveActionName) (slide : Option Value) (target : Option Target) (s : Stored)
      → Names kinds slide target
      → apply_action
          (target_of kinds (item_of action (item_text js (slide_for action slide))))
          action
          s
        ≡ apply_action target action s
  apply_action_of_item present_item slide target s h =
      ap (λ t. apply_action t present_item s) (target_of_item slide target h)
  apply_action_of_item LiveActionName.start slide target s h =
      apply_action_of_no_target target LiveActionName.start s (cc)
  apply_action_of_item close_activity slide target s h =
      apply_action_of_no_target target close_activity s (cc)
  apply_action_of_item reveal_activity slide target s h =
      apply_action_of_no_target target reveal_activity s (cc)
  apply_action_of_item show_overall_ranking slide target s h =
      apply_action_of_no_target target show_overall_ranking s (cc)
  apply_action_of_item LiveActionName.end slide target s h =
      apply_action_of_no_target target LiveActionName.end s (cc)

module _ (js : Coercion) (base : LiveSession) (kinds : String → SlideKind) where
  abbrev pub sent_id :
      String → LiveActionName → Option Value → Runtime → String → LiveSnapshot → Runtime × String
  sent_id fresh action slide r id current =
      let key = action_key js id current action (slide_for action slide) in
      with_id key fresh (truthy_text (lookup key r.pending_action_ids)) r

  pub start_eq :
      (fresh : String) (action : LiveActionName) (slide : Option Value) (s : Stored) (r : Runtime)
      (sync : InSync base s r)
      → run_action_start js fresh action (slide_for action slide) r
        ≡ issue js sync.id sync.snapshot action
            (slide_for action slide)
            (action_key js sync.id sync.snapshot action (slide_for action slide))
            (sent_id fresh action slide r sync.id sync.snapshot)
  unfolding run_action_start
  start_eq fresh action slide s r sync = simp (sync.selected, sync.named, sync.held, sync.manager)

  pub serve_eq :
      (action : LiveActionName) (slide : Option Value) (target : Option Target) (s : Stored)
      (r : Runtime) (request_id : String)
      → Names kinds slide target
      → (sync : InSync base s r)
      → serve base kinds
          (request_of js sync.id request_id sync.snapshot action (slide_for action slide))
          s
        ≡ answer base s (apply_action target action s)
  unfolding serve
  serve_eq action slide target s r request_id names sync =
      rw (ap (λ x. x.state_version) sync.synced) (
        rw (num_eq-int s.state_version)
          (ap (answer base s) (apply_action_of_item js kinds action slide target s names)))

  pub finish_in_sync :
      (key : String) (s s' : Stored) (r r' : Runtime) (sync : InSync base s r)
      → r'.selected_session_id ≡ r.selected_session_id
      → InSync base s' (
          run_action_finish (record { key = key; current = sync.snapshot }) (session_of base s') r')
  unfolding run_action_finish
  finish_in_sync key s s' r r' sync same = record {
    id = sync.id;
    selected = ground (arith, same ∙ sync.selected);
    named = sync.named;
    snapshot = record (sync.snapshot) { session = session_of base s' };
    held = ground arith;
    top = sync.top;
    manager = sync.manager;
    synced = refl;
  }

  pub with_id-session :
      (key fresh : String) (id : Option String) (r : Runtime)
      → (with_id key fresh id r).0.selected_session_id ≡ r.selected_session_id
  with_id-session key fresh none r = refl
  with_id-session key fresh (some id) r = refl
