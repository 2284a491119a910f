-- ===== src/Live/Types.antt =====
-- apps/web/src/modules/live/api/types.ts: sessions, snapshots, events and roster pages as the
-- server sends them. Optional and nullable fields are `Option`; state versions and event ids are
-- JavaScript numbers, since the client tests them for finiteness.
use pro_slides_go.Base.{ℕ, String, Bool, Option, List}
use pro_slides_go.Js.Number.{Number}
use pro_slides_go.Js.Value.{Value}

pub data LiveState : Type 0 where
  draft lobby presenting ended : LiveState

pub data ActivityPhase : Type 0 where
  accepting closed revealed : ActivityPhase

pub data StageView : Type 0 where
  item overall_ranking : StageView

-- `PublicLiveSession`; the fields that `ManagerLiveSession` adds are missing for a participant.
pub record LiveSession : Type 0 where
  pub id : String
  pub presentation_id : String
  pub state : LiveState
  pub state_version : Number
  pub active_item_id : Option String
  pub activity_phase : Option ActivityPhase
  pub stage_view : StageView
  pub ends_at : Option String
  pub remaining_seconds : Option Number
  pub host_id : Option String
  pub join_code : Option String

pub record ParticipantWithScore : Type 0 where
  pub id : String
  pub display_name : String
  pub avatar : Option String
  pub score : Number
  pub rank : Option Number

pub record WordFrequencyTerm : Type 0 where
  pub text : String
  pub count : Number

pub data ResultPayload : Type 0 where
  option_counts : List (String × Number) → ResultPayload
  terms : List WordFrequencyTerm → ResultPayload

pub data ActivityKind : Type 0 where
  choice text : ActivityKind

pub record ActivityResult : Type 0 where
  pub activity_item_id : String
  pub activity_kind : ActivityKind
  pub schema_version : Number
  pub response_count : Number
  pub payload : ResultPayload

pub record ActivityTopPerformer : Type 0 where
  pub participant_id : String
  pub display_name : String
  pub avatar : Option String
  pub score_delta : Number
  pub rank : Number

-- The part of a snapshot that depends on its `role`.
pub data Viewer : Type 0 where
  participant :
      ParticipantWithScore → (has_responded : Bool) → (personal_activity_result : Value) → Viewer
  manager : (activity_top_performers : List ActivityTopPerformer) → Viewer

-- `ParticipantSnapshot | ManagerSnapshot`.
pub record LiveSnapshot : Type 0 where
  pub role : Viewer
  pub session : LiveSession
  pub active_item : Value
  pub participant_count : Number
  pub has_scoring : Bool
  pub last_event_id : Number
  pub activity_result : Option ActivityResult

pub data EventName : Type 0 where
  session_created presence_updated session_state_changed : EventName
  activity_result_updated ranking_updated : EventName

pub record LiveEvent : Type 0 where
  pub event_id : Number
  pub schema_version : ℕ
  pub session_id : String
  pub state_version : Number
  pub name : EventName
  pub payload : Value
  pub occurred_at : String

pub record RosterEntry : Type 0 where
  pub participant_id : String
  pub display_name : String
  pub avatar : Option String
  pub score : Number
  pub rank : Option Number
  pub joined_at : String

pub data RosterOrder : Type 0 where
  joined score : RosterOrder

pub record RosterPage : Type 0 where
  pub items : List RosterEntry
  pub order : RosterOrder
  pub limit : ℕ
  pub has_more : Bool
  pub next_cursor : Option String

pub record ParticipantResult : Type 0 where
  pub id : String
  pub display_name : String
  pub avatar : Option String
