-- ===== src/Live/Participant/Controller.antt =====
-- `useParticipantAnswerController` of
-- apps/web/src/modules/live/participant/useParticipantAnswerController.ts: its references and
-- state in one record, and a function for each effect and each handler, which runs after a
-- rendering and so sees the state as it is. A handler that sends stops at its request. The
-- messages that are shown are left out, and so is the schedule of the animation frames.
pub mod Kept
pub mod Settled
pub mod Recovered
use pro_slides_go.Live.Participant.Storage.{
  selected_indexes, Storage, ParticipantAnswerDraft, written, room_text, clear_pending_answer,
  clear_answer_draft, Json, read_pending_answer, save_pending_answer, read_answer_draft,
  save_answer_draft,
}
use Prim.Native.String.{◌++◌ as join}
use pro_slides_go.Base.{
  ℕ, ◌/◌, String, Bool, true, false, not, ◌&&◌, ◌||◌, Option, none, some, List, [], str_eq,
  if◌then◌else◌, map, is_just, pos, ◌∷◌, value_or, is_some,
}
use pro_slides_go.Js.Number.{Number, int, milli, lt, le, num_max, num_sub}
use pro_slides_go.Js.Value.{Value, Coercion}
use pro_slides_go.Live.Types.{LiveSnapshot, Viewer, participant, manager, draft}
use pro_slides_go.Live.Runtime.Answer.{LiveAnswerInput, SubmitOutcome, accepted, unsent}
use pro_slides_go.Live.Participant.Attempt.{
  ParticipantSubmitState, idle, sending, retryable, sent, expired, question_run_identity,
  is_multiple_choice_question, toggle_participant_option, build_participant_answer,
}
use pro_slides_go.Live.Projection.Views.{LegacyQuestionSlide}
use pro_slides_go.Live.Runtime.Roster.{truthy_text}

pub record PendingAttempt : Type 0 where
  pub identity : String
  pub answer : LiveAnswerInput

-- A question of the pages has an id, so the identity of its run is never null.
pub record Controller : Type 0 where
  pub room : Value
  pub question : LegacyQuestionSlide
  pub identity : String
  pub pending : Option PendingAttempt
  pub in_flight : Option String
  pub restored_pending : Bool
  pub was_connected : Bool
  pub total_seconds : Number
  pub remaining : Number
  pub time_left : Number
  pub initialized_scope : Option String
  pub selected_indexes : List ℕ
  pub submit_state : ParticipantSubmitState
  pub storage : Storage

-- The index of an option, for a number that is a counter.
abbrev index_of : Number → ℕ
index_of (milli (pos m)) = m / 1000
index_of x = 0

abbrev restored_selection : Option ParticipantAnswerDraft → List ℕ
restored_selection none = []
restored_selection (some (selected_indexes indexes)) = map index_of indexes
restored_selection (some (written s)) = []

abbrev pub attempt_of : String → Option LiveAnswerInput → Option PendingAttempt
attempt_of id none = none
attempt_of id (some a) = some (record { identity = id; answer = a })

abbrev pub restored_state : Option LiveAnswerInput → ParticipantSubmitState
restored_state none = idle
restored_state (some a) = retryable

abbrev pub is_locked : ParticipantSubmitState → Bool
is_locked idle = false
is_locked retryable = false
is_locked state = true

abbrev pub is_empty_selection : List ℕ → Bool
is_empty_selection [] = true
is_empty_selection (index ∷ indexes) = false

-- What the snapshot says of the participant: whether the active item is answered.
abbrev responded : Viewer → Bool
responded (manager top) = false
responded (participant who has_responded result) = has_responded

abbrev is_participant : Viewer → Bool
is_participant (manager top) = false
is_participant (participant who has_responded result) = true

abbrev is_active : Option String → String → Bool
is_active none id = str_eq "" id
is_active (some active) id = str_eq active id

abbrev pub already_submitted : Option LiveSnapshot → String → Bool
already_submitted none id = false
already_submitted (some s) id = responded s.role && is_active s.session.active_item_id id

abbrev pub is_awaited : Option LiveSnapshot → String → Bool
is_awaited none id = false
is_awaited (some s) id =
    (is_participant s.role && not (responded s.role)) && is_active s.session.active_item_id id

-- What a send remembers across its request.
pub record SendTicket : Type 0 where
  pub attempt : PendingAttempt
  pub key : String

abbrev pub attempt_key : PendingAttempt → String
attempt_key a = elim (truthy_text a.answer.request_id) [ none ↦ a.identity | some id ↦ id ]

module _ (js : Coercion) where
  abbrev pub timer_scope : Controller → String
  timer_scope c = join (room_text js c.room) (join ":" c.identity)

  -- `clearPendingAnswer` and `clearAnswerDraft`, of the answer of this identity.
  abbrev pub forget : String → Controller → Controller
  forget id c = record c {
    storage = clear_answer_draft js c.room id (clear_pending_answer js c.room id c.storage);
  }

  -- The answer is settled: nothing of it is kept.
  abbrev pub settled : ParticipantSubmitState → String → Controller → Controller
  settled state id c = record (forget id c) { pending = none; submit_state = state }

  unfoldable pub note_snapshot : Option LiveSnapshot → Controller → Controller
  note_snapshot snapshot c =
      if already_submitted snapshot c.question.question_id
      then record (settled sent c.identity c) { restored_pending = false; in_flight = none }
      else c

  -- One frame of the countdown: `elapsed` is in seconds.
  unfoldable pub tick : Number → Controller → Controller
  tick elapsed c =
      let left = num_max (int 0) (num_sub c.total_seconds elapsed) in
      record c { remaining = left; time_left = left }

  unfoldable pub expire : Controller → Controller
  expire c =
      if not (is_just (timer_scope c) c.initialized_scope) || lt (int 0) c.time_left
      then c
      else (if is_locked c.submit_state then c else settled expired c.identity c)

  abbrev pub begin_sending :
      PendingAttempt → Controller → Option String → Controller × Option SendTicket
  begin_sending attempt c (some key) = (c, none)
  begin_sending attempt c none = (
    record c {
      restored_pending = false;
      in_flight = some (attempt_key attempt);
      submit_state = sending;
    },
    some (record { attempt = attempt; key = attempt_key attempt }),
  )

  -- `sendAttempt` up to its request; no ticket means that it returned.
  unfoldable pub send_attempt_start : PendingAttempt → Controller → Controller × Option SendTicket
  send_attempt_start attempt c =
      if not (str_eq attempt.identity c.identity) || le c.remaining (int 0)
      then (settled expired attempt.identity c, none)
      else begin_sending attempt c c.in_flight

  abbrev pub release : String → Controller → Controller
  release key c = if is_just key c.in_flight then record c { in_flight = none } else c

  abbrev pub with_outcome : SendTicket → SubmitOutcome → Controller → Controller
  with_outcome t accepted c = settled sent t.attempt.identity c
  with_outcome t SubmitOutcome.rejected c =
      settled ParticipantSubmitState.rejected t.attempt.identity c
  with_outcome t unsent c = record c { pending = some t.attempt; submit_state = retryable }

  -- From the answer to the return, with the `finally` block.
  unfoldable pub send_attempt_finish : SendTicket → SubmitOutcome → Controller → Controller
  send_attempt_finish t outcome c =
      if str_eq c.identity t.attempt.identity
      then with_outcome t outcome (release t.key c)
      else release t.key c

  abbrev pub send_pending : Option PendingAttempt → Controller → Controller × Option SendTicket
  send_pending none c = (c, none)
  send_pending (some attempt) c = send_attempt_start attempt c

  unfoldable pub retry : Controller → Controller × Option SendTicket
  unfolding send_attempt_start
  retry c = send_pending c.pending c

  abbrev pub resumed : Option PendingAttempt → Controller → Controller × Option SendTicket
  resumed none c = (c, none)
  resumed (some attempt) c =
      if not (str_eq attempt.identity c.identity) || le c.remaining (int 0)
      then (c, none)
      else send_attempt_start attempt (record c { restored_pending = false })

  abbrev pub is_retryable : ParticipantSubmitState → Bool
  is_retryable retryable = true
  is_retryable state = false

  -- After a reconnection, or for an answer that was restored, the pending answer is sent again.
  unfoldable pub resume : Bool → Option LiveSnapshot → Controller → Controller × Option SendTicket
  unfolding send_attempt_start
  resume connected snapshot c =
      let awaited = is_awaited snapshot c.question.question_id in
      let reconnected = not c.was_connected && connected in
      let restored = c.restored_pending && (connected && awaited) in
      let c' = record c { was_connected = connected } in
      if (reconnected || restored) && (is_retryable c.submit_state && awaited)
      then resumed c.pending c'
      else (c', none)

-- `useRef` and `useState` before the first effect.
abbrev pub new_controller : Value → LegacyQuestionSlide → Storage → Bool → Controller
new_controller room q storage connected = record {
  room = room;
  question = q;
  identity = "";
  pending = none;
  in_flight = none;
  restored_pending = false;
  was_connected = connected;
  total_seconds = int 0;
  remaining = int 0;
  time_left = int 0;
  initialized_scope = none;
  selected_indexes = [];
  submit_state = idle;
  storage = storage;
}

module _ (js : Coercion) (json : Json) where
  -- A rendering with another question, and the effect that starts it: `total` and `left` are what
  -- `resolveQuestionTimer` gives.
  unfoldable pub start_question : LegacyQuestionSlide → Number → Number → Controller → Controller
  start_question q total left c =
      let id = value_or (question_run_identity js (some q)) "" in
      let draft = read_answer_draft js json c.room id c.storage in
      let answer = read_pending_answer js json c.room id c.storage in
      record c {
        question = q;
        identity = id;
        total_seconds = total;
        remaining = left;
        time_left = left;
        selected_indexes = restored_selection draft;
        pending = attempt_of id answer;
        restored_pending = is_some answer;
        submit_state = restored_state answer;
        in_flight = none;
        initialized_scope = some (join (room_text js c.room) (join ":" id));
      }

  abbrev pub submitted : Option LiveAnswerInput → Controller → Controller × Option SendTicket
  submitted none c = (c, none)
  submitted (some answer) c =
      let attempt : PendingAttempt = record { identity = c.identity; answer = answer } in
      send_attempt_start js attempt (record c {
        pending = some attempt;
        storage = save_pending_answer js json c.room c.identity answer c.storage;
      })

  unfoldable pub submit : (fresh : String) → Controller → Controller × Option SendTicket
  unfolding send_attempt_start save_pending_answer build_participant_answer
  submit fresh c =
      if is_empty_selection c.selected_indexes
        || (le c.remaining (int 0) || is_locked c.submit_state)
      then (c, none)
      else submitted (build_participant_answer js c.question c.selected_indexes fresh) c

  abbrev pub keep_draft : List ℕ → Controller → Controller
  keep_draft [] c = record c { storage = clear_answer_draft js c.room c.identity c.storage }
  keep_draft (index ∷ indexes) c = record c {
    storage =
        save_answer_draft js json c.room c.identity
          (ParticipantAnswerDraft.selected_indexes (map int (index ∷ indexes))) c.storage;
  }

  -- A changed selection is another answer: the pending one is dropped.
  abbrev pub drop_pending : ParticipantSubmitState → Controller → Controller
  drop_pending retryable c = record c {
    pending = none;
    restored_pending = false;
    storage = clear_pending_answer js c.room c.identity c.storage;
    submit_state = idle;
  }
  drop_pending state c = c

  unfoldable pub toggle_option : ℕ → Controller → Controller
  unfolding toggle_participant_option
  toggle_option index c =
      let next =
        toggle_participant_option c.selected_indexes index
          (is_multiple_choice_question c.question) in
      if is_locked c.submit_state || le c.remaining (int 0)
      then c
      else drop_pending c.submit_state (keep_draft next (record c { selected_indexes = next }))
