-- ===== src/Live/Participant/Controller/Recovered.antt =====
-- An answer whose sending failed, after a reload of the page, for
-- apps/web/src/modules/live/participant/useParticipantAnswerController.ts.
use pro_slides_go.Live.Participant.Storage.Laws.{Keeps, IsStorable, read_pending_answer-save}
use pro_slides_go.Base.{
  ℕ, String, false, ◌≡◌, refl, none, some, List, [], ◌∷◌, arith, eq_refl, ap, ◌∙◌, Bool, Option,
  sym,
}
use pro_slides_go.Js.Number.{int, le, Number}
use pro_slides_go.Js.Value.{Coercion}
use pro_slides_go.Live.Participant.Attempt.{
  sending, question_run_identity, build_participant_answer,
}
use pro_slides_go.Live.Participant.Controller.{
  submit, PendingAttempt, Controller, is_locked, is_empty_selection, SendTicket, attempt_key,
  send_attempt_start, send_attempt_finish, retry, new_controller, start_question, send_pending,
}
use pro_slides_go.Live.Participant.Storage.{
  Json, save_pending_answer, room_text, storage_key, pending_payload, read_pending_answer,
}
use pro_slides_go.Live.Projection.Views.{LegacyQuestionSlide}
use pro_slides_go.Live.Runtime.Answer.{LiveAnswerInput, unsent}

-- A participant about to submit: options are selected, time is left and nothing is under way.
pub record IsAnswering (js : Coercion) (c : Controller) : Type 0 where
  pub run : question_run_identity js (some c.question) ≡ some c.identity
  pub calm : c.in_flight ≡ none
  pub in_time : le c.remaining (int 0) ≡ false
  pub unlocked : is_locked c.submit_state ≡ false

abbrev ticket_of : String → LiveAnswerInput → SendTicket
ticket_of id a = record {
  attempt = record { identity = id; answer = a };
  key = attempt_key (record { identity = id; answer = a });
}

module _ (js : Coercion) (json : Json) where
  selected_of :
      (q : LegacyQuestionSlide) (s : List ℕ) (fresh : String) (a : LiveAnswerInput)
      → build_participant_answer js q s fresh ≡ some a
      → is_empty_selection s ≡ false
  unfolding build_participant_answer
  selected_of q [] fresh a h = cc
  selected_of q (i ∷ is) fresh a h = refl

  sent_once :
      (a : PendingAttempt) (c : Controller)
      → a.identity ≡ c.identity
      → le c.remaining (int 0) ≡ false
      → c.in_flight ≡ none
      → send_attempt_start js a c ≡ (
        record c {
          restored_pending = false;
          in_flight = some (attempt_key a);
          submit_state = sending;
        },
        some (record { attempt = a; key = attempt_key a }),
      )
  unfolding send_attempt_start
  sent_once a c e f g = ground (arith, e, f, g, eq_refl c.identity)

  submit_lem :
      (c : Controller) (a : LiveAnswerInput) (fresh : String)
      → IsAnswering js c
      → build_participant_answer js c.question c.selected_indexes fresh ≡ some a
      → ((submit js json fresh c).1 ≡ some (ticket_of c.identity a))
        × ((submit js json fresh c).0.storage
            ≡ save_pending_answer js json c.room c.identity a c.storage)
  unfolding submit
  submit_lem c a fresh h e =
      let attempt : PendingAttempt = record { identity = c.identity; answer = a } in
      let saved : Controller = record c {
        pending = some attempt;
        storage = save_pending_answer js json c.room c.identity a c.storage;
      } in
      rw (selected_of c.question c.selected_indexes fresh a e) (
        rw h.in_time
          (rw h.unlocked (rw e (rw (sent_once attempt saved refl h.in_time h.calm) (refl, refl)))))

  finish_keeps_storage :
      (t : SendTicket) (c : Controller) → (send_attempt_finish js t unsent c).storage ≡ c.storage
  unfolding send_attempt_finish
  finish_keeps_storage t c = ground arith

  retry_lem :
      (d : Controller) (a : PendingAttempt)
      → d.pending ≡ some a
      → a.identity ≡ d.identity
      → le d.remaining (int 0) ≡ false
      → d.in_flight ≡ none
      → (retry js d).1 ≡ some (record { attempt = a; key = attempt_key a })
  unfolding retry
  retry_lem d a e f g h =
      ap (λ o. (send_pending js o d).1) e
      ∙ ap (λ (x : Controller × Option SendTicket). x.1) (sent_once a d f g h)

  start_question_lem :
      (c : Controller) (q : LegacyQuestionSlide) (id : String) (total left : Number)
      (a : LiveAnswerInput)
      → question_run_identity js (some q) ≡ some id
      → read_pending_answer js json c.room id c.storage ≡ some a
      → ((start_question js json q total left c).pending
          ≡ some (record { identity = id; answer = a }))
        × ((start_question js json q total left c).identity ≡ id)
  unfolding start_question
  start_question_lem c q id total left a run found = rw run (rw found (refl, refl))

  restarted :
      (c : Controller) (q : LegacyQuestionSlide) (id : String) (total left : Number)
      (a : LiveAnswerInput)
      → question_run_identity js (some q) ≡ some id
      → read_pending_answer js json c.room id c.storage ≡ some a
      → le left (int 0) ≡ false
      → (retry js (start_question js json q total left c)).1 ≡ some (ticket_of id a)
  unfolding start_question
  restarted c q id total left a run found h =
      let (kept, same) = start_question_lem c q id total left a run found in
      retry_lem (start_question js json q total left c) (record { identity = id; answer = a }) kept
        (sym same) h refl

-- A participant who selects options in time and submits sends one request; if it fails and the page
-- is loaded again, a retry in time sends the same attempt again, under the same id of the request:
-- where the browser keeps the answer, it has an id and an item and is not refused, and JSON reads
-- its own text back.
pub submit-recovered :
    (js : Coercion) (json : Json) (c : Controller) (a : LiveAnswerInput) (fresh : String)
    (held : List (String × String)) (total left : Number) (connected : Bool)
    → IsAnswering js c
    → c.storage ≡ some held
    → build_participant_answer js c.question c.selected_indexes fresh ≡ some a
    → IsStorable a
    → Keeps json (pending_payload js c.room c.identity a)
    → le left (int 0) ≡ false
    → (t : SendTicket) × (t.attempt.answer ≡ a)
      × ((submit js json fresh c).1 ≡ some t)
      × ((retry js (
            start_question js json c.question total left (
              new_controller c.room c.question
                (send_attempt_finish js t unsent (submit js json fresh c).0).storage
                connected))).1
          ≡ some t)
submit-recovered js json c a fresh held total left connected h e built ok k left_over =
    let t = ticket_of c.identity a in
    let (sent_t, kept) = submit_lem js json c a fresh h built in
    let stored : (send_attempt_finish js t unsent (submit js json fresh c).0).storage
        ≡ save_pending_answer js json c.room c.identity a (some held) =
      finish_keeps_storage js json t (submit js json fresh c).0
      ∙ kept
      ∙ ap (save_pending_answer js json c.room c.identity a) e in
    let found : read_pending_answer js json c.room c.identity
          (save_pending_answer js json c.room c.identity a (some held))
        ≡ some a =
      read_pending_answer-save js json c.room c.room c.identity c.identity a held ok k
      ∙ ground (
        arith,
        eq_refl (storage_key js c.room c.identity),
        eq_refl (room_text js c.room),
        eq_refl c.identity,
      ) in
    (
      t,
      refl,
      sent_t,
      restarted js json
          (new_controller c.room c.question
            (send_attempt_finish js t unsent (submit js json fresh c).0).storage connected)
          c.question c.identity total left a h.run
          (ap (read_pending_answer js json c.room c.identity) stored ∙ found) left_over,
    )
