-- ===== src/Live/Participant/Controller/Kept.antt =====
-- What each effect and handler keeps of an answer, for
-- apps/web/src/modules/live/participant/useParticipantAnswerController.ts.
use pro_slides_go.Base.{
  ℕ, String, Bool, true, false, ◌≡◌, Option, none, some, refl, sym, ap, ◌∙◌, inl, inr, not, ◌||◌,
  str_eq, eq_iff, arith, Bool-cases, Option-cases, value_or, eq_of_some, is_just, ◌&&◌, List, [],
  ◌∷◌,
}
use pro_slides_go.Js.Number.{Number, int, lt, le}
use pro_slides_go.Js.Value.{Coercion}
use pro_slides_go.Live.Types.{LiveSnapshot}
use pro_slides_go.Live.Participant.Attempt.{
  ParticipantSubmitState, sent, rejected, expired, idle, retryable, question_run_identity,
  is_multiple_choice_question, toggle_participant_option, build_participant_answer,
}
use pro_slides_go.Live.Participant.Controller.{
  submit, resume, expire, PendingAttempt, Controller, SendTicket, note_snapshot,
  send_attempt_finish, start_question, toggle_option, is_locked, already_submitted, timer_scope,
  begin_sending, send_attempt_start, release, with_outcome, is_empty_selection, is_awaited,
  send_pending, resumed, is_retryable, submitted, keep_draft, drop_pending,
}
use pro_slides_go.Live.Participant.Storage.{Json, read_pending_answer}
use pro_slides_go.Live.Projection.Views.{LegacyQuestionSlide}
use pro_slides_go.Live.Runtime.Answer.{SubmitOutcome, accepted, unsent, LiveAnswerInput}

-- An answer that was accepted or refused, or is too late.
abbrev pub is_final : ParticipantSubmitState → Bool
is_final sent = true
is_final rejected = true
is_final expired = true
is_final state = false

-- The attempt that is kept is one of the question that is shown, and none is once the answer is
-- settled.
pub record IsKept (c : Controller) : Type 0 where
  pub current : (a : PendingAttempt) → c.pending ≡ some a → a.identity ≡ c.identity
  pub settled_empty : is_final c.submit_state ≡ true → c.pending ≡ none

pub nothing-IsKept : (c : Controller) → c.pending ≡ none → IsKept c
nothing-IsKept c h = record { current = λ a e. absurd (cc); settled_empty = λ f. h }

pub not_final : (s : ParticipantSubmitState) → is_locked s ≡ false → is_final s ≡ false
not_final idle h = refl
not_final retryable h = refl
not_final s h = cc

module _ (js : Coercion) (json : Json) where
  pub start_question-IsKept :
      (q : LegacyQuestionSlide) (total left : Number) (c : Controller)
      → IsKept (start_question js json q total left c)
  unfolding start_question
  start_question-IsKept q total left c =
      elim (Option-cases (
        read_pending_answer js json c.room (value_or (question_run_identity js (some q)) "")
          c.storage)) [
            | inl e ↦ nothing-IsKept (start_question js json q total left c) (rw e refl)
            | inr (a, e) ↦ record {
              current = λ b f. ground (arith, e, f);
              settled_empty = λ f. absurd (ground (arith, e, f));
            }
          ]

  pub release-IsKept : (key : String) (c : Controller) → IsKept c → IsKept (release js key c)
  release-IsKept key c k = elim (Bool-cases (is_just key c.in_flight)) [
    | inl e ↦ rw e (record { current = k.current; settled_empty = k.settled_empty })
    | inr e ↦ rw e k
  ]

  pub note_snapshot-IsKept :
      (snapshot : Option LiveSnapshot) (c : Controller)
      → IsKept c
      → IsKept (note_snapshot js snapshot c)
  unfolding note_snapshot
  note_snapshot-IsKept snapshot c k =
      elim (Bool-cases (already_submitted snapshot c.question.question_id)) [
        | inl e ↦ rw e (nothing-IsKept _ refl)
        | inr e ↦ rw e k
      ]

  pub expire-IsKept : (c : Controller) → IsKept c → IsKept (expire js c)
  unfolding expire
  expire-IsKept c k =
      elim (Bool-cases
        (not (is_just (timer_scope js c) c.initialized_scope) || lt (int 0) c.time_left)) [
          | inl e ↦ rw e k
          | inr e ↦ rw e (elim (Bool-cases (is_locked c.submit_state)) [
            | inl f ↦ rw f k
            | inr f ↦ rw f (nothing-IsKept _ refl)
          ])
        ]

  pub begin_sending-IsKept :
      (a : PendingAttempt) (c : Controller) (o : Option String)
      → IsKept c
      → IsKept (begin_sending js a c o).0
  begin_sending-IsKept a c (some key) k = k
  begin_sending-IsKept a c none k = record { current = k.current; settled_empty = λ f. cc }

  pub send_attempt_start-IsKept :
      (a : PendingAttempt) (c : Controller) → IsKept c → IsKept (send_attempt_start js a c).0
  unfolding send_attempt_start
  send_attempt_start-IsKept a c k =
      elim (Bool-cases (not (str_eq a.identity c.identity) || le c.remaining (int 0))) [
        | inl e ↦ rw e (nothing-IsKept _ refl)
        | inr e ↦ rw e (begin_sending-IsKept a c c.in_flight k)
      ]

  pub with_outcome-IsKept :
      (t : SendTicket) (o : SubmitOutcome) (c : Controller)
      → c.identity ≡ t.attempt.identity
      → IsKept (with_outcome js t o c)
  with_outcome-IsKept t accepted c e = nothing-IsKept _ refl
  with_outcome-IsKept t SubmitOutcome.rejected c e = nothing-IsKept _ refl
  with_outcome-IsKept t unsent c e = record {
    current = λ a f. ap (λ x. PendingAttempt.identity x) (sym (eq_of_some f)) ∙ sym e;
    settled_empty = λ f. cc;
  }

  release_identity : (key : String) (c : Controller) → (release js key c).identity ≡ c.identity
  release_identity key c = ground arith

  pub send_attempt_finish-IsKept :
      (t : SendTicket) (o : SubmitOutcome) (c : Controller)
      → IsKept c
      → IsKept (send_attempt_finish js t o c)
  unfolding send_attempt_finish
  send_attempt_finish-IsKept t o c k = elim (Bool-cases (str_eq c.identity t.attempt.identity)) [
    | inl e ↦ rw e (
        with_outcome-IsKept t o (release js t.key c)
          (release_identity t.key c ∙ (eq_iff c.identity t.attempt.identity).0 e))
    | inr e ↦ rw e (release-IsKept t.key c k)
  ]

  pub send_pending-IsKept :
      (o : Option PendingAttempt) (c : Controller) → IsKept c → IsKept (send_pending js o c).0
  send_pending-IsKept none c k = k
  send_pending-IsKept (some a) c k = send_attempt_start-IsKept a c k

  pub resumed-IsKept :
      (o : Option PendingAttempt) (c : Controller) → IsKept c → IsKept (resumed js o c).0
  resumed-IsKept none c k = k
  resumed-IsKept (some a) c k =
      elim (Bool-cases (not (str_eq a.identity c.identity) || le c.remaining (int 0))) [
        | inl e ↦ rw e k
        | inr e ↦ rw e (
            send_attempt_start-IsKept a (record c { restored_pending = false })
              (record { current = k.current; settled_empty = k.settled_empty }))
      ]

  pub resume-IsKept :
      (b : Bool) (snapshot : Option LiveSnapshot) (c : Controller)
      → IsKept c
      → IsKept (resume js b snapshot c).0
  unfolding resume
  resume-IsKept b snapshot c k =
      let k' : IsKept (record c { was_connected = b }) = record {
        current = k.current;
        settled_empty = k.settled_empty;
      } in
      let awaited = is_awaited snapshot c.question.question_id in
      elim (Bool-cases (
        ((not c.was_connected && b) || (c.restored_pending && (b && awaited)))
        && (is_retryable js c.submit_state && awaited))) [
          | inl e ↦ rw e (resumed-IsKept c.pending (record c { was_connected = b }) k')
          | inr e ↦ rw e k'
        ]

  pub submitted-IsKept :
      (o : Option LiveAnswerInput) (c : Controller)
      → IsKept c
      → is_locked c.submit_state ≡ false
      → IsKept (submitted js json o c).0
  submitted-IsKept none c k h = k
  submitted-IsKept (some a) c k h = send_attempt_start-IsKept _ _ (record {
    current = λ b f. ap (λ x. PendingAttempt.identity x) (sym (eq_of_some f));
    settled_empty = λ f. absurd (ground (arith, f, not_final c.submit_state h));
  })

  pub submit-IsKept :
      (fresh : String) (c : Controller) → IsKept c → IsKept (submit js json fresh c).0
  unfolding submit
  submit-IsKept fresh c k =
      elim (Bool-cases (
        is_empty_selection c.selected_indexes
        || (le c.remaining (int 0) || is_locked c.submit_state))) [
          | inl e ↦ rw e k
          | inr e ↦ rw e (
              submitted-IsKept (build_participant_answer js c.question c.selected_indexes fresh) c k
                (ground (arith, e)))
        ]

  pub keep_draft-IsKept :
      (next : List ℕ) (c : Controller) → IsKept c → IsKept (keep_draft js json next c)
  keep_draft-IsKept [] c k = record { current = k.current; settled_empty = k.settled_empty }
  keep_draft-IsKept (i ∷ is) c k = record { current = k.current; settled_empty = k.settled_empty }

  pub drop_pending-IsKept :
      (s : ParticipantSubmitState) (c : Controller) → IsKept c → IsKept (drop_pending js json s c)
  drop_pending-IsKept retryable c k = nothing-IsKept _ refl
  drop_pending-IsKept s c k = k

  pub toggle_option-IsKept :
      (i : ℕ) (c : Controller) → IsKept c → IsKept (toggle_option js json i c)
  unfolding toggle_option
  toggle_option-IsKept i c k =
      elim (Bool-cases (is_locked c.submit_state || le c.remaining (int 0))) [
        | inl e ↦ rw e k
        | inr e ↦ rw e (
            drop_pending-IsKept c.submit_state _ (
              keep_draft-IsKept
                (toggle_participant_option c.selected_indexes i
                  (is_multiple_choice_question c.question))
                _ (record { current = k.current; settled_empty = k.settled_empty })))
      ]
