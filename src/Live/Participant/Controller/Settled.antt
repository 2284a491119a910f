-- ===== src/Live/Participant/Controller/Settled.antt =====
-- What is kept of an answer in every run, for
-- apps/web/src/modules/live/participant/useParticipantAnswerController.ts.
use pro_slides_go.Base.{
  ℕ, String, Bool, true, false, ◌≡◌, Option, none, some, refl, ap, arith, inl, inr, str_eq,
  Bool-cases,
}
use pro_slides_go.Js.Number.{Number}
use pro_slides_go.Js.Value.{Coercion, Value}
use pro_slides_go.Live.Types.{LiveSnapshot}
use pro_slides_go.Live.Participant.Attempt.{ParticipantSubmitState, sent, rejected, expired}
use pro_slides_go.Live.Participant.Controller.{
  submit, retry, resume, tick, expire, PendingAttempt, Controller, SendTicket, note_snapshot,
  send_attempt_finish, start_question, toggle_option, is_locked, send_pending, is_retryable,
  new_controller, already_submitted, release,
}
use pro_slides_go.Live.Participant.Storage.{Json, Storage}
use pro_slides_go.Live.Projection.Views.{LegacyQuestionSlide}
use pro_slides_go.Live.Runtime.Answer.{SubmitOutcome, accepted, unsent}
use pro_slides_go.Live.Participant.Controller.Kept.{
  IsKept, expire-IsKept, is_final, note_snapshot-IsKept, nothing-IsKept, resume-IsKept,
  send_attempt_finish-IsKept, send_pending-IsKept, start_question-IsKept, submit-IsKept,
  toggle_option-IsKept,
}

-- The effects and handlers, in any order; the answer to a request may be of any request.
pub data Step (js : Coercion) (json : Json) : Controller → Controller → Type 0 where
  started :
      (q : LegacyQuestionSlide) (total left : Number) (c : Controller)
      → Step js json c (start_question js json q total left c)
  noted :
      (snapshot : Option LiveSnapshot) (c : Controller)
      → Step js json c (note_snapshot js snapshot c)
  ticked : (elapsed : Number) (c : Controller) → Step js json c (tick js elapsed c)
  ran_out : (c : Controller) → Step js json c (expire js c)
  submitted_answer : (fresh : String) (c : Controller) → Step js json c (submit js json fresh c).0
  retried : (c : Controller) → Step js json c (retry js c).0
  resumed_sending :
      (connected : Bool) (snapshot : Option LiveSnapshot) (c : Controller)
      → Step js json c (resume js connected snapshot c).0
  answered :
      (t : SendTicket) (outcome : SubmitOutcome) (c : Controller)
      → Step js json c (send_attempt_finish js t outcome c)
  toggled : (index : ℕ) (c : Controller) → Step js json c (toggle_option js json index c)

-- A request that fails is one for another question than the one that is shown.
abbrev IsQuietAnswer : SendTicket → SubmitOutcome → Controller → Type 0
IsQuietAnswer t unsent c = str_eq c.identity t.attempt.identity ≡ false
IsQuietAnswer t outcome c = Unit

-- No question is started, and no request for the question that is shown comes back as failed.
abbrev IsQuietStep : {js : Coercion} {json : Json} {c d : Controller} → Step js json c d → Type 0
IsQuietStep (Step.started q total left c) = ⊥
IsQuietStep (Step.answered t outcome c) = IsQuietAnswer t outcome c
IsQuietStep step = Unit

pub data Reach (js : Coercion) (json : Json) (c : Controller) : Controller → Type 0 where
  here : Reach js json c c
  then : {d e : Controller} → Reach js json c d → Step js json d e → Reach js json c e

abbrev pub IsQuiet : {js : Coercion} {json : Json} {c d : Controller} → Reach js json c d → Type 0
IsQuiet Reach.here = Unit
IsQuiet (Reach.then run step) = IsQuiet run × IsQuietStep step

module _ (js : Coercion) (json : Json) where
  step-IsKept : {c d : Controller} → Step js json c d → IsKept c → IsKept d
  unfolding tick retry
  step-IsKept (Step.started q total left c) k = start_question-IsKept js json q total left c
  step-IsKept (Step.noted snapshot c) k = note_snapshot-IsKept js json snapshot c k
  step-IsKept (Step.ticked elapsed c) k = record {
    current = k.current;
    settled_empty = k.settled_empty;
  }
  step-IsKept (Step.ran_out c) k = expire-IsKept js json c k
  step-IsKept (Step.submitted_answer fresh c) k = submit-IsKept js json fresh c k
  step-IsKept (Step.retried c) k = send_pending-IsKept js json c.pending c k
  step-IsKept (Step.resumed_sending b snapshot c) k = resume-IsKept js json b snapshot c k
  step-IsKept (Step.answered t outcome c) k = send_attempt_finish-IsKept js json t outcome c k
  step-IsKept (Step.toggled index c) k = toggle_option-IsKept js json index c k

  -- Nothing is sent any more.
  abbrev pub IsSilent : Controller → Type 0
  IsSilent c =
      ((retry js c).1 ≡ none)
      × ((fresh : String) → (submit js json fresh c).1 ≡ none)
      × ((b : Bool) (snapshot : Option LiveSnapshot) → (resume js b snapshot c).1 ≡ none)

  locked_final :
      (s : ParticipantSubmitState)
      → is_final s ≡ true
      → (is_locked s ≡ true) × (is_retryable js s ≡ false)
  locked_final sent h = (refl, refl)
  locked_final rejected h = (refl, refl)
  locked_final expired h = (refl, refl)
  locked_final s h = (cc, cc)

  final-IsSilent : (c : Controller) → IsKept c → is_final c.submit_state ≡ true → IsSilent c
  unfolding retry submit resume
  final-IsSilent c k h =
      let (locked, calm) = locked_final c.submit_state h in
      (
        ap (λ o. (send_pending js o c).1) (k.settled_empty h),
        λ fresh. ground (arith, locked),
        λ b snapshot. ground (arith, calm),
      )

  run-IsKept : {c d : Controller} → Reach js json c d → IsKept c → IsKept d
  run-IsKept Reach.here k = k
  run-IsKept (Reach.then run s) k = step-IsKept s (run-IsKept run k)

module _ (js : Coercion) (json : Json) where
  note_snapshot-final :
      (snapshot : Option LiveSnapshot) (c : Controller)
      → is_final c.submit_state ≡ true
      → is_final (note_snapshot js snapshot c).submit_state ≡ true
  unfolding note_snapshot
  note_snapshot-final snapshot c h =
      elim (Bool-cases (already_submitted snapshot c.question.question_id)) [
        | inl e ↦ rw e refl
        | inr e ↦ rw e h
      ]

  expire-final :
      (c : Controller) → is_final c.submit_state ≡ true → is_final (expire js c).submit_state ≡ true
  unfolding expire
  expire-final c h = ground (arith, h)

  submit-final :
      (fresh : String) (c : Controller)
      → is_final c.submit_state ≡ true
      → is_final (submit js json fresh c).0.submit_state ≡ true
  unfolding submit
  submit-final fresh c h = ground (arith, h, (locked_final js json c.submit_state h).0)

  resume-final :
      (b : Bool) (snapshot : Option LiveSnapshot) (c : Controller)
      → is_final c.submit_state ≡ true
      → is_final (resume js b snapshot c).0.submit_state ≡ true
  unfolding resume
  resume-final b snapshot c h = ground (arith, h, (locked_final js json c.submit_state h).1)

  retry-final :
      (c : Controller)
      → IsKept c
      → is_final c.submit_state ≡ true
      → is_final (retry js c).0.submit_state ≡ true
  unfolding retry
  retry-final c k h = rw (k.settled_empty h) h

  toggle_option-final :
      (index : ℕ) (c : Controller)
      → is_final c.submit_state ≡ true
      → is_final (toggle_option js json index c).submit_state ≡ true
  unfolding toggle_option
  toggle_option-final index c h = ground (arith, h, (locked_final js json c.submit_state h).0)

  release-final :
      (key : String) (c : Controller)
      → is_final c.submit_state ≡ true
      → is_final (release js key c).submit_state ≡ true
  release-final key c h = ground (arith, h)

  answered-final :
      (t : SendTicket) (o : SubmitOutcome) (c : Controller)
      → IsQuietAnswer t o c
      → is_final c.submit_state ≡ true
      → is_final (send_attempt_finish js t o c).submit_state ≡ true
  unfolding send_attempt_finish
  answered-final t unsent c q h = rw q (release-final t.key c h)
  answered-final t accepted c q h = elim (Bool-cases (str_eq c.identity t.attempt.identity)) [
    | inl e ↦ rw e refl
    | inr e ↦ rw e (release-final t.key c h)
  ]
  answered-final t SubmitOutcome.rejected c q h =
      elim (Bool-cases (str_eq c.identity t.attempt.identity)) [
        | inl e ↦ rw e refl
        | inr e ↦ rw e (release-final t.key c h)
      ]

  step-final :
      {c d : Controller} (step : Step js json c d)
      → IsQuietStep step
      → IsKept c
      → is_final c.submit_state ≡ true
      → is_final d.submit_state ≡ true
  unfolding tick
  step-final (Step.started begun total left c) q k h = absurd q
  step-final (Step.noted snapshot c) q k h = note_snapshot-final snapshot c h
  step-final (Step.ticked elapsed c) q k h = h
  step-final (Step.ran_out c) q k h = expire-final c h
  step-final (Step.submitted_answer fresh c) q k h = submit-final fresh c h
  step-final (Step.retried c) q k h = retry-final c k h
  step-final (Step.resumed_sending b snapshot c) q k h = resume-final b snapshot c h
  step-final (Step.answered t outcome c) q k h = answered-final t outcome c q h
  step-final (Step.toggled index c) q k h = toggle_option-final index c h

  run-final :
      {c d : Controller} (run : Reach js json c d)
      → IsQuiet run
      → IsKept c
      → is_final c.submit_state ≡ true
      → is_final d.submit_state ≡ true
  run-final Reach.here q k h = h
  run-final (Reach.then run step) q k h =
      step-final step q.1 (run-IsKept js json run k) (run-final run q.0 k h)

module _ (js : Coercion) (json : Json) (room : Value) (q : LegacyQuestionSlide) (storage : Storage)
    (connected : Bool) where
  new-IsKept :
      (c : Controller) → Reach js json (new_controller room q storage connected) c → IsKept c
  new-IsKept c run =
      run-IsKept js json run (nothing-IsKept (new_controller room q storage connected) refl)

  -- In every run of the hook, however its effects, its handlers and the answers to its requests
  -- interleave, the attempt that is kept is one of the question that is shown.
  pub run_pending :
      (c : Controller) (a : PendingAttempt)
      → Reach js json (new_controller room q storage connected) c
      → c.pending ≡ some a
      → a.identity ≡ c.identity
  run_pending c a run e = (new-IsKept c run).current a e

  -- A run of the hook that came to an answer that was accepted, was refused or is too late, goes on
  -- in any way in which no question is started and no request for the question that is shown comes
  -- back as failed: the answer stays settled in one of these three ways, no attempt is kept, and
  -- neither a retry nor a submission nor a reconnection sends anything.
  pub run-IsSettled :
      (c d : Controller)
      → Reach js json (new_controller room q storage connected) c
      → is_final c.submit_state ≡ true
      → (later : Reach js json c d) → IsQuiet later
      → (is_final d.submit_state ≡ true) × (d.pending ≡ none) × IsSilent js json d
  run-IsSettled c d run h later quiet =
      let k = new-IsKept c run in
      let final = run-final js json later quiet k h in
      let kept = run-IsKept js json later k in
      (final, kept.settled_empty final, final-IsSilent js json d kept final)
