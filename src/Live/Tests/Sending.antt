-- ===== src/Live/Tests/Sending.antt =====
-- The theorems about the hook that sends a participant's answers, at concrete runs.
use pro_slides_go.Live.Tests.{js}
use pro_slides_go.Js.TextMap.{lookup, insert}
use pro_slides_go.Base.{String, ◌≡◌, refl, none, some, List, [], ◌∷◌, true}
use pro_slides_go.Live.Tests.Participant.{two_choices}
use pro_slides_go.Js.Number.{int}
use pro_slides_go.Js.Value.{str, get}
use pro_slides_go.Live.Participant.Controller.{
  submit, retry, Controller, SendTicket, send_attempt_finish, new_controller, start_question,
  toggle_option, send_attempt_start,
}
use pro_slides_go.Live.Participant.Controller.Recovered.{IsAnswering, submit-recovered}
use pro_slides_go.Live.Participant.Controller.Settled.{
  IsSilent, run-IsSettled, Step, Reach, run_pending,
}
use pro_slides_go.Live.Participant.Storage.Laws.{IsStorable}
use pro_slides_go.Live.Participant.Storage.{
  Json, draft_storage_key, pending_payload, read_answer_draft, read_pending_answer,
  save_answer_draft,
}
use pro_slides_go.Live.Runtime.Answer.{
  LiveAnswerInput, is_refused, selected_option_indexes, unsent, accepted,
}
use pro_slides_go.Live.Participant.Attempt.{
  build_participant_answer, question_run_identity, toggle_participant_option,
}
use pro_slides_go.Live.Projection.Slides.{choice_activity_to_legacy}
use pro_slides_go.Live.Participant.Controller.Kept.{is_final}

abbrev answer : LiveAnswerInput
answer = record {
  request_id = some "n";
  activity_item_id = str "q";
  response = selected_option_indexes (int 1 ∷ []);
}

abbrev json : Json
json = record {
  stringify = λ v. "{}";
  parse = λ s. some (pending_payload js (str "r") "q:na" answer);
}

abbrev fresh_page : Controller
fresh_page = new_controller (str "r") two_choices (some []) true

abbrev shown : Controller
shown = start_question js json two_choices (int 30) (int 30) fresh_page

abbrev picked : Controller
picked = toggle_option js json 1 shown

picked_run : Reach js json fresh_page picked
picked_run =
    Reach.then (Reach.then Reach.here (Step.started two_choices (int 30) (int 30) fresh_page))
      (Step.toggled 1 shown)

abbrev sending_page : Controller
sending_page = (submit js json "n" picked).0

abbrev ticket : SendTicket
ticket = record { attempt = record { identity = "q:na"; answer = answer }; key = "n" }

abbrev done : Controller
done = send_attempt_finish js ticket accepted sending_page

done_run : Reach js json fresh_page done
done_run =
    Reach.then (Reach.then picked_run (Step.submitted_answer "n" picked))
      (Step.answered ticket accepted sending_page)

abbrev retried_page : Controller
retried_page = (retry js done).0

abbrev later : Reach js json done retried_page
later = Reach.then Reach.here (Step.retried done)

done-final : is_final done.submit_state ≡ true
unfolding start_question toggle_option choice_activity_to_legacy get question_run_identity
    send_attempt_finish submit send_attempt_start build_participant_answer read_pending_answer
    lookup toggle_participant_option save_answer_draft read_answer_draft draft_storage_key insert
done-final = refl

run-IsSettled_example :
    (is_final retried_page.submit_state ≡ true)
    × (retried_page.pending ≡ none)
    × IsSilent js json retried_page
run-IsSettled_example =
    run-IsSettled js json (str "r") two_choices (some []) true done retried_page done_run done-final
      later (tt, tt)

sending_pending : sending_page.pending ≡ some (record { identity = "q:na"; answer = answer })
unfolding start_question toggle_option choice_activity_to_legacy get question_run_identity submit
    send_attempt_start build_participant_answer read_pending_answer lookup toggle_participant_option
    save_answer_draft read_answer_draft draft_storage_key insert
sending_pending = refl

run_pending_example : "q:na" ≡ sending_page.identity
run_pending_example =
    run_pending js json (str "r") two_choices (some []) true sending_page ticket.attempt
      (Reach.then picked_run (Step.submitted_answer "n" picked)) sending_pending

picked-IsAnswering : IsAnswering js picked
unfolding start_question toggle_option question_run_identity choice_activity_to_legacy get
    read_pending_answer lookup read_answer_draft
picked-IsAnswering = record { run = refl; calm = refl; in_time = refl; unlocked = refl }

picked_storage : (held : List (String × String)) × (picked.storage ≡ some held)
unfolding start_question toggle_option choice_activity_to_legacy get read_pending_answer lookup
    toggle_participant_option save_answer_draft read_answer_draft draft_storage_key insert
picked_storage = (_, refl)

picked_answer :
    build_participant_answer js picked.question picked.selected_indexes "n" ≡ some answer
unfolding build_participant_answer start_question toggle_option choice_activity_to_legacy get
    read_pending_answer lookup toggle_participant_option read_answer_draft draft_storage_key
picked_answer = refl

answer-IsStorable : IsStorable answer
unfolding is_refused
answer-IsStorable = record {
  request = "n";
  asked = refl;
  item = "q";
  named = refl;
  sendable = refl;
}

submit-recovered_example :
    (t : SendTicket) × (t.attempt.answer ≡ answer)
    × ((submit js json "n" picked).1 ≡ some t)
    × ((retry js (
          start_question js json picked.question (int 30) (int 20) (
            new_controller picked.room picked.question
              (send_attempt_finish js t unsent (submit js json "n" picked).0).storage
              true))).1
        ≡ some t)
unfolding start_question toggle_option question_run_identity read_pending_answer
    choice_activity_to_legacy read_answer_draft
submit-recovered_example =
    submit-recovered js json picked answer "n" picked_storage.0 (int 30) (int 20) true
      picked-IsAnswering picked_storage.1 picked_answer answer-IsStorable
      (record { back = refl; something = refl }) refl
