-- ===== src/Live/Tests/Participant.antt =====
-- The theorems about the participant's selection and answers, at concrete questions.
use pro_slides_go.Live.Runtime.Answer.{
  requested, LiveAnswerInput, is_refused, selected_option_indexes, submit_answer_start,
}
use pro_slides_go.Base.{
  ◌≡◌, refl, none, some, [], ◌∷◌, true, str_eq, if◌then◌else◌, ◌&&◌, map, arith, ltb, length, keep,
}
use pro_slides_go.Live.Tests.{js, chosen}
use pro_slides_go.Js.Number.{int, nan}
use pro_slides_go.Js.Value.{Fields, str, obj, field, end, get, arr, cons, nil}
use pro_slides_go.Live.Participant.Attempt.{
  unique, toggle_participant_option, build_participant_answer,
}
use pro_slides_go.Live.Projection.Slides.{ProtocolSession, choice_activity_to_legacy}
use pro_slides_go.Live.Participant.Storage.Laws.{IsStorable, read_pending_answer-save}
use pro_slides_go.Live.Participant.Attempt.Selection.{IsToggled, toggle_participant_option-twice}
use pro_slides_go.Live.Participant.Storage.{
  Json, pending_payload, read_pending_answer, room_text, save_pending_answer, storage_key,
}
use pro_slides_go.Live.Projection.Views.{LegacyQuestionSlide}
use pro_slides_go.Live.Participant.Attempt.Sent.{build_participant_answer-requested}
use pro_slides_go.Live.Runtime.State.{select_session}

toggle_participant_option-twice_example :
    IsToggled 2 (0 ∷ 3 ∷ []) (toggle_participant_option (0 ∷ 3 ∷ []) 2 true)
    × (toggle_participant_option (toggle_participant_option (0 ∷ 3 ∷ []) 2 true) 2 true
        ≡ 0 ∷ 3 ∷ [])
toggle_participant_option-twice_example =
    toggle_participant_option-twice (0 ∷ 3 ∷ []) 2 ((omega arith, tt), (tt, tt))

abbrev pub two_options : Fields
two_options =
    field "response" (obj (field "options" (arr (cons (str "a") (cons (str "b") nil))) end)) end

abbrev pub no_session : ProtocolSession
no_session = record {
  active_item_id = none;
  state_version = none;
  ends_at = none;
  remaining_seconds = none;
}

abbrev pub two_choices : LegacyQuestionSlide
two_choices = choice_activity_to_legacy js (λ s. nan) (int 0) "q" two_options no_session

build_participant_answer-requested_example :
    (a : LiveAnswerInput) × (build_participant_answer js two_choices (5 ∷ 1 ∷ []) "n" ≡ some a)
    × (submit_answer_start js "m" chosen (some a)
        ≡ requested (record {
          session_id = "s";
          request_id = "n";
          activity_item_id = "q";
          response =
              selected_option_indexes
                (map int (keep (λ p. ltb p (length two_choices.options)) (unique (5 ∷ 1 ∷ []))));
        }))
unfolding choice_activity_to_legacy get select_session
build_participant_answer-requested_example =
    build_participant_answer-requested js (λ s. nan) (int 0) "q" two_options no_session (5 ∷ 1 ∷ [])
      1 "n" "m" chosen "s" refl (omega arith) refl refl refl

abbrev kept_answer : LiveAnswerInput
kept_answer = record {
  request_id = some "n";
  activity_item_id = str "q";
  response = selected_option_indexes (int 1 ∷ []);
}

abbrev one_payload : Json
one_payload = record {
  stringify = λ v. "{}";
  parse = λ s. some (pending_payload js (str "r") "q:4" kept_answer);
}

kept_answer-IsStorable : IsStorable kept_answer
unfolding is_refused
kept_answer-IsStorable = record {
  request = "n";
  asked = refl;
  item = "q";
  named = refl;
  sendable = refl;
}

read_pending_answer-save_example :
    read_pending_answer js one_payload
      (str "r")
      "q:4"
      (save_pending_answer js one_payload (str "r") "q:4" kept_answer (some []))
    ≡ (if str_eq (storage_key js (str "r") "q:4") (storage_key js (str "r") "q:4")
        then (if str_eq (room_text js (str "r")) (room_text js (str "r")) && str_eq "q:4" "q:4"
            then some kept_answer
            else none)
        else read_pending_answer js one_payload (str "r") "q:4" (some []))
read_pending_answer-save_example =
    read_pending_answer-save js one_payload (str "r") (str "r") "q:4" "q:4" kept_answer []
      kept_answer-IsStorable (record { back = refl; something = refl })
