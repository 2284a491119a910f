-- ===== src/Live/Runtime/Answer.antt =====
-- `submitAnswer` of LiveRuntime.ts: what is refused before a request is made, the request, and
-- what its answer means.
use pro_slides_go.Base.{
  ℕ, String, Bool, true, false, not, ◌||◌, Option, none, some, List, [], ◌∷◌, ◌==◌, any,
  if◌then◌else◌, length,
}
use pro_slides_go.Js.Number.{Number, nan, int, is_integer, lt, num_eq}
use pro_slides_go.Js.Text.{is_blank}
use pro_slides_go.Js.Value.{Value, Coercion}
use pro_slides_go.Live.Result.{string_of}
use pro_slides_go.Live.Runtime.State.{Runtime}
use pro_slides_go.Live.Runtime.Roster.{truthy_text}

pub data AnswerResponse : Type 0 where
  selected_option_indexes : List Number → AnswerResponse
  text : String → AnswerResponse

pub record LiveAnswerInput : Type 0 where
  pub request_id : Option String
  pub activity_item_id : Value
  pub response : AnswerResponse

pub record AnswerRequest : Type 0 where
  pub session_id : String
  pub request_id : String
  pub activity_item_id : String
  pub response : AnswerResponse

-- The equality of a `Set`'s members: NaN is the same as NaN.
abbrev pub same_value : Number → Number → Bool
same_value nan nan = true
same_value a b = num_eq a b

-- `new Set(selected).size !== selected.length`.
abbrev pub has_duplicate : List Number → Bool
has_duplicate [] = false
has_duplicate (x ∷ xs) = any (same_value x) xs || has_duplicate xs

abbrev pub is_bad_index : Number → Bool
is_bad_index index = not (is_integer index) || lt index (int 0)

unfoldable pub is_refused : AnswerResponse → Bool
is_refused (selected_option_indexes selected) =
    length selected == 0 || (has_duplicate selected || any is_bad_index selected)
is_refused (text answer) = is_blank answer

-- What the caller learns: `true`, `"rejected"` or `false`.
pub data SubmitOutcome : Type 0 where
  accepted rejected unsent : SubmitOutcome

-- Up to the request: either the method returned at once, or it asks the transport.
pub data SubmitStart : Type 0 where
  returned : SubmitOutcome → SubmitStart
  requested : AnswerRequest → SubmitStart

abbrev pub answer_request : Coercion → String → String → LiveAnswerInput → AnswerRequest
answer_request js fresh id answer = record {
  session_id = id;
  request_id = elim (truthy_text answer.request_id) [ none ↦ fresh | some kept ↦ kept ];
  activity_item_id = string_of js answer.activity_item_id;
  response = answer.response;
}

unfoldable pub submit_answer_start :
    Coercion → (fresh : String) → Runtime → Option LiveAnswerInput → SubmitStart
unfolding is_refused
submit_answer_start js fresh r none = returned unsent
submit_answer_start js fresh r (some answer) = elim (truthy_text r.selected_session_id) [
  | none ↦ returned unsent
  | some id ↦
      if is_refused answer.response
      then returned rejected
      else requested (answer_request js fresh id answer)
]

-- What a request to the server fails with: a `LiveAPIError` has a status, any other error none.
pub data AnswerReply : Type 0 where
  stored : AnswerReply
  refused : (status : Option ℕ) → AnswerReply

unfoldable pub submit_answer_finish : AnswerReply → SubmitOutcome
submit_answer_finish stored = accepted
submit_answer_finish (refused none) = unsent
submit_answer_finish (refused (some status)) =
    if status == 400 || (status == 401 || status == 409) then rejected else unsent
