-- ===== src/Live/Participant/Attempt.antt =====
-- apps/web/src/modules/live/participant/answerAttempt.ts: the selection of options, and the answer
-- that is built from it. Positions in the list of options are numbers of ours; the indexes that are
-- sent are JavaScript's.
pub mod Selection
pub mod Sent
use Prim.Native.String.{◌++◌ as join}
use pro_slides_go.Base.{
  ℕ, String, Bool, true, false, not, ◌&&◌, ◌||◌, Option, none, some, List, [], ◌∷◌, ◌++◌, ◌==◌, leb,
  any, if◌then◌else◌, map, keep, get_elem?,
}
use pro_slides_go.Js.Number.{Number, int, is_integer, le}
use pro_slides_go.Js.Value.{Coercion, number_of, str, num}
use pro_slides_go.Live.Projection.Views.{
  LegacyQuestionSlide, LegacyQuestionOption, LegacyQuestionType, multiple,
}
use pro_slides_go.Live.Runtime.Answer.{LiveAnswerInput, selected_option_indexes}
use pro_slides_go.Live.Projection.Slides.{item_id}

pub data ParticipantSubmitState : Type 0 where
  idle sending retryable sent rejected expired : ParticipantSubmitState

abbrev run_text : Coercion → Option Number → String
run_text js none = "na"
run_text js (some n) = js.to_text (num n)

-- The `question_id` of a projected question is a text.
unfoldable pub question_run_identity : Coercion → Option LegacyQuestionSlide → Option String
question_run_identity js none = none
question_run_identity js (some q) = some (join q.question_id (join ":" (run_text js q.run_id)))

abbrev is_multiple_type : LegacyQuestionType → Bool
is_multiple_type multiple = true
is_multiple_type type = false

abbrev pub is_multiple_choice_question : LegacyQuestionSlide → Bool
is_multiple_choice_question q = q.has_multiple || is_multiple_type q.question_type

abbrev pub includes : List ℕ → ℕ → Bool
includes selected index = any (λ value. value == index) selected

-- `sort` by the difference: stable, by insertion.
abbrev pub insert_sorted : ℕ → List ℕ → List ℕ
insert_sorted x [] = x ∷ []
insert_sorted x (y ∷ ys) = if leb x y then x ∷ y ∷ ys else y ∷ insert_sorted x ys

abbrev pub sort : List ℕ → List ℕ
sort [] = []
sort (x ∷ xs) = insert_sorted x (sort xs)

abbrev is_only : List ℕ → ℕ → Bool
is_only (x ∷ []) index = x == index
is_only selected index = false

unfoldable pub toggle_participant_option : List ℕ → ℕ → Bool → List ℕ
toggle_participant_option selected index false = if is_only selected index then [] else index ∷ []
toggle_participant_option selected index true =
    if includes selected index
    then keep (λ value. not (value == index)) selected
    else sort (selected ++ index ∷ [])

-- `[...new Set(selected)]`: the first of each.
abbrev pub unique : List ℕ → List ℕ
unique [] = []
unique (x ∷ xs) = x ∷ keep (λ value. not (value == x)) (unique xs)

abbrev pub declared_or : ℕ → Number → Number
declared_or position declared =
    if is_integer declared && le (int 0) declared then declared else int position

abbrev pub declared_of : Coercion → ℕ → Option LegacyQuestionOption → Option Number
declared_of js position none = none
declared_of js position (some o) = some (declared_or position (number_of js o.option_index))

abbrev pub declared_index : Coercion → List LegacyQuestionOption → ℕ → Option Number
declared_index js choices position = declared_of js position (get_elem? choices position)

abbrev pub present {ℓ} : {A : Type ℓ} → List (Option A) → List A
present [] = []
present (none ∷ os) = present os
present (some a ∷ os) = a ∷ present os

abbrev pub answer_with : String → String → List Number → Option LiveAnswerInput
answer_with item_id request [] = none
answer_with item_id request (index ∷ indexes) = some (record {
  request_id = some request;
  activity_item_id = str item_id;
  response = selected_option_indexes (index ∷ indexes);
})

unfoldable pub build_participant_answer :
    Coercion → LegacyQuestionSlide → List ℕ → String → Option LiveAnswerInput
build_participant_answer js q selected request_id =
    answer_with q.question_id request_id
      (present (map (declared_index js q.options) (unique selected)))
