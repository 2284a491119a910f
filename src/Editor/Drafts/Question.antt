-- ===== src/Editor/Drafts/Question.antt =====
-- The draft of a question, of apps/web/src/modules/presentations/editor/model/questionDraft.ts.
pub mod Counts
pub mod Marks
pub mod Slide
pub mod Saved
use pro_slides_go.Base.{
  if◌then◌else◌, ℕ, suc, String, Bool, false, not, ◌&&◌, ◌||◌, Option, none, some, List, [], ◌∷◌,
  ◌++◌, ◌==◌, str_eq, map, map_from, length, keep, count_if, any, leb, ltb, get_elem?, insert_at,
  remove_at, ℤ, pos,
}
use Prim.Native.String.{◌++◌ as join}
use pro_slides_go.Js.Text.{decimal}
use pro_slides_go.Editor.Model.{
  QuestionType, single, multiple, EvaluationMode, correctness, ScoringMode,
}
use pro_slides_go.Editor.Wording.{option_prefix_text}
use pro_slides_go.Editor.Slides.{evaluates, is_multiple}
use pro_slides_go.Editor.Drafts.{DraftState, restart, patched}

pub record QuestionDraftOption : Type 0 where
  pub id : String
  pub text : String
  pub is_correct : Bool
  pub image_url : String

pub record QuestionDraft : Type 0 where
  pub slide_id : String
  pub revision : ℕ
  pub order : ℕ
  pub show_leaderboard_after : Bool
  pub question_id : String
  pub title : String
  pub text : String
  pub type : QuestionType
  pub evaluation_mode : EvaluationMode
  pub scoring_mode : ScoringMode
  pub time_input : String
  pub min_points_input : String
  pub max_points_input : String
  pub image_url : String
  pub faster_answers_more_points : Bool
  pub partial_scoring : Bool
  pub options : List QuestionDraftOption

pub data QuestionDraftAction : Type 0 where
  reset saved : QuestionDraft → QuestionDraftAction
  question_text question_image time min_points max_points : String → QuestionDraftAction
  faster_points partial_scoring leaderboard : Bool → QuestionDraftAction
  add_option delete_option toggle_correct : String → QuestionDraftAction
  option_text option_image : String → String → QuestionDraftAction
  move_option : ℤ → ℤ → QuestionDraftAction

abbrev pub marked : Bool → QuestionDraftOption → QuestionDraftOption
marked b o = record o { is_correct = b }

abbrev pub has_key : String → QuestionDraftOption → Bool
has_key id o = str_eq o.id id

abbrev pub correct_options : List QuestionDraftOption → ℕ
correct_options os = count_if (λ o. QuestionDraftOption.is_correct o) os

-- `options.map((option, index) => ({ ...option, isCorrect: index === 0 }))`.
abbrev pub mark_first : List QuestionDraftOption → List QuestionDraftOption
mark_first os = map_from 0 (λ index o. marked (index == 0) o) os

abbrev pub ensure_single : QuestionType → List QuestionDraftOption → List QuestionDraftOption
ensure_single multiple os = os
ensure_single single os = if ltb 1 (correct_options os) then mark_first os else os

abbrev pub ensure_correct_option :
    List QuestionDraftOption → QuestionType → EvaluationMode → List QuestionDraftOption
ensure_correct_option os type EvaluationMode.none = map (marked false) os
ensure_correct_option os type correctness =
    if length os == 0 || any (λ o. QuestionDraftOption.is_correct o) os
    then ensure_single type os
    else mark_first os

abbrev pub with_options :
    DraftState QuestionDraft → List QuestionDraftOption → DraftState QuestionDraft
with_options state os = patched state (record state.draft { options = os })

abbrev pub on_option :
    String
    → (QuestionDraftOption → QuestionDraftOption)
    → List QuestionDraftOption
    → List QuestionDraftOption
on_option id change os = map (λ o. if has_key id o then change o else o) os

abbrev pub find_option : String → List QuestionDraftOption → Option QuestionDraftOption
find_option id [] = none
find_option id (o ∷ os) = if has_key id o then some o else find_option id os

abbrev pub next_option : QuestionDraft → String → QuestionDraftOption
next_option d id = record {
  id = id;
  text = join option_prefix_text (decimal (suc (length d.options)));
  is_correct = evaluates d.evaluation_mode && length d.options == 0;
  image_url = "";
}

abbrev pub toggled :
    QuestionType
    → String
    → QuestionDraftOption
    → List QuestionDraftOption
    → List QuestionDraftOption
toggled single id selected os = map (λ o. marked (has_key id o) o) os
toggled multiple id selected os =
    if selected.is_correct && correct_options os == 1
    then os
    else on_option id (λ o. marked (not o.is_correct) o) os

abbrev pub toggle :
    EvaluationMode → QuestionType → String → List QuestionDraftOption → List QuestionDraftOption
toggle EvaluationMode.none type id os = os
toggle correctness type id os = elim (find_option id os) [
  | none ↦ os
  | some selected ↦ toggled type id selected os
]

abbrev pub move : List QuestionDraftOption → ℤ → ℤ → List QuestionDraftOption
move os (pos from) (pos to) =
    if from == to || (leb (length os) from || leb (length os) to)
    then os
    else elim (get_elem? os from) [
      | none ↦ os
      | some moved ↦ insert_at to moved (remove_at from os)
    ]
move os _ _ = os

unfoldable pub question_draft_reducer :
    DraftState QuestionDraft → QuestionDraftAction → DraftState QuestionDraft
question_draft_reducer state (reset d) = restart d
question_draft_reducer state (saved d) = restart d
question_draft_reducer state (question_text value) =
    patched state (record state.draft { text = value })
question_draft_reducer state (question_image value) =
    patched state (record state.draft { image_url = value })
question_draft_reducer state (time value) =
    patched state (record state.draft { time_input = value })
question_draft_reducer state (min_points value) =
    patched state (record state.draft { min_points_input = value })
question_draft_reducer state (max_points value) =
    patched state (record state.draft { max_points_input = value })
question_draft_reducer state (faster_points value) =
    patched state (record state.draft { faster_answers_more_points = value })
question_draft_reducer state (partial_scoring value) =
    patched state (record state.draft { partial_scoring = is_multiple state.draft.type && value })
question_draft_reducer state (leaderboard value) =
    patched state (record state.draft { show_leaderboard_after = value })
question_draft_reducer state (add_option id) =
    if leb 100 (length state.draft.options)
    then state
    else with_options state (state.draft.options ++ next_option state.draft id ∷ [])
question_draft_reducer state (delete_option id) =
    if leb (length state.draft.options) 2
    then state
    else with_options state (
        ensure_correct_option (keep (λ o. not (has_key id o)) state.draft.options) state.draft.type
          state.draft.evaluation_mode)
question_draft_reducer state (option_text id value) =
    with_options state (on_option id (λ o. record o { text = value }) state.draft.options)
question_draft_reducer state (option_image id value) =
    with_options state (on_option id (λ o. record o { image_url = value }) state.draft.options)
question_draft_reducer state (toggle_correct id) =
    with_options state (toggle state.draft.evaluation_mode state.draft.type id state.draft.options)
question_draft_reducer state (move_option from to) =
    with_options state (move state.draft.options from to)
