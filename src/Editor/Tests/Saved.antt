-- ===== src/Editor/Tests/Saved.antt =====
-- The theorems about saved slides, at concrete drafts.
use pro_slides_go.Base.{◌≡◌, refl, inr, some, none, [], ◌∷◌, ◌↔◌, ◌≢◌, All, arith}
use pro_slides_go.Editor.Drafts.Question.Saved.{
  canonical, question_draft_to_editor_slide-create, saved_of_valid,
}
use pro_slides_go.Editor.Tests.{question_draft}
use pro_slides_go.Js.Number.{int}
use pro_slides_go.Js.Text.{trim}
use pro_slides_go.Editor.Validation.{outside}
use pro_slides_go.Editor.Model.{EditorSlide}
use pro_slides_go.Editor.Registry.Laws.{get_presentation_validation_error_iff}
use pro_slides_go.Editor.Drafts.Question.Slide.{
  create_question_draft, question_draft_to_editor_slide, saved_slide, validate_question_draft,
}
use pro_slides_go.Editor.Registry.{get_presentation_validation_error, slide_error}
use pro_slides_go.Editor.Drafts.Integer.{normalize_integer_input, parse_draft_integer}
use pro_slides_go.Editor.Registry.Saved.{of_question, saved_by_panel-no_error, writes_persian}
use pro_slides_go.Editor.Drafts.Integer.Laws.{
  parse_draft_integer-persian_numeral, persian_numeral, write_persian,
}
use pro_slides_go.Editor.Validation.Question.{validate_editor_question}
use pro_slides_go.Editor.Registry.Ready.{IsReady}

question_draft_valid : validate_question_draft question_draft ≡ []
unfolding validate_question_draft validate_editor_question trim outside parse_draft_integer
    normalize_integer_input
question_draft_valid = refl

parse_draft_integer-persian_numeral_example : parse_draft_integer (persian_numeral 1405) ≡ int 1405
parse_draft_integer-persian_numeral_example = parse_draft_integer-persian_numeral 1405 (omega arith)

question_draft_to_editor_slide-create_example :
    (s : EditorSlide) × (question_draft_to_editor_slide question_draft ≡ inr s)
    × (create_question_draft write_persian s ≡ some (canonical write_persian question_draft))
    × (question_draft_to_editor_slide (canonical write_persian question_draft) ≡ inr s)
question_draft_to_editor_slide-create_example =
    question_draft_to_editor_slide-create write_persian question_draft writes_persian
      question_draft_valid

get_presentation_validation_error_iff_example :
    (get_presentation_validation_error (saved_slide question_draft ∷ []) ≡ none)
    ↔ ((saved_slide question_draft ∷ [] ≢ []) × All IsReady (saved_slide question_draft ∷ []))
get_presentation_validation_error_iff_example =
    get_presentation_validation_error_iff (saved_slide question_draft ∷ [])

saved_by_panel-no_error_example : slide_error (saved_slide question_draft) ≡ none
saved_by_panel-no_error_example =
    saved_by_panel-no_error (of_question question_draft) (saved_slide question_draft)
      (saved_of_valid question_draft question_draft_valid)
