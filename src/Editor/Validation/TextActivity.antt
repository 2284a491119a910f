-- ===== src/Editor/Validation/TextActivity.antt =====
-- `validateEditorTextActivity` of model/editor.ts.
use pro_slides_go.Base.{
  ◌≤◌, String, ◌≡◌, ◌≢◌, ◌↔◌, Bool, true, false, not, Option, none, some, List, [], ◌∷◌, str_eq,
  eq_iff, arith, value_or, ap, refl, sym, eq_of_some, All,
}
use pro_slides_go.Js.Number.{to_number}
use pro_slides_go.Js.Text.{trim, text_length, is_empty}
use pro_slides_go.Editor.Model.{TextActivityLike}
use pro_slides_go.Editor.Validation.{
  Issue, plain, issue_if, issue_either, first_message, longer, is_empty_iff, outside, InRange,
  gather, no_issue_if, gather_iff, outside_iff,
}
use pro_slides_go.Editor.Wording.{
  text_activity_required_text, prompt_required_text, prompt_too_long_text, title_too_long_text,
  image_too_long_text, max_length_invalid_text, max_words_invalid_text, duration_invalid_text,
  aggregation_invalid_text,
}
use mathlib.Core.Path.{subst}

pub data TextActivityField : Type 0 where
  text_activity prompt_text prompt_image max_length max_words duration : TextActivityField

abbrev pub counts_words : Option String → Bool
counts_words none = false
counts_words (some s) = str_eq s "word_frequency"

counted_iff : (o : Option String) → (counts_words o ≡ true) ↔ (o ≡ some "word_frequency")
counted_iff none = (λ h. cc, λ h. cc)
counted_iff (some s) =
    (λ h. ap some ((eq_iff s "word_frequency").0 h), λ h. (eq_iff s "word_frequency").1 (cc))

module _ (a : TextActivityLike) where
  abbrev pub shown_prompt : String
  shown_prompt = trim (value_or a.text "")

  abbrev pub shown_title : String
  shown_title = value_or a.title ""

  abbrev pub shown_image : String
  shown_image = value_or a.image_url ""

  abbrev pub activity_issues : List (List (Issue TextActivityField))
  activity_issues =
      issue_either (is_empty shown_prompt)
        (plain "prompt_required" prompt_text prompt_required_text) (longer 10000 shown_prompt)
        (plain "prompt_too_long" prompt_text prompt_too_long_text)
      ∷ issue_if (longer 500 shown_title) (plain "title_too_long" prompt_text title_too_long_text)
      ∷ issue_if (longer 4096 shown_image) (plain "image_too_long" prompt_image image_too_long_text)
      ∷ issue_if (outside 1 500 (to_number a.max_length))
          (plain "max_length_invalid" max_length max_length_invalid_text)
      ∷ issue_if (outside 1 10 (to_number a.max_words))
          (plain "max_words_invalid" max_words max_words_invalid_text)
      ∷ issue_if (outside 1 86400 (to_number a.time_limit))
          (plain "duration_invalid" duration duration_invalid_text)
      ∷ issue_if (not (counts_words a.aggregation))
          (plain "aggregation_invalid" text_activity aggregation_invalid_text)
      ∷ []

  -- What a word cloud has to satisfy, in words of its own.
  pub record IsAskable : Type 0 where
    pub asked : trim (value_or a.text "") ≢ ""
    pub prompt_fits : text_length (trim (value_or a.text "")) ≤ 10000
    pub title_fits : text_length (value_or a.title "") ≤ 500
    pub image_fits : text_length (value_or a.image_url "") ≤ 4096
    pub length_bounds : InRange 1 500 (to_number a.max_length)
    pub word_bounds : InRange 1 10 (to_number a.max_words)
    pub time_bounds : InRange 1 86400 (to_number a.time_limit)
    pub counted : a.aggregation ≡ some "word_frequency"

  asked_iff : (is_empty shown_prompt ≡ false) ↔ (shown_prompt ≢ "")
  asked_iff = (
    λ h e. ground (arith, h, (is_empty_iff shown_prompt).1 e),
    λ h. ground (arith, h, (is_empty_iff shown_prompt).0),
  )

  askable_of : All (λ xs. xs ≡ []) (activity_issues) → IsAskable
  askable_of (p, (t, (i, (l, (w, (d, (c, _))))))) = record {
    asked = asked_iff.0 (ground (arith, p));
    prompt_fits = ground (arith, p);
    title_fits = ground (arith, t);
    image_fits = ground (arith, i);
    length_bounds = (outside_iff 1 500 (to_number a.max_length)).0 ((no_issue_if _ _).0 l);
    word_bounds = (outside_iff 1 10 (to_number a.max_words)).0 ((no_issue_if _ _).0 w);
    time_bounds = (outside_iff 1 86400 (to_number a.time_limit)).0 ((no_issue_if _ _).0 d);
    counted = (counted_iff a.aggregation).0 (ground (arith, c));
  }

  nothing_of : IsAskable → All (λ xs. xs ≡ []) (activity_issues)
  nothing_of s = (
    ground (arith, asked_iff.1 s.asked, s.prompt_fits),
    (
      ground (arith, s.title_fits),
      (
        ground (arith, s.image_fits),
        (
          (no_issue_if _ _).1 ((outside_iff 1 500 (to_number a.max_length)).1 s.length_bounds),
          (
            (no_issue_if _ _).1 ((outside_iff 1 10 (to_number a.max_words)).1 s.word_bounds),
            (
              (no_issue_if _ _).1 ((outside_iff 1 86400 (to_number a.time_limit)).1 s.time_bounds),
              (ground (arith, (counted_iff a.aggregation).1 s.counted), tt),
            ),
          ),
        ),
      ),
    ),
  )

unfoldable pub validate_editor_text_activity :
    Option TextActivityLike → List (Issue TextActivityField)
validate_editor_text_activity none =
    plain "text_activity_required" text_activity text_activity_required_text ∷ []
validate_editor_text_activity (some a) = gather (activity_issues a)

unfoldable pub get_text_activity_validation_error : Option TextActivityLike → Option String
unfolding validate_editor_text_activity
get_text_activity_validation_error a = first_message (validate_editor_text_activity a)

-- The validator has nothing to report exactly for an activity that is there and whose prompt,
-- title, image, limits, duration and aggregation are within their bounds.
pub validate_editor_text_activity_iff :
    (a : Option TextActivityLike)
    → (validate_editor_text_activity a ≡ []) ↔ ((b : TextActivityLike) × (a ≡ some b) × IsAskable b)
unfolding validate_editor_text_activity
validate_editor_text_activity_iff none = (λ h. cc, λ (b, e, h). cc)
validate_editor_text_activity_iff (some a) = (
  λ h. (a, refl, askable_of a ((gather_iff (activity_issues a)).0 h)),
  λ (b, e, h).
      (gather_iff (activity_issues a)).1 (nothing_of a (subst IsAskable (sym (eq_of_some e)) h)),
)
