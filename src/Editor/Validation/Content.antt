-- ===== src/Editor/Validation/Content.antt =====
-- `validateEditorContent` of model/editor.ts.
use pro_slides_go.Base.{
  ◌≤◌, String, ◌≡◌, ◌↔◌, inl, inr, Bool, false, ◌&&◌, Option, none, List, [], arith, Bool-cases,
  value_or, ◌∷◌,
}
use pro_slides_go.Js.Text.{is_blank, trim, text_length}
use pro_slides_go.Editor.Model.{ContentLike}
use pro_slides_go.Editor.Validation.{
  Issue, plain, issue_if, first_message, longer, no_issue_if, is_empty_iff, gather, gather_iff,
}
use pro_slides_go.Editor.Wording.{
  content_image_too_long_text, content_required_text, content_text_too_long_text,
  content_title_too_long_text,
}

pub data ContentField : Type 0 where
  content title content_text content_image : ContentField

-- `content ?? {}`.
abbrev pub no_content : ContentLike
no_content = record { title = none; content_text = none; content_image_url = none }

module _ (c : Option ContentLike) where
  abbrev pub shown_title : String
  shown_title = value_or (value_or c no_content).title ""

  abbrev pub shown_text : String
  shown_text = value_or (value_or c no_content).content_text ""

  abbrev pub shown_image : String
  shown_image = value_or (value_or c no_content).content_image_url ""

  abbrev content_missing : Bool
  content_missing = is_blank shown_title && (is_blank shown_text && is_blank shown_image)

  abbrev content_issues : List (List (Issue ContentField))
  content_issues =
      issue_if content_missing (plain "content_required" content content_required_text)
      ∷ issue_if (longer 500 shown_title)
          (plain "content_title_too_long" title content_title_too_long_text)
      ∷ issue_if (longer 20000 shown_text)
          (plain "content_text_too_long" content_text content_text_too_long_text)
      ∷ issue_if (longer 4096 shown_image)
          (plain "content_image_too_long" content_image content_image_too_long_text)
      ∷ []

  unfoldable pub validate_editor_content : List (Issue ContentField)
  validate_editor_content = gather content_issues

  unfoldable pub get_content_validation_error : Option String
  get_content_validation_error = first_message validate_editor_content

  -- What a content slide has to satisfy, in words of its own.
  pub record IsShowable : Type 0 where
    pub something : ¬ ((trim shown_title ≡ "") × (trim shown_text ≡ "") × (trim shown_image ≡ ""))
    pub title_fits : text_length shown_title ≤ 500
    pub text_fits : text_length shown_text ≤ 20000
    pub image_fits : text_length shown_image ≤ 4096

  something_of :
      content_missing ≡ false
      → ¬ ((trim shown_title ≡ "") × (trim shown_text ≡ "") × (trim shown_image ≡ ""))
  something_of h (a, b, c') = ground (
    arith,
    h,
    (is_empty_iff (trim shown_title)).1 a,
    (is_empty_iff (trim shown_text)).1 b,
    (is_empty_iff (trim shown_image)).1 c',
  )

  missing_of :
      ¬ ((trim shown_title ≡ "") × (trim shown_text ≡ "") × (trim shown_image ≡ ""))
      → content_missing ≡ false
  missing_of h = elim (Bool-cases content_missing) [
    | inr present ↦ present
    | inl blank ↦ absurd (
        h (
          (is_empty_iff (trim shown_title)).0 (ground (arith, blank)),
          (is_empty_iff (trim shown_text)).0 (ground (arith, blank)),
          (is_empty_iff (trim shown_image)).0 (ground (arith, blank)),
        ))
  ]

  -- The validator has nothing to report exactly for content with a title, a text or an image that
  -- is not blank, each within its limit of code points.
  pub validate_editor_content_iff : (validate_editor_content ≡ []) ↔ IsShowable
  unfolding validate_editor_content
  validate_editor_content_iff = (
    λ h.
        let (a, (b, (c', (d, _)))) = (gather_iff content_issues).0 h in
        record {
          something = something_of ((no_issue_if content_missing _).0 a);
          title_fits = ground (arith, b);
          text_fits = ground (arith, c');
          image_fits = ground (arith, d);
        },
    λ s. (gather_iff content_issues).1 (
      (no_issue_if content_missing _).1 (missing_of s.something),
      (
        ground (arith, s.title_fits),
        (ground (arith, s.text_fits), (ground (arith, s.image_fits), tt)),
      ),
    ),
  )
