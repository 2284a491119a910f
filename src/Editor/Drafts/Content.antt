-- ===== src/Editor/Drafts/Content.antt =====
-- The draft of a content slide, of
-- apps/web/src/modules/presentations/editor/model/contentDraft.ts.
use pro_slides_go.Base.{
  ℕ, String, ◌≡◌, refl, ◌↔◌, ◌⊎◌, inr, Bool, true, false, ◌&&◌, Option, none, some, List, [], ◌==◌,
  str_eq, eq_refl, eq_iff, arith,
}
use pro_slides_go.Js.Text.{trim}
use pro_slides_go.Editor.Model.{EditorSlide, EditorItemKind, content, activity}
use pro_slides_go.Editor.Validation.{Issue}
use pro_slides_go.Editor.Validation.Content.{ContentField, validate_editor_content}
use pro_slides_go.Editor.Slides.{present_or}
use pro_slides_go.Editor.Drafts.{DraftState, restart, patched, unless_issue, text_or-nil}

pub record ContentDraft : Type 0 where
  pub slide_id : String
  pub revision : ℕ
  pub order : ℕ
  pub title : String
  pub text : String
  pub image_url : String

pub data ContentDraftAction : Type 0 where
  reset saved : ContentDraft → ContentDraftAction
  set_title set_text set_image : String → ContentDraftAction

abbrev draft_of : EditorItemKind → EditorSlide → Option ContentDraft
draft_of activity slide = none
draft_of content slide = some (record {
  slide_id = slide.slide_id;
  revision = slide.revision;
  order = slide.order;
  title = present_or slide.title "";
  text = present_or slide.content_text "";
  image_url = present_or slide.content_image_url "";
})

unfoldable pub create_content_draft : EditorSlide → Option ContentDraft
create_content_draft slide = draft_of slide.item_kind slide

unfoldable pub content_draft_reducer :
    DraftState ContentDraft → ContentDraftAction → DraftState ContentDraft
content_draft_reducer state (reset d) = restart d
content_draft_reducer state (saved d) = restart d
content_draft_reducer state (set_title value) = patched state (record state.draft { title = value })
content_draft_reducer state (set_text value) = patched state (record state.draft { text = value })
content_draft_reducer state (set_image value) =
    patched state (record state.draft { image_url = value })

unfoldable pub content_draft_equals : ContentDraft → ContentDraft → Bool
content_draft_equals l r =
    str_eq l.slide_id r.slide_id
    && (l.revision == r.revision
        && (l.order == r.order
            && (str_eq l.title r.title
                && (str_eq l.text r.text && str_eq l.image_url r.image_url))))

unfoldable pub validate_content_draft : ContentDraft → List (Issue ContentField)
validate_content_draft d = validate_editor_content (
    some (record {
      title = some d.title;
      content_text = some d.text;
      content_image_url = some d.image_url;
    }))

abbrev pub slide_of : ContentDraft → EditorSlide
slide_of d = record {
  slide_id = d.slide_id;
  revision = d.revision;
  order = d.order;
  item_kind = content;
  activity_kind = none;
  schema_version = none;
  show_leaderboard_after = false;
  question = none;
  text_activity = none;
  title = some d.title;
  content_text = some d.text;
  content_image_url = some (trim d.image_url);
}

unfoldable pub content_draft_to_editor_slide : ContentDraft → String ⊎ EditorSlide
unfolding validate_content_draft
content_draft_to_editor_slide d = unless_issue (validate_content_draft d) (slide_of d)

rebuilt :
    (a a' b b' c c' d d' : String) (m m' n n' : ℕ)
    → a ≡ a'
    → b ≡ b'
    → c ≡ c'
    → d ≡ d'
    → m ≡ m'
    → n ≡ n'
    → ◌≡◌ {A = ContentDraft}
        (record { slide_id = a; revision = m; order = n; title = b; text = c; image_url = d })
        (record { slide_id = a'; revision = m'; order = n'; title = b'; text = c'; image_url = d' })
rebuilt a a' b b' c c' d d' m m' n n' ea eb ec ed em en = cc

-- The comparison of two drafts holds exactly if they are the same draft.
pub content_draft_equals_iff : (l r : ContentDraft) → (content_draft_equals l r ≡ true) ↔ (l ≡ r)
unfolding content_draft_equals
content_draft_equals_iff l r = (
  λ h.
      rebuilt l.slide_id r.slide_id l.title r.title l.text r.text l.image_url r.image_url l.revision
        r.revision l.order r.order ((eq_iff l.slide_id r.slide_id).0 (ground (arith, h)))
        ((eq_iff l.title r.title).0 (ground (arith, h)))
        ((eq_iff l.text r.text).0 (ground (arith, h)))
        ((eq_iff l.image_url r.image_url).0 (ground (arith, h))) (ground (arith, h))
        (ground (arith, h)),
  λ h.
      rw h
        (ground (arith, eq_refl r.slide_id, eq_refl r.title, eq_refl r.text, eq_refl r.image_url)),
)

-- A draft that the validator has nothing against becomes a slide, and the draft of that slide is
-- the same but for the white space around its image.
pub content_draft_to_editor_slide-create :
    (d : ContentDraft)
    → validate_content_draft d ≡ []
    → (s : EditorSlide) × (content_draft_to_editor_slide d ≡ inr s)
      × (create_content_draft s ≡ some (record d { image_url = trim d.image_url }))
unfolding content_draft_to_editor_slide create_content_draft
content_draft_to_editor_slide-create d h = (
  slide_of d,
  rw h refl,
  rw (text_or-nil d.title) (rw (text_or-nil d.text) (rw (text_or-nil (trim d.image_url)) refl)),
)
