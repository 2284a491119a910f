-- ===== src/Editor/Drafts/WordCloud.antt =====
-- The draft of a word cloud, of apps/web/src/modules/presentations/editor/model/wordCloudDraft.ts.
use pro_slides_go.Base.{
  if◌then◌else◌, ℕ, ◌≤◌, String, ◌≡◌, refl, ◌⊎◌, inr, Bool, true, false, ◌&&◌, Option, none, some,
  List, [], ◌==◌, str_eq, arith, eq_of_some, sym,
}
use pro_slides_go.Js.Number.{Number, int, num_or, num_eq}
use mathlib.Core.Path.{subst}
use pro_slides_go.Js.Text.{trim}
use pro_slides_go.Editor.Model.{
  EditorSlide, EditorItemKind, content, activity, TextActivityLike, EditorTextActivity,
}
use pro_slides_go.Editor.Validation.{Issue, InRange}
use pro_slides_go.Editor.Validation.TextActivity.{
  TextActivityField, validate_editor_text_activity, IsAskable, validate_editor_text_activity_iff,
}
use pro_slides_go.Editor.Slides.{text_or, is_text}
use pro_slides_go.Editor.Drafts.{DraftState, restart, patched, unless_issue, text_or-nil}

pub record WordCloudDraft : Type 0 where
  pub slide_id : String
  pub revision : ℕ
  pub order : ℕ
  pub title : String
  pub prompt : String
  pub image_url : String
  pub max_length : Number
  pub max_words : Number
  pub duration_seconds : Number

pub data WordCloudDraftAction : Type 0 where
  reset saved : WordCloudDraft → WordCloudDraftAction
  set_title set_prompt set_image : String → WordCloudDraftAction
  set_max_length set_max_words set_duration : Number → WordCloudDraftAction

abbrev is_first : Option ℕ → Bool
is_first none = false
is_first (some version) = version == 1

abbrev is_activity : EditorItemKind → Bool
is_activity content = false
is_activity activity = true

abbrev draft_of : EditorSlide → EditorTextActivity → WordCloudDraft
draft_of slide a = record {
  slide_id = slide.slide_id;
  revision = slide.revision;
  order = slide.order;
  title = text_or a.title "";
  prompt = text_or a.text "";
  image_url = text_or a.image_url "";
  max_length = num_or a.max_length (int 80);
  max_words = num_or a.max_words (int 3);
  duration_seconds = num_or a.time_limit (int 30);
}

unfoldable pub create_word_cloud_draft : EditorSlide → Option WordCloudDraft
create_word_cloud_draft slide =
    if is_activity slide.item_kind && (is_text slide.activity_kind && is_first slide.schema_version)
    then elim slide.text_activity [ none ↦ none | some a ↦ some (draft_of slide a) ]
    else none

unfoldable pub word_cloud_draft_reducer :
    DraftState WordCloudDraft → WordCloudDraftAction → DraftState WordCloudDraft
word_cloud_draft_reducer state (reset d) = restart d
word_cloud_draft_reducer state (saved d) = restart d
word_cloud_draft_reducer state (set_title value) =
    patched state (record state.draft { title = value })
word_cloud_draft_reducer state (set_prompt value) =
    patched state (record state.draft { prompt = value })
word_cloud_draft_reducer state (set_image value) =
    patched state (record state.draft { image_url = value })
word_cloud_draft_reducer state (set_max_length value) =
    patched state (record state.draft { max_length = value })
word_cloud_draft_reducer state (set_max_words value) =
    patched state (record state.draft { max_words = value })
word_cloud_draft_reducer state (set_duration value) =
    patched state (record state.draft { duration_seconds = value })

unfoldable pub word_cloud_draft_equals : WordCloudDraft → WordCloudDraft → Bool
word_cloud_draft_equals l r =
    str_eq l.slide_id r.slide_id
    && (l.revision == r.revision
        && (l.order == r.order
            && (str_eq l.title r.title
                && (str_eq l.prompt r.prompt
                    && (str_eq l.image_url r.image_url
                        && (num_eq l.max_length r.max_length
                            && (num_eq l.max_words r.max_words
                                && num_eq l.duration_seconds r.duration_seconds)))))))

abbrev pub activity_like : WordCloudDraft → TextActivityLike
activity_like d = record {
  title = some d.title;
  text = some d.prompt;
  image_url = some d.image_url;
  max_length = some d.max_length;
  max_words = some d.max_words;
  time_limit = some d.duration_seconds;
  aggregation = some "word_frequency";
}

unfoldable pub validate_word_cloud_draft : WordCloudDraft → List (Issue TextActivityField)
validate_word_cloud_draft d = validate_editor_text_activity (some (activity_like d))

abbrev pub slide_of : WordCloudDraft → EditorSlide
slide_of d = record {
  slide_id = d.slide_id;
  revision = d.revision;
  order = d.order;
  item_kind = activity;
  activity_kind = some "text";
  schema_version = some 1;
  show_leaderboard_after = false;
  question = none;
  text_activity = some (record {
    title = d.title;
    text = d.prompt;
    image_url = trim d.image_url;
    max_length = d.max_length;
    max_words = d.max_words;
    time_limit = d.duration_seconds;
  });
  title = none;
  content_text = none;
  content_image_url = none;
}

unfoldable pub word_cloud_draft_to_editor_slide : WordCloudDraft → String ⊎ EditorSlide
unfolding validate_word_cloud_draft
word_cloud_draft_to_editor_slide d = unless_issue (validate_word_cloud_draft d) (slide_of d)

-- A number in a range that starts above 0 is truthy.
num_or-InRange : (lo hi : ℕ) (n d : Number) → 1 ≤ lo → InRange lo hi n → num_or n d ≡ n
num_or-InRange lo hi n d h (k, e, low, high) = rw e (ground arith)

back :
    (d : WordCloudDraft)
    → num_or d.max_length (int 80) ≡ d.max_length
    → num_or d.max_words (int 3) ≡ d.max_words
    → num_or d.duration_seconds (int 30) ≡ d.duration_seconds
    → create_word_cloud_draft (slide_of d) ≡ some (record d { image_url = trim d.image_url })
unfolding create_word_cloud_draft
back d a b c = rw a (
    rw b (
      rw c (
        rw (text_or-nil d.title)
          (rw (text_or-nil d.prompt) (rw (text_or-nil (trim d.image_url)) refl)))))

-- A draft that the validator has nothing against becomes a slide, and the draft of that slide is
-- the same but for the white space around its image: no number of it is taken for a missing one.
pub word_cloud_draft_to_editor_slide-create :
    (d : WordCloudDraft)
    → validate_word_cloud_draft d ≡ []
    → (s : EditorSlide) × (word_cloud_draft_to_editor_slide d ≡ inr s)
      × (create_word_cloud_draft s ≡ some (record d { image_url = trim d.image_url }))
unfolding word_cloud_draft_to_editor_slide create_word_cloud_draft validate_word_cloud_draft
word_cloud_draft_to_editor_slide-create d h =
    let (a, e, ok) = (validate_editor_text_activity_iff (some (activity_like d))).0 h in
    let fits : IsAskable (activity_like d) = subst IsAskable (sym (eq_of_some e)) ok in
    (
      slide_of d,
      rw h refl,
      back d (num_or-InRange 1 500 d.max_length (int 80) (omega arith) fits.length_bounds)
          (num_or-InRange 1 10 d.max_words (int 3) (omega arith) fits.word_bounds)
          (num_or-InRange 1 86400 d.duration_seconds (int 30) (omega arith) fits.time_bounds),
    )
