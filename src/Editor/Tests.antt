-- ===== src/Editor/Tests.antt =====
-- The editor's theorems at concrete questions, slides and drafts.
pub mod Saved
pub mod Appearance
use pro_slides_go.Base.{
  ℕ, String, ◌≡◌, ◌≢◌, refl, inr, ◌↔◌, Bool, true, false, none, some, List, [], ◌∷◌, pos, get_elem?,
  remove_at, suc, arith, eq_of_some, Bool-cases, str_eq, eq_iff, ◌≤◌, inl,
}
use pro_slides_go.Js.Number.{int}
use pro_slides_go.Js.Text.{trim}
use mathlib.Core.Path.{subst}
use pro_slides_go.Editor.Deck.{
  has_id, reorder_editor_slides, at_order, without, active_slide_id_after_deletion,
}
use pro_slides_go.Editor.Validation.{outside}
use pro_slides_go.Editor.Drafts.Question.Counts.{carriers}
use pro_slides_go.Editor.Model.{
  QuestionLike, OptionLike, ContentLike, TextActivityLike, EditorSlide, EditorQuestion,
  EditorOption, content, activity, single, multiple, correctness, ScoringMode, known,
}
use pro_slides_go.Editor.Validation.Content.{
  validate_editor_content, IsShowable, validate_editor_content_iff,
}
use pro_slides_go.Editor.Validation.TextActivity.{
  validate_editor_text_activity, IsAskable, validate_editor_text_activity_iff,
}
use pro_slides_go.Editor.Validation.Question.{validate_editor_question}
use pro_slides_go.Editor.Validation.Question.Meaning.{IsRunnable}
use pro_slides_go.Editor.Validation.Question.Laws.{validate_editor_question_iff}
use pro_slides_go.Editor.Slides.{convert_slide_to_question}
use pro_slides_go.Editor.Slides.Laws.{IsConverted, convert_slide_to_question-IsConverted}
use pro_slides_go.Editor.Deck.Laws.{
  times, ids, Remains, reorder_editor_slides-times, reorder_editor_slides-moved,
  active_slide_id_after_deletion-Remains,
}
use pro_slides_go.Editor.Drafts.{restart}
use pro_slides_go.Editor.Drafts.Content.{
  ContentDraft, content_draft_equals, content_draft_equals_iff, content_draft_to_editor_slide,
  content_draft_to_editor_slide-create, create_content_draft, validate_content_draft,
}
use pro_slides_go.Editor.Drafts.WordCloud.{
  WordCloudDraft, word_cloud_draft_to_editor_slide, word_cloud_draft_to_editor_slide-create,
  create_word_cloud_draft, validate_word_cloud_draft,
}
use pro_slides_go.Editor.Drafts.Question.{
  QuestionDraft, QuestionDraftOption, delete_option, question_draft_reducer,
}
use pro_slides_go.Editor.Drafts.Question.Marks.{IsSound, question_draft_reducer-IsSound}

abbrev offered : String → Bool → OptionLike
offered id is_correct = record {
  option_id = some id;
  text = some "yes";
  option_text = none;
  is_correct = some is_correct;
  image_url = none;
}

abbrev asked : QuestionLike
asked = record {
  title = none;
  text = some " why? ";
  question_text = none;
  question_type = some (known single);
  evaluation_mode = none;
  scoring_mode = none;
  time_limit = some (int 30);
  question_time = none;
  min_point = some (int 0);
  max_point = some (int 100);
  image_url = none;
  question_image = none;
  faster_answers_more_points = none;
  partial_scoring = none;
  options = some (offered "a" true ∷ offered "b" false ∷ []);
}

validate_editor_question_iff_example :
    (validate_editor_question (some asked) ≡ [])
    ↔ ((b : QuestionLike) × (some asked ≡ some b) × IsRunnable b)
validate_editor_question_iff_example = validate_editor_question_iff (some asked)

abbrev cloud_like : TextActivityLike
cloud_like = record {
  title = none;
  text = some "words";
  image_url = none;
  max_length = some (int 80);
  max_words = some (int 3);
  time_limit = some (int 30);
  aggregation = some "word_frequency";
}

validate_editor_text_activity_iff_example :
    (validate_editor_text_activity (some cloud_like) ≡ [])
    ↔ ((b : TextActivityLike) × (some cloud_like ≡ some b) × IsAskable b)
validate_editor_text_activity_iff_example = validate_editor_text_activity_iff (some cloud_like)

abbrev shown : ContentLike
shown = record { title = some "title"; content_text = none; content_image_url = none }

validate_editor_content_iff_example :
    (validate_editor_content (some shown) ≡ []) ↔ IsShowable (some shown)
validate_editor_content_iff_example = validate_editor_content_iff (some shown)

abbrev slide : String → ℕ → EditorSlide
slide id order = record {
  slide_id = id;
  revision = 1;
  order = order;
  item_kind = content;
  activity_kind = none;
  schema_version = none;
  show_leaderboard_after = false;
  question = none;
  text_activity = none;
  title = some "title";
  content_text = some "";
  content_image_url = some "";
}

abbrev one_option : EditorOption
one_option = record { option_id = "o"; text = "yes"; is_correct = false; image_url = ""; order = 7 }

abbrev old_question : EditorQuestion
old_question = record {
  question_id = "q";
  title = "";
  text = "why?";
  question_text = "why?";
  question_type = multiple;
  evaluation_mode = some correctness;
  scoring_mode = some ScoringMode.points;
  time_limit = int 10;
  question_time = int 10;
  min_point = int 0;
  max_point = int 100;
  image_url = "";
  question_image = "";
  faster_answers_more_points = true;
  partial_scoring = true;
  options = one_option ∷ [];
}

abbrev question_slide : EditorSlide
question_slide = record (slide "s" 0) { item_kind = activity; question = some old_question }

abbrev next_id : ℕ → String × ℕ
next_id n = ("new", suc n)

convert_slide_to_question-IsConverted_example :
    (q : EditorQuestion) × ((convert_slide_to_question next_id question_slide single none
        0).0.question
      ≡ some q)
    × (q.question_type ≡ single)
    × IsConverted q
convert_slide_to_question-IsConverted_example =
    convert_slide_to_question-IsConverted next_id question_slide single none 0

abbrev deck : List EditorSlide
deck = slide "a" 0 ∷ slide "b" 1 ∷ slide "c" 2 ∷ []

reorder_editor_slides-times_example :
    times "a" (reorder_editor_slides deck (pos 0) (pos 2)) ≡ times "a" deck
reorder_editor_slides-times_example = reorder_editor_slides-times deck (pos 0) (pos 2) "a"

apart : ◌≢◌ {A = ℕ} 0 2
apart e = absurd (omega (arith, e))

reorder_editor_slides-moved_example :
    (get_elem? (reorder_editor_slides deck (pos 0) (pos 2)) 2 ≡ some (at_order 2 (slide "a" 0)))
    × (ids (remove_at 2 (reorder_editor_slides deck (pos 0) (pos 2))) ≡ ids (remove_at 0 deck))
reorder_editor_slides-moved_example =
    reorder_editor_slides-moved deck 0 2 (slide "a" 0) (omega arith) (omega arith) apart refl

abbrev active_in : (a : String) → some "c" ≡ some a → has_id a deck ≡ true
active_in a e = subst (λ x. has_id x deck ≡ true) (eq_of_some e) refl

active_slide_id_after_deletion-Remains_example :
    Remains (without "c" deck) (active_slide_id_after_deletion deck "c" (some "c"))
active_slide_id_after_deletion-Remains_example =
    active_slide_id_after_deletion-Remains deck "c" (some "c") refl active_in

abbrev pub content_draft : ContentDraft
content_draft = record {
  slide_id = "s";
  revision = 2;
  order = 1;
  title = "title";
  text = "";
  image_url = " image ";
}

content_draft_equals_iff_example :
    (content_draft_equals content_draft content_draft ≡ true) ↔ (content_draft ≡ content_draft)
content_draft_equals_iff_example = content_draft_equals_iff content_draft content_draft

content_draft_to_editor_slide-create_example :
    (s : EditorSlide) × (content_draft_to_editor_slide content_draft ≡ inr s)
    × (create_content_draft s
        ≡ some (record content_draft { image_url = trim content_draft.image_url }))
unfolding validate_content_draft validate_editor_content trim
content_draft_to_editor_slide-create_example =
    content_draft_to_editor_slide-create content_draft refl

abbrev cloud_draft : WordCloudDraft
cloud_draft = record {
  slide_id = "s";
  revision = 2;
  order = 1;
  title = "";
  prompt = "words";
  image_url = "";
  max_length = int 80;
  max_words = int 3;
  duration_seconds = int 30;
}

word_cloud_draft_to_editor_slide-create_example :
    (s : EditorSlide) × (word_cloud_draft_to_editor_slide cloud_draft ≡ inr s)
    × (create_word_cloud_draft s
        ≡ some (record cloud_draft { image_url = trim cloud_draft.image_url }))
unfolding validate_word_cloud_draft validate_editor_text_activity trim outside
word_cloud_draft_to_editor_slide-create_example =
    word_cloud_draft_to_editor_slide-create cloud_draft refl

abbrev draft_option : String → Bool → QuestionDraftOption
draft_option id is_correct = record {
  id = id;
  text = "yes";
  is_correct = is_correct;
  image_url = "";
}

abbrev pub question_draft : QuestionDraft
question_draft = record {
  slide_id = "s";
  revision = 1;
  order = 0;
  show_leaderboard_after = false;
  question_id = "s";
  title = "";
  text = "why?";
  type = single;
  evaluation_mode = correctness;
  scoring_mode = ScoringMode.points;
  time_input = "10";
  min_points_input = "0";
  max_points_input = "100";
  image_url = "";
  faster_answers_more_points = false;
  partial_scoring = false;
  options = draft_option "a" true ∷ draft_option "b" false ∷ draft_option "c" false ∷ [];
}

carried_once : (id : String) → carriers id question_draft.options ≤ 1
carried_once id = elim (Bool-cases (str_eq "a" id)) [
  | inl e ↦ subst (λ x. carriers x question_draft.options ≤ 1) ((eq_iff "a" id).0 e) (omega arith)
  | inr e ↦ elim (Bool-cases (str_eq "b" id)) [
    | inl f ↦ subst (λ x. carriers x question_draft.options ≤ 1) ((eq_iff "b" id).0 f) (omega arith)
    | inr f ↦ ground (arith, e, f)
  ]
]

question_draft-IsSound : IsSound question_draft
question_draft-IsSound = record { enough = omega arith; apart = carried_once; marks = refl }

question_draft_reducer-IsSound_example :
    IsSound (question_draft_reducer (restart question_draft) (delete_option "a")).draft
question_draft_reducer-IsSound_example =
    question_draft_reducer-IsSound (restart question_draft) (delete_option "a")
      question_draft-IsSound tt
