-- ===== src/Editor/Registry/Saved.antt =====
-- The slides that the panels of the editor save, against `getPresentationValidationError` of
-- apps/web/src/modules/presentations/model/itemRegistry.ts.
use pro_slides_go.Base.{
  ℕ, String, ◌≡◌, refl, ◌⊎◌, inl, inr, Bool, true, none, some, List, [], ◌∷◌, arith, map, map_from,
  sym, suc, ◌≢◌, ◌&&◌, eq_of_some,
}
use pro_slides_go.Editor.Model.{EditorSlide, EvaluationMode, ScoringMode}
use pro_slides_go.Js.Text.Laws.{trim_idem, count-trim-le}
use pro_slides_go.Editor.Validation.{Issue}
use pro_slides_go.Editor.Drafts.Question.{QuestionDraft, QuestionDraftOption}
use pro_slides_go.Editor.Slides.{evaluates, scores}
use mathlib.Core.Path.{subst}
use pro_slides_go.Editor.Validation.TextActivity.{IsAskable, validate_editor_text_activity_iff}
use pro_slides_go.Editor.Registry.Laws.{slide_error-ready}
use pro_slides_go.Editor.Validation.Question.Meaning.{IsRunnable}
use pro_slides_go.Editor.Drafts.Question.Saved.{
  WritesPersian, and_twice, canonical-IsRunnable, canonical_option, faster_again, partial_again,
  points_again, IsRunnable-of_valid, time_again, canonical,
}
use pro_slides_go.Editor.Drafts.Question.Slide.{
  draft_question_like, option_like, question_draft_to_editor_slide, saved_option, saved_question,
  saved_slide, validate_question_draft,
}
use pro_slides_go.Editor.Registry.{like_option, like_question, slide_error}
use pro_slides_go.Editor.Drafts.{unless_issue}
use pro_slides_go.Editor.Validation.Content.{validate_editor_content_iff}
use pro_slides_go.Editor.Drafts.Integer.Laws.{write_persian, write_persian_lem}
use pro_slides_go.Editor.Registry.Ready.{IsReady}
use pro_slides_go.Editor.Drafts.Content
use pro_slides_go.Editor.Drafts.WordCloud

issue_free :
    {F S : Type 0} (issues : List (Issue F)) (made s : S)
    → unless_issue issues made ≡ inr s
    → (issues ≡ []) × (s ≡ made)
issue_free [] made s h = (refl, cc)
issue_free (issue ∷ issues) made s h = absurd (cc)

pub writes_persian : WritesPersian write_persian
writes_persian n h = write_persian_lem n

-- The question of a saved slide is, for the validator, the one of the draft's canonical form.
options_alike :
    (m : EvaluationMode) (n : ℕ) (os : List QuestionDraftOption)
    → map like_option (map_from n (saved_option m) os)
      ≡ map (option_like m) (map (canonical_option m) os)
options_alike m n [] = refl
options_alike m n (o ∷ os) = cc (and_twice (evaluates m) o.is_correct, options_alike m (suc n) os)

question_alike :
    (d : QuestionDraft)
    → IsRunnable (draft_question_like d)
    → like_question (saved_question d) ≡ draft_question_like (canonical write_persian d)
question_alike d h = rw (time_again write_persian writes_persian d h) (
    rw (points_again write_persian writes_persian d h).0 (
      rw (points_again write_persian writes_persian d h).1 (
        rw (partial_again write_persian writes_persian d h) (
          rw (faster_again write_persian writes_persian d h)
            (rw (options_alike d.evaluation_mode 0 d.options) refl)))))

ranked_only : (m : ScoringMode) (b : Bool) → (scores m && b) ≡ true → some m ≢ some ScoringMode.none
ranked_only ScoringMode.none b t e = cc
ranked_only ScoringMode.points b t e = cc

question-IsReady :
    (d : QuestionDraft) → IsRunnable (draft_question_like d) → IsReady (saved_slide d)
question-IsReady d h = inr (
    inl (record {
      activity = record { kind = refl; named = refl; versioned = refl };
      asked = saved_question d;
      present = refl;
      runnable =
          subst IsRunnable (sym (question_alike d h))
            (canonical-IsRunnable write_persian writes_persian d h);
      ranked = ranked_only d.scoring_mode d.show_leaderboard_after;
    }))

content-IsReady :
    (d : Content.ContentDraft)
    → Content.validate_content_draft d ≡ []
    → IsReady (Content.slide_of d)
unfolding Content.validate_content_draft
content-IsReady d h =
    let ok = (validate_editor_content_iff _).0 h in
    inl (record {
      kind = refl;
      showable = record {
        something = rw (trim_idem d.image_url) ok.something;
        title_fits = ok.title_fits;
        text_fits = ok.text_fits;
        image_fits = omega (arith, ok.image_fits, count-trim-le d.image_url);
      };
    })

cloud-IsReady :
    (d : WordCloud.WordCloudDraft)
    → WordCloud.validate_word_cloud_draft d ≡ []
    → IsReady (WordCloud.slide_of d)
unfolding WordCloud.validate_word_cloud_draft
cloud-IsReady d h =
    let (a, e, ok') = (validate_editor_text_activity_iff (some (WordCloud.activity_like d))).0 h in
    let ok : IsAskable (WordCloud.activity_like d) = subst IsAskable (sym (eq_of_some e)) ok' in
    inr (
      inr (record {
        activity = record { kind = refl; named = refl; versioned = refl };
        asked = _;
        present = refl;
        askable = record {
          asked = ok.asked;
          prompt_fits = ok.prompt_fits;
          title_fits = ok.title_fits;
          image_fits = omega (arith, ok.image_fits, count-trim-le d.image_url);
          length_bounds = ok.length_bounds;
          word_bounds = ok.word_bounds;
          time_bounds = ok.time_bounds;
          counted = ok.counted;
        };
        unranked = refl;
      }))

-- The draft of one of the three panels.
pub data AnyDraft : Type 0 where
  of_question : QuestionDraft → AnyDraft
  of_content : Content.ContentDraft → AnyDraft
  of_cloud : WordCloud.WordCloudDraft → AnyDraft

abbrev pub saved_by_panel : AnyDraft → String ⊎ EditorSlide
saved_by_panel (of_question d) = question_draft_to_editor_slide d
saved_by_panel (of_content d) = Content.content_draft_to_editor_slide d
saved_by_panel (of_cloud d) = WordCloud.word_cloud_draft_to_editor_slide d

-- A slide that the panel of questions, of content or of word clouds saves is no reason to keep a
-- presentation from being run.
pub saved_by_panel-no_error :
    (d : AnyDraft) (s : EditorSlide) → saved_by_panel d ≡ inr s → slide_error s ≡ none
unfolding question_draft_to_editor_slide Content.content_draft_to_editor_slide
    WordCloud.word_cloud_draft_to_editor_slide
saved_by_panel-no_error (of_question d) s h =
    let (valid, e) = issue_free (validate_question_draft d) (saved_slide d) s h in
    rw e (slide_error-ready (saved_slide d) (question-IsReady d (IsRunnable-of_valid d valid)))
saved_by_panel-no_error (of_content d) s h =
    let (valid, e) = issue_free (Content.validate_content_draft d) (Content.slide_of d) s h in
    rw e (slide_error-ready (Content.slide_of d) (content-IsReady d valid))
saved_by_panel-no_error (of_cloud d) s h =
    let (valid, e) =
      issue_free (WordCloud.validate_word_cloud_draft d) (WordCloud.slide_of d) s h in
    rw e (slide_error-ready (WordCloud.slide_of d) (cloud-IsReady d valid))
