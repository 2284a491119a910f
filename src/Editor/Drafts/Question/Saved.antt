-- ===== src/Editor/Drafts/Question/Saved.antt =====
-- A question's draft that is saved as a slide and loaded again, for
-- apps/web/src/modules/presentations/editor/model/questionDraft.ts.
use pro_slides_go.Base.{
  ℕ, suc, String, ◌≡◌, refl, ap, ◌&&◌, some, List, [], ◌∷◌, map, map_from, All, arith, length,
  count_if, is_true, ◌≤◌, Bool, true, false, sym, ◌∙◌, inr, eq_of_some,
}
use pro_slides_go.Js.Number.{Number, int}
use pro_slides_go.Js.Text.{trim}
use pro_slides_go.Js.Text.Laws.{trim_idem, count-trim-le}
use pro_slides_go.Editor.Model.{OptionLike, EvaluationMode, ScoringMode, Tag, known, EditorSlide}
use pro_slides_go.Editor.Validation.Question.{option_key}
use pro_slides_go.Editor.Validation.Question.Meaning.{
  IsOffered, IsPriced, Distinct, IsMarked, IsRunnable,
}
use pro_slides_go.Editor.Slides.{evaluates, scores, is_multiple, text_or}
use pro_slides_go.Editor.Drafts.Integer.{parse_draft_integer}
use pro_slides_go.Editor.Drafts.Question.{QuestionDraft, QuestionDraftOption}
use pro_slides_go.Editor.Drafts.Question.Slide.{
  option_like, saved_slide, points_of, draft_option_of, create_question_draft, scored_faster,
  scored_partial, saved_option, draft_question_like, validate_question_draft,
  question_draft_to_editor_slide,
}
use pro_slides_go.Editor.Drafts.Integer.Laws.{parse_draft_integer-persian_numeral, persian_numeral}
use pro_slides_go.Editor.Drafts.{text_or-nil}
use pro_slides_go.Editor.Validation.Question.Laws.{validate_editor_question_iff}
use mathlib.Core.Path.{subst}

-- The form that a draft has when its slide is loaded: trimmed, its numbers written anew, and what
-- the modes switch off switched off.
abbrev pub canonical_option : EvaluationMode → QuestionDraftOption → QuestionDraftOption
canonical_option mode o = record o {
  text = trim o.text;
  is_correct = evaluates mode && o.is_correct;
  image_url = trim o.image_url;
}

abbrev pub canonical : (Number → String) → QuestionDraft → QuestionDraft
canonical format d = record d {
  show_leaderboard_after = scores d.scoring_mode && d.show_leaderboard_after;
  text = trim d.text;
  time_input = format (parse_draft_integer d.time_input);
  min_points_input = format (points_of d.scoring_mode d.min_points_input);
  max_points_input = format (points_of d.scoring_mode d.max_points_input);
  image_url = trim d.image_url;
  faster_answers_more_points = scored_faster d;
  partial_scoring = is_multiple d.type && scored_partial d;
  options = map (canonical_option d.evaluation_mode) d.options;
}

pub and_twice : (a b : Bool) → (a && (a && b)) ≡ (a && b)
and_twice true b = refl
and_twice false b = refl

text_or_twice : (s : String) → text_or s (text_or s "") ≡ s
text_or_twice String.[] = refl
text_or_twice (String.◌∷◌ c s) = refl

loaded_option :
    (m : EvaluationMode) (n : ℕ) (o : QuestionDraftOption)
    → draft_option_of m (saved_option m n o) ≡ canonical_option m o
loaded_option m n o =
    rw (text_or-nil (trim o.text))
      (rw (text_or-nil (trim o.image_url)) (rw (and_twice (evaluates m) o.is_correct) refl))

loaded_options :
    (m : EvaluationMode) (n : ℕ) (os : List QuestionDraftOption)
    → map (draft_option_of m) (map_from n (saved_option m) os) ≡ map (canonical_option m) os
loaded_options m n [] = refl
loaded_options m n (o ∷ os) = cc (loaded_option m n o, loaded_options m (suc n) os)

create_saved :
    (format : Number → String) (d : QuestionDraft)
    → create_question_draft format (saved_slide d) ≡ some (canonical format d)
unfolding create_question_draft
create_saved format d = rw (loaded_options d.evaluation_mode 0 d.options) (
    rw (text_or_twice (trim d.image_url)) (
      rw (text_or-nil (trim d.image_url)) (
        rw (text_or-nil d.title) (
          rw (text_or-nil (trim d.text))
            (rw (and_twice (scores d.scoring_mode) d.show_leaderboard_after) refl)))))

-- The options of the canonical draft, as the validator sees them.
module _ (m : EvaluationMode) where
  offered-canonical :
      (os : List QuestionDraftOption)
      → All IsOffered (map (option_like m) os)
      → All IsOffered (map (option_like m) (map (canonical_option m) os))
  offered-canonical [] h = tt
  offered-canonical (o ∷ os) (a, h) = (
    record {
      captioned = rw (trim_idem o.text) a.captioned;
      caption_fits = rw (trim_idem o.text) a.caption_fits;
      keyed = a.keyed;
      key_fits = a.key_fits;
      picture_fits = omega (arith, a.picture_fits, count-trim-le o.image_url);
    },
    offered-canonical os h,
  )

  keys-canonical :
      (os : List QuestionDraftOption)
      → map option_key (map (option_like m) (map (canonical_option m) os))
        ≡ map option_key (map (option_like m) os)
  keys-canonical [] = refl
  keys-canonical (o ∷ os) = ap (◌∷◌ (trim o.id)) (keys-canonical os)

  correct-canonical :
      (os : List QuestionDraftOption)
      → count_if
          (λ o. is_true (OptionLike.is_correct o))
          (map (option_like m) (map (canonical_option m) os))
        ≡ count_if (λ o. is_true (OptionLike.is_correct o)) (map (option_like m) os)
  correct-canonical [] = refl
  correct-canonical (o ∷ os) = ground (arith, correct-canonical os)

  length-canonical :
      (os : List QuestionDraftOption)
      → length (map (option_like m) (map (canonical_option m) os)) ≡ length (map (option_like m) os)
  length-canonical [] = refl
  length-canonical (o ∷ os) = ap suc (length-canonical os)

-- How a number is written: a counter that a double holds exactly in Persian digits.
abbrev pub WritesPersian : (Number → String) → Type 0
WritesPersian format = (n : ℕ) → n ≤ 9007199254740991 → format (int n) ≡ persian_numeral n

reads_back :
    (format : Number → String) (x : Number) (n : ℕ)
    → WritesPersian format
    → x ≡ int n
    → n ≤ 9007199254740991
    → parse_draft_integer (format x) ≡ x
reads_back format x n law e h = rw e (rw (law n h) (parse_draft_integer-persian_numeral n h))

abbrev Priced : QuestionDraft → Type 0
Priced d =
    IsPriced (known d.scoring_mode) (known d.evaluation_mode)
      (points_of d.scoring_mode d.min_points_input) (points_of d.scoring_mode d.max_points_input)
      (scored_faster d) (scored_partial d)

points_read_back :
    (format : Number → String) (mode : ScoringMode) (e : Tag EvaluationMode) (low high : String)
    (faster partial : Bool)
    → WritesPersian format
    → IsPriced (known mode) e (points_of mode low) (points_of mode high) faster partial
    → (points_of mode (format (points_of mode low)) ≡ points_of mode low)
      × (points_of mode (format (points_of mode high)) ≡ points_of mode high)
points_read_back format ScoringMode.none e low high faster partial law h = (refl, refl)
points_read_back format ScoringMode.points e low high faster partial law
      (_, (a, b, l, h, i, j, k)) =
    (reads_back format _ a law l (omega (arith, i, k)), reads_back format _ b law h k)

flags_again : (s t p : Bool) → (s && (t && (t && (s && (t && p))))) ≡ (s && (t && p))
flags_again true true p = refl
flags_again true false p = refl
flags_again false t p = refl

module _ (format : Number → String) (law : WritesPersian format) (d : QuestionDraft)
    (h : IsRunnable (draft_question_like d)) where
  pub partial_again : scored_partial (canonical format d) ≡ scored_partial d
  partial_again = flags_again (scores d.scoring_mode) (is_multiple d.type) d.partial_scoring

  pub faster_again : scored_faster (canonical format d) ≡ scored_faster d
  faster_again = and_twice (scores d.scoring_mode) d.faster_answers_more_points

  pub time_again :
      parse_draft_integer (format (parse_draft_integer d.time_input))
      ≡ parse_draft_integer d.time_input
  time_again =
      let (k, e, low, high) = h.time_bounds in reads_back format _ k law e (omega (arith, high))

  pub points_again :
      (points_of d.scoring_mode (format (points_of d.scoring_mode d.min_points_input))
        ≡ points_of d.scoring_mode d.min_points_input)
      × (points_of d.scoring_mode (format (points_of d.scoring_mode d.max_points_input))
          ≡ points_of d.scoring_mode d.max_points_input)
  points_again =
      points_read_back format d.scoring_mode (known d.evaluation_mode) d.min_points_input
        d.max_points_input (scored_faster d) (scored_partial d) law h.priced

  Priced-canonical : Priced (canonical format d)
  Priced-canonical =
      rw points_again.0 (rw points_again.1 (rw partial_again (rw faster_again h.priced)))

  pub canonical-IsRunnable : IsRunnable (draft_question_like (canonical format d))
  canonical-IsRunnable = record {
    asked = rw (trim_idem d.text) h.asked;
    text_fits = rw (trim_idem d.text) h.text_fits;
    title_fits = h.title_fits;
    picture_fits = omega (arith, h.picture_fits, count-trim-le d.image_url);
    enough_options = omega (arith, h.enough_options, length-canonical d.evaluation_mode d.options);
    few_options = omega (arith, h.few_options, length-canonical d.evaluation_mode d.options);
    offered = offered-canonical d.evaluation_mode d.options h.offered;
    distinct_ids = subst Distinct (sym (keys-canonical d.evaluation_mode d.options)) h.distinct_ids;
    typed = h.typed;
    marked =
        subst (IsMarked (known d.evaluation_mode) (some (known d.type)))
          (sym (correct-canonical d.evaluation_mode d.options)) h.marked;
    priced = Priced-canonical;
    partial_only_multiple = λ e. rw partial_again (h.partial_only_multiple e);
    time_bounds = rw time_again h.time_bounds;
  }

  saved_options_again :
      (m : EvaluationMode) (n : ℕ) (os : List QuestionDraftOption)
      → map_from n (saved_option m) (map (canonical_option m) os) ≡ map_from n (saved_option m) os
  saved_options_again m n [] = refl
  saved_options_again m n (o ∷ os) = cc (
    trim_idem o.text,
    trim_idem o.image_url,
    and_twice (evaluates m) o.is_correct,
    saved_options_again m (suc n) os,
  )

  saved_again : saved_slide (canonical format d) ≡ saved_slide d
  saved_again = rw (trim_idem d.text) (
      rw (trim_idem d.image_url) (
        rw time_again (
          rw points_again.0 (
            rw points_again.1 (
              rw partial_again (
                rw faster_again (
                  rw (and_twice (scores d.scoring_mode) d.show_leaderboard_after)
                    (rw (saved_options_again d.evaluation_mode 0 d.options) refl))))))))

pub IsRunnable-of_valid :
    (d : QuestionDraft) → validate_question_draft d ≡ [] → IsRunnable (draft_question_like d)
unfolding validate_question_draft
IsRunnable-of_valid d h =
    let (a, e, ok) = (validate_editor_question_iff (some (draft_question_like d))).0 h in
    subst IsRunnable (sym (eq_of_some e)) ok

pub valid_of_runnable :
    (d : QuestionDraft) → IsRunnable (draft_question_like d) → validate_question_draft d ≡ []
unfolding validate_question_draft
valid_of_runnable d h =
    (validate_editor_question_iff (some (draft_question_like d))).1 (draft_question_like d, refl, h)

pub saved_of_valid :
    (d : QuestionDraft)
    → validate_question_draft d ≡ []
    → question_draft_to_editor_slide d ≡ inr (saved_slide d)
unfolding question_draft_to_editor_slide
saved_of_valid d h = rw h refl

-- Where counters are written in Persian digits, a draft that the validator has nothing against
-- becomes a slide; the draft of that slide is its canonical form, and this one, saved again,
-- becomes the same slide.
pub question_draft_to_editor_slide-create :
    (format : Number → String) (d : QuestionDraft)
    → WritesPersian format
    → validate_question_draft d ≡ []
    → (s : EditorSlide) × (question_draft_to_editor_slide d ≡ inr s)
      × (create_question_draft format s ≡ some (canonical format d))
      × (question_draft_to_editor_slide (canonical format d) ≡ inr s)
question_draft_to_editor_slide-create format d law h =
    let ok = IsRunnable-of_valid d h in
    let again : question_draft_to_editor_slide (canonical format d)
        ≡ inr (saved_slide (canonical format d)) =
      saved_of_valid (canonical format d)
        (valid_of_runnable (canonical format d) (canonical-IsRunnable format law d ok)) in
    (
      saved_slide d,
      saved_of_valid d h,
      create_saved format d,
      again ∙ ap inr (saved_again format law d ok),
    )
