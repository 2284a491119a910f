-- ===== src/Editor/Registry/Ready.antt =====
-- When a slide may be run, and what the validators of apps/web/src/modules/presentations/model
-- say of its parts.
use pro_slides_go.Base.{
  ◌≡◌, refl, ◌↔◌, ◌⊎◌, true, false, Option, none, some, List, [], ◌∷◌, String, ◌≢◌, ℕ, ap, eq_iff,
  arith, ==_iff, eq_of_some, is_just, is_version, sym, inl, inr, Bool, ◌&&◌, Bool-cases,
}
use pro_slides_go.Editor.Model.{
  EditorSlide, EditorItemKind, EditorQuestion, EditorTextActivity, ScoringMode, QuestionLike,
}
use pro_slides_go.Editor.Validation.Question.Meaning.{IsRunnable}
use pro_slides_go.Editor.Validation.Content.{IsShowable, get_content_validation_error}
use pro_slides_go.Editor.Validation.TextActivity.{
  IsAskable, get_text_activity_validation_error, validate_editor_text_activity_iff,
  validate_editor_text_activity,
}
use pro_slides_go.Editor.Registry.{
  unscored, EditorItemRegistryKey, like_question, like_text_activity, like_content,
  resolve_editor_item_registration, is_content, is_activity_of, validate, slide_error, or_message,
  scoring_off,
}
use pro_slides_go.Editor.Validation.{Issue, first_message}
use pro_slides_go.Editor.Registry.Wording.{unknown_slide_text}
use pro_slides_go.Editor.Validation.Question.{
  get_question_validation_error, validate_editor_question,
}
use pro_slides_go.Editor.Validation.Question.Laws.{validate_editor_question_iff}
use mathlib.Core.Path.{subst}
use mathlib.Core.Option

-- A content slide with something to show.
pub record IsReadyContent (s : EditorSlide) : Type 0 where
  pub kind : s.item_kind ≡ EditorItemKind.content
  pub showable : IsShowable (some (like_content s))

-- An activity of this name and of version 1.
pub record IsActivity (name : String) (s : EditorSlide) : Type 0 where
  pub kind : s.item_kind ≡ EditorItemKind.activity
  pub named : s.activity_kind ≡ some name
  pub versioned : s.schema_version ≡ some 1

-- A choice with a question to run, whose ranking is shown only where it scores.
pub record IsReadyChoice (s : EditorSlide) : Type 0 where
  pub activity : IsActivity "choice" s
  pub asked : EditorQuestion
  pub present : s.question ≡ some asked
  pub runnable : IsRunnable (like_question asked)
  pub ranked : s.show_leaderboard_after ≡ true → asked.scoring_mode ≢ some ScoringMode.none

-- A word cloud to ask for, with no ranking after it.
pub record IsReadyCloud (s : EditorSlide) : Type 0 where
  pub activity : IsActivity "text" s
  pub asked : EditorTextActivity
  pub present : s.text_activity ≡ some asked
  pub askable : IsAskable (like_text_activity asked)
  pub unranked : s.show_leaderboard_after ≡ false

abbrev pub IsReady : EditorSlide → Type 0
IsReady s = IsReadyContent s ⊎ IsReadyChoice s ⊎ IsReadyCloud s

module _ {F : Type 0} where
  pub no_message : (issues : List (Issue F)) → (first_message issues ≡ none) ↔ (issues ≡ [])
  no_message [] = (λ h. refl, λ h. refl)
  no_message (issue ∷ issues) = (λ h. cc, λ h. cc)

unscored_iff : (m : Option ScoringMode) → (unscored m ≡ false) ↔ (m ≢ some ScoringMode.none)
unscored_iff none = (λ h e. cc, λ h. refl)
unscored_iff (some ScoringMode.none) = (λ h e. cc, λ h. absurd (h refl))
unscored_iff (some ScoringMode.points) = (λ h e. cc, λ h. refl)

just_iff : (s : String) (o : Option String) → (is_just s o ≡ true) ↔ (o ≡ some s)
just_iff s none = (λ h. cc, λ h. cc)
just_iff s (some t) = (λ h. ap some ((eq_iff t s).0 h), λ h. (eq_iff t s).1 (eq_of_some h))

version_iff : (n : ℕ) (o : Option ℕ) → (is_version n o ≡ true) ↔ (o ≡ some n)
version_iff n none = (λ h. cc, λ h. cc)
version_iff n (some m) = (λ h. ap some ((==_iff m n).0 h), λ h. (==_iff m n).1 (eq_of_some h))

pub content_kind : (k : EditorItemKind) → (is_content k ≡ true) ↔ (k ≡ EditorItemKind.content)
content_kind EditorItemKind.content = (λ h. refl, λ h. refl)
content_kind EditorItemKind.activity = (λ h. cc, λ h. cc)

pub activity_kind : (k : EditorItemKind) → (is_content k ≡ false) ↔ (k ≡ EditorItemKind.activity)
activity_kind EditorItemKind.content = (λ h. cc, λ h. cc)
activity_kind EditorItemKind.activity = (λ h. refl, λ h. refl)

pub IsActivity-iff :
    (name : String) (s : EditorSlide) → (is_activity_of name s ≡ true) ↔ IsActivity name s
IsActivity-iff name s = (
  λ h. record {
    kind = (activity_kind s.item_kind).0 (ground (arith, h));
    named = (just_iff name s.activity_kind).0 (ground (arith, h));
    versioned = (version_iff 1 s.schema_version).0 (ground (arith, h));
  },
  λ a. ground (
    arith,
    (activity_kind s.item_kind).1 a.kind,
    (just_iff name s.activity_kind).1 a.named,
    (version_iff 1 s.schema_version).1 a.versioned,
  ),
)

-- What a turn of the loop computes for each kind of slide.
module _ (s : EditorSlide) where
  pub error_of_content :
      is_content s.item_kind ≡ true
      → slide_error s ≡ get_content_validation_error (some (like_content s))
  unfolding slide_error resolve_editor_item_registration validate
  error_of_content e = rw (e, slide_error) refl

  pub error_of_choice :
      is_content s.item_kind ≡ false
      → is_activity_of "choice" s ≡ true
      → slide_error s ≡ validate EditorItemRegistryKey.choice s
  unfolding slide_error resolve_editor_item_registration
  error_of_choice e f = ground (arith, e, f)

  pub error_of_cloud :
      is_content s.item_kind ≡ false
      → is_activity_of "choice" s ≡ false
      → is_activity_of "text" s ≡ true
      → slide_error s ≡ validate EditorItemRegistryKey.text s
  unfolding slide_error resolve_editor_item_registration
  error_of_cloud e f g = ground (arith, e, f, g)

  pub error_of_unknown :
      is_content s.item_kind ≡ false
      → is_activity_of "choice" s ≡ false
      → is_activity_of "text" s ≡ false
      → slide_error s ≡ some unknown_slide_text
  unfolding slide_error resolve_editor_item_registration
  error_of_unknown e f g = ground (arith, e, f, g)

message_iff :
    (e : Option String) (t : Bool) (m : String)
    → (or_message e t m ≡ none) ↔ ((e ≡ none) × (t ≡ false))
message_iff none true m = (λ h. cc, λ (a, b). cc)
message_iff none false m = (λ h. (refl, refl), λ h. refl)
message_iff (some e) t m = (λ h. cc, λ (a, b). cc)

abbrev pub Chosen : Option EditorQuestion → Bool → Type 0
Chosen o flag =
    (q : EditorQuestion) × (o ≡ some q)
    × IsRunnable (like_question q)
    × (flag ≡ true → q.scoring_mode ≢ some ScoringMode.none)

question_error_iff :
    (q : Option QuestionLike)
    → (get_question_validation_error q ≡ none) ↔ ((b : QuestionLike) × (q ≡ some b) × IsRunnable b)
unfolding get_question_validation_error
question_error_iff q = (
  λ h. (validate_editor_question_iff q).0 ((no_message (validate_editor_question q)).0 h),
  λ h. (no_message (validate_editor_question q)).1 ((validate_editor_question_iff q).1 h),
)

pub choice_iff :
    (o : Option EditorQuestion) (flag : Bool) (m : String)
    → (or_message
          (get_question_validation_error (Option.map like_question o))
          (flag && scoring_off o)
          m
        ≡ none)
      ↔ Chosen o flag
choice_iff none flag m = (
  λ h. let (b, e, ok) = (question_error_iff none).0 ((message_iff _ _ m).0 h).0 in cc,
  λ (q, e, ok, rest). cc,
)
choice_iff (some q) flag m = (
  λ h.
      let (b, e, ok) =
        (question_error_iff (some (like_question q))).0 ((message_iff _ _ m).0 h).0 in
      let off : (flag && unscored q.scoring_mode) ≡ false = ((message_iff _ _ m).0 h).1 in
      (
        q,
        refl,
        subst IsRunnable (sym (eq_of_some e)) ok,
        λ t. (unscored_iff q.scoring_mode).0 (ground (arith, t, off)),
      ),
  λ (q', e, ok, ranked).
      let same : q ≡ q' = eq_of_some e in
      let ok' : IsRunnable (like_question q) =
        subst (λ x. IsRunnable (like_question x)) (sym same) ok in
      let ranked' : flag ≡ true → q.scoring_mode ≢ some ScoringMode.none =
        subst (λ x. flag ≡ true → EditorQuestion.scoring_mode x ≢ some ScoringMode.none) (sym same)
          ranked in
      (message_iff _ _ m).1 (
        (question_error_iff (some (like_question q))).1 (like_question q, refl, ok'),
        elim (Bool-cases flag) [
          | inl t ↦ rw t ((unscored_iff q.scoring_mode).1 (ranked' t))
          | inr f ↦ rw f refl
        ],
      ),
)

pub cloud_iff :
    (o : Option EditorTextActivity) (flag : Bool) (m : String)
    → (or_message (get_text_activity_validation_error (Option.map like_text_activity o)) flag m
        ≡ none)
      ↔ ((a : EditorTextActivity) × (o ≡ some a)
          × IsAskable (like_text_activity a)
          × (flag ≡ false))
unfolding get_text_activity_validation_error
cloud_iff none flag m = (
  λ h.
      let (b, e, ok) = (validate_editor_text_activity_iff none).0 (
        (no_message (validate_editor_text_activity none)).0
          ((message_iff (get_text_activity_validation_error none) flag m).0 h).0) in
      cc,
  λ (q, e, ok, rest). cc,
)
cloud_iff (some a) flag m = (
  λ h.
      let (none_left, off) = (message_iff _ _ m).0 h in
      let (b, e, ok) =
        (validate_editor_text_activity_iff (some (like_text_activity a))).0
          ((no_message _).0 none_left) in
      (a, refl, subst IsAskable (sym (eq_of_some e)) ok, off),
  λ (a', e, ok, off). (message_iff _ _ m).1 (
    (no_message _).1 (
        (validate_editor_text_activity_iff (some (like_text_activity a))).1 (
          like_text_activity a,
          refl,
          subst (λ x. IsAskable (like_text_activity x)) (sym (eq_of_some e)) ok,
        )),
    off,
  ),
)
