-- ===== src/Editor/Registry/Laws.antt =====
-- What may be run, for `getPresentationValidationError` of
-- apps/web/src/modules/presentations/model/itemRegistry.ts.
use pro_slides_go.Base.{
  ◌≡◌, refl, ◌↔◌, true, false, none, some, List, [], ◌∷◌, ◌≢◌, arith, sym, inl, inr, Bool-cases,
  ◌∙◌, All,
}
use pro_slides_go.Editor.Model.{EditorSlide}
use pro_slides_go.Editor.Validation.Content.{
  get_content_validation_error, validate_editor_content_iff,
}
use pro_slides_go.Editor.Registry.{
  like_content, is_content, is_activity_of, validate, slide_error, first_error,
  get_presentation_validation_error,
}
use pro_slides_go.Editor.Registry.Wording.{unknown_slide_text}
use pro_slides_go.Editor.Registry.Ready.{
  IsActivity, IsActivity-iff, IsReady, activity_kind, choice_iff, cloud_iff, content_kind,
  error_of_choice, error_of_cloud, error_of_content, error_of_unknown, no_message,
}

-- A turn of the loop finds nothing exactly for a slide that is ready.
module _ (s : EditorSlide) where
  IsReady-content : is_content s.item_kind ≡ true → slide_error s ≡ none → IsReady s
  unfolding get_content_validation_error
  IsReady-content e h = inl (record {
    kind = (content_kind s.item_kind).0 e;
    showable =
        (validate_editor_content_iff (some (like_content s))).0
          ((no_message _).0 (sym (error_of_content s e) ∙ h));
  })

  IsReady-choice :
      is_content s.item_kind ≡ false
      → is_activity_of "choice" s ≡ true
      → slide_error s ≡ none
      → IsReady s
  unfolding validate
  IsReady-choice e f h =
      let (q, present, ok, ranked) =
        (choice_iff s.question s.show_leaderboard_after _).0 (sym (error_of_choice s e f) ∙ h) in
      inr (
        inl (record {
          activity = (IsActivity-iff "choice" s).0 f;
          asked = q;
          present = present;
          runnable = ok;
          ranked = ranked;
        }))

  IsReady-cloud :
      is_content s.item_kind ≡ false
      → is_activity_of "choice" s ≡ false
      → is_activity_of "text" s ≡ true
      → slide_error s ≡ none
      → IsReady s
  unfolding validate
  IsReady-cloud e f g h =
      let (a, present, ok, off) =
        (cloud_iff s.text_activity s.show_leaderboard_after _).0
          (sym (error_of_cloud s e f g) ∙ h) in
      inr (
        inr (record {
          activity = (IsActivity-iff "text" s).0 g;
          asked = a;
          present = present;
          askable = ok;
          unranked = off;
        }))

  IsReady-sound : slide_error s ≡ none → IsReady s
  IsReady-sound h = elim (Bool-cases (is_content s.item_kind)) [
    | inl e ↦ IsReady-content e h
    | inr e ↦ elim (Bool-cases (is_activity_of "choice" s)) [
      | inl f ↦ IsReady-choice e f h
      | inr f ↦ elim (Bool-cases (is_activity_of "text" s)) [
        | inl g ↦ IsReady-cloud e f g h
        | inr g ↦
            let bad : some unknown_slide_text ≡ none = sym (error_of_unknown s e f g) ∙ h in
            absurd (cc)
      ]
    ]
  ]

  other_name : IsActivity "text" s → is_activity_of "choice" s ≡ false
  other_name a = rw a.kind (rw a.named refl)

  pub slide_error-ready : IsReady s → slide_error s ≡ none
  unfolding get_content_validation_error validate
  slide_error-ready (inl r) =
      error_of_content s ((content_kind s.item_kind).1 r.kind)
      ∙ (no_message _).1 ((validate_editor_content_iff (some (like_content s))).1 r.showable)
  slide_error-ready (inr (inl r)) =
      error_of_choice s ((activity_kind s.item_kind).1 r.activity.kind)
        ((IsActivity-iff "choice" s).1 r.activity)
      ∙ (choice_iff s.question s.show_leaderboard_after _).1
          (r.asked, r.present, r.runnable, r.ranked)
  slide_error-ready (inr (inr r)) =
      error_of_cloud s ((activity_kind s.item_kind).1 r.activity.kind) (other_name r.activity)
        ((IsActivity-iff "text" s).1 r.activity)
      ∙ (cloud_iff s.text_activity s.show_leaderboard_after _).1
          (r.asked, r.present, r.askable, r.unranked)

no_error_sound : (slides : List EditorSlide) → first_error slides ≡ none → All IsReady slides
unfolding first_error
no_error_sound [] h = tt
no_error_sound (s ∷ slides) h =
    (IsReady-sound s (ground (arith, h)), no_error_sound slides (ground (arith, h)))

no_error_complete : (slides : List EditorSlide) → All IsReady slides → first_error slides ≡ none
unfolding first_error
no_error_complete [] h = refl
no_error_complete (s ∷ slides) (here, later) =
    rw (slide_error-ready s here) (no_error_complete slides later)

-- Nothing keeps a presentation from being run exactly if it has a slide and each of its slides is
-- ready: content with something to show, a question of version 1 that may be run and whose ranking
-- is not shown where it scores no points, or a word cloud of version 1 to ask for with no ranking
-- after it.
pub get_presentation_validation_error_iff :
    (slides : List EditorSlide)
    → (get_presentation_validation_error slides ≡ none) ↔ ((slides ≢ []) × All IsReady slides)
unfolding get_presentation_validation_error
get_presentation_validation_error_iff [] = (λ h. cc, λ (some_slide, h). absurd (some_slide refl))
get_presentation_validation_error_iff (s ∷ slides) = (
  λ h. (λ e. cc, no_error_sound (s ∷ slides) h),
  λ (some_slide, h). no_error_complete (s ∷ slides) h,
)
