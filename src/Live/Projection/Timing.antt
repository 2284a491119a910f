-- ===== src/Live/Projection/Timing.antt =====
-- The bounds of the remaining time that the pages show, for `normalizeLiveSlide` of
-- apps/web/src/modules/live/runtime/protocol.ts.
use pro_slides_go.Base.{
  String, ◌≡◌, some, none, arith, pos, negsuc, refl, inl, inr, sym, ◌∙◌, Option, eq_of_some,
  Bool-cases, Option-cases, ◌⊎◌,
}
use pro_slides_go.Js.Number.{Number, int, num_max, milli, is_finite, num_sub}
use pro_slides_go.Js.Number.Laws.{IsFinite, ◌≤#◌, ◌<#◌}
use pro_slides_go.Js.Value.{Value, Coercion, obj, get, Fields}
use pro_slides_go.Live.Projection.Slides.{
  item_id, normalize_live_slide, clamped, finite_of, ProtocolSession, seconds_of,
  finite_or_undefined, ends_at_of, derived_seconds, remaining_of, is_text,
  choice_activity_to_legacy, text_activity_to_legacy, activity_to_legacy, record_value,
}
use pro_slides_go.Live.Projection.Views.{question, LegacyQuestionSlide}
use mathlib.Core.Path.{subst}

-- The seconds `r` that are shown where the session says `s`, for a question of `time` seconds: 0 for
-- less than 0, no more than the time of the question if that is positive, and otherwise the same.
pub record IsShownOf (time s r : Number) : Type 0 where
  pub over : s ≤# int 0 → r ≡ int 0
  pub cut : int 0 <# time → time ≤# s → r ≡ time
  pub exact : int 0 ≤# s → (time ≤# int 0) ⊎ (s ≤# time) → r ≡ s

-- The seconds that are left to answer `q`, against the session and the time of the question.
pub record InTime (session : ProtocolSession) (q : LegacyQuestionSlide) : Type 0 where
  pub timed : IsFinite q.question_time
  pub counts_down : (r : Number) → q.remaining_seconds ≡ some r → IsFinite r × (int 0 ≤# r)
  pub shown :
      (s : Number)
      → session.remaining_seconds ≡ some s
      → IsFinite s
      → (r : Number) × (q.remaining_seconds ≡ some r) × IsShownOf q.question_time s r

finite_of-IsFinite : (js : Coercion) (v : Value) → IsFinite (finite_of js v)
finite_of-IsFinite js v = ground arith

clamped-bounds :
    (t s : Number) → IsFinite t → IsFinite s → IsFinite (clamped t s) × (int 0 ≤# clamped t s)
clamped-bounds (milli t) (milli s) h k = (ground arith, ground arith)
clamped-bounds t s h k = absurd (ground arith)

clamped-IsShownOf : (t s : Number) → IsFinite t → IsFinite s → IsShownOf t s (clamped t s)
clamped-IsShownOf (milli t) (milli s) h k = record {
  over = λ p. ground arith;
  cut = λ p o. ground arith;
  exact = λ p o. ground arith;
}
clamped-IsShownOf t s h k = absurd (ground arith)

derived-bounds :
    (n : Number)
    → IsFinite n
    → IsFinite (num_max (int 0) (seconds_of n)) × (int 0 ≤# num_max (int 0) (seconds_of n))
derived-bounds (milli (pos n)) h = (ground arith, ground arith)
derived-bounds (milli (negsuc n)) h = (ground arith, ground arith)
derived-bounds n h = absurd (ground arith)

num_sub-IsFinite : (a b : Number) → IsFinite a → IsFinite b → IsFinite (num_sub a b)
num_sub-IsFinite (milli a) (milli b) h k = refl
num_sub-IsFinite a b h k = absurd (ground arith)

IsFinite-of_option : (o : Option Number) (x : Number) → finite_or_undefined o ≡ some x → IsFinite x
IsFinite-of_option (some n) x h = ground (arith, h)
IsFinite-of_option none x h = cc

module _ (parse_date : String → Number) (now : Number) (running : IsFinite now) where
  derived_seconds-bounds :
      (e r : Number) → derived_seconds parse_date now e ≡ some r → IsFinite r × (int 0 ≤# r)
  derived_seconds-bounds e r h = elim (Bool-cases (is_finite e)) [
    | inl f ↦
        let same : num_max (int 0) (seconds_of (num_sub e now)) ≡ r =
          eq_of_some (ground (arith, f, h)) in
        subst (λ x. IsFinite x × (int 0 ≤# x)) same
          (derived-bounds (num_sub e now) (num_sub-IsFinite e now f running))
    | inr f ↦ absurd (ground (arith, f, h))
  ]

  remaining_of-bounds :
      (t : Number) (s : ProtocolSession) (r : Number)
      → IsFinite t
      → remaining_of parse_date now t s ≡ some r
      → IsFinite r × (int 0 ≤# r)
  unfolding remaining_of
  remaining_of-bounds t s r h e = elim (Option-cases (finite_or_undefined s.remaining_seconds)) [
    | inl f ↦ derived_seconds-bounds (ends_at_of parse_date now s.ends_at) r (ground (arith, f, e))
    | inr (x, f) ↦
        let same : clamped t x ≡ r = eq_of_some (ground (arith, f, e)) in
        subst (λ y. IsFinite y × (int 0 ≤# y)) same
          (clamped-bounds t x h (IsFinite-of_option s.remaining_seconds x f))
  ]

  remaining_of-server :
      (t : Number) (s : ProtocolSession) (x : Number)
      → s.remaining_seconds ≡ some x
      → IsFinite x
      → remaining_of parse_date now t s ≡ some (clamped t x)
  unfolding remaining_of
  remaining_of-server t s x e f = rw e (rw f refl)

  InTime-of :
      (s : ProtocolSession) (q : LegacyQuestionSlide)
      → IsFinite q.question_time
      → q.remaining_seconds ≡ remaining_of parse_date now q.question_time s
      → InTime s q
  InTime-of s q h e = record {
    timed = h;
    counts_down = λ r k. remaining_of-bounds q.question_time s r h (sym e ∙ k);
    shown = λ x k f. (
      clamped q.question_time x,
      e ∙ remaining_of-server q.question_time s x k f,
      clamped-IsShownOf q.question_time x h f,
    );
  }

question_injective : {p q : LegacyQuestionSlide} → some (question p) ≡ some (question q) → p ≡ q
question_injective h = cc

module _ (js : Coercion) (parse_date : String → Number) (now : Number) (running : IsFinite now)
    (id : String) (fs : Fields) (s : ProtocolSession) where
  choice-InTime : InTime s (choice_activity_to_legacy js parse_date now id fs s)
  unfolding choice_activity_to_legacy
  choice-InTime =
      InTime-of parse_date now running s _
        (finite_of-IsFinite js (get "duration_seconds" (record_value (get "timing" fs)))) refl

  text-InTime : InTime s (text_activity_to_legacy js parse_date now id fs s)
  unfolding text_activity_to_legacy
  text-InTime =
      InTime-of parse_date now running s _
        (finite_of-IsFinite js (get "duration_seconds" (record_value (get "timing" fs)))) refl

  activity-InTime :
      (q : LegacyQuestionSlide)
      → activity_to_legacy js parse_date now id fs s ≡ some (question q)
      → InTime s q
  activity-InTime q h = elim (Bool-cases (is_text "choice" (get "activity_kind" fs))) [
    | inl f ↦ subst (InTime s) (question_injective (ground (arith, f, h))) choice-InTime
    | inr f ↦ elim (Bool-cases (is_text "text" (get "activity_kind" fs))) [
      | inl g ↦ subst (InTime s) (question_injective (ground (arith, f, g, h))) text-InTime
      | inr g ↦ absurd (ground (arith, f, g, h))
    ]
  ]

-- Of any item that the server sends, the question that the pages show has a finite time, and, on a
-- finite clock, its remaining seconds are finite and not negative. Where the session says a finite
-- number of seconds that remain, these are shown, with two exceptions: 0 in place of less than 0,
-- and the question's time in place of more than it if that time is positive.
pub normalize_live_slide-InTime :
    (js : Coercion) (parse_date : String → Number) (now : Number) (active_item : Value)
    (session : ProtocolSession) (q : LegacyQuestionSlide)
    → IsFinite now
    → normalize_live_slide js parse_date now active_item session ≡ some (question q)
    → InTime session q
unfolding normalize_live_slide
normalize_live_slide-InTime js parse_date now (obj fs) session q running h =
    elim (Bool-cases (is_text "activity" (get "kind" fs))) [
      | inl f ↦
          activity-InTime js parse_date now running
            (item_id js (get "id" fs) session.active_item_id) (record_value (get "content" fs))
            session q (ground (arith, f, h))
      | inr f ↦ absurd (ground (arith, f, h))
    ]
normalize_live_slide-InTime js parse_date now v session q running h = absurd (cc)
