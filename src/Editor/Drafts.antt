-- ===== src/Editor/Drafts.antt =====
-- The drafts of the editor's panels, of apps/web/src/modules/presentations/editor/model. A reducer's
-- state is the saved draft and the one that is edited; a conversion to a slide throws the first
-- issue's message, here on the left of a sum.
pub mod Integer
pub mod Content
pub mod WordCloud
pub mod Question
pub mod Audio
pub mod Contrast
pub mod Design
use pro_slides_go.Base.{String, ◌⊎◌, inl, inr, List, [], ◌∷◌, ◌≡◌, refl}
use pro_slides_go.Editor.Slides.{text_or}
use pro_slides_go.Editor.Validation.{Issue}

pub record DraftState (Draft : Type 0) : Type 0 where
  pub baseline : Draft
  pub draft : Draft

module _ {Draft : Type 0} where
  abbrev pub restart : Draft → DraftState Draft
  restart d = record { baseline = d; draft = d }

  abbrev pub patched : DraftState Draft → Draft → DraftState Draft
  patched state d = record state { draft = d }

-- `if (issues.length) throw new Error(issues[0].message); return slide`.
abbrev pub unless_issue : {Field Slide : Type 0} → List (Issue Field) → Slide → String ⊎ Slide
unless_issue [] slide = inr slide
unless_issue (issue ∷ issues) slide = inl issue.message

-- `text || ""` is the text.
pub text_or-nil : (s : String) → text_or s "" ≡ s
text_or-nil String.[] = refl
text_or-nil (String.◌∷◌ c s) = refl
