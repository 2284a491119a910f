-- ===== src/Editor/Drafts/Design.antt =====
-- The draft of a presentation's colours and background, of
-- apps/web/src/modules/presentations/editor/model/designDraft.ts, with the choice of a foreground
-- in apps/web/src/shared/styles/presentationTheme.ts.
pub mod Painted
use pro_slides_go.Editor.Drafts.Contrast.{contrast, Floats}
use Prim.Native.Char.{Char, code}
use pro_slides_go.Base.{
  ℕ, zero, suc, ◌+◌, ◌-◌, String, Bool, true, false, not, ◌&&◌, ◌||◌, ◌⊎◌, Option, none, some, List,
  [], ◌∷◌, str_eq, ◌==◌, leb, get_elem?, value_or, if◌then◌else◌,
}
use pro_slides_go.Js.Text.{trim, is_empty}
use pro_slides_go.Editor.Model.{EditorPresentation}
use pro_slides_go.Editor.Validation.{Issue, plain, longer, issue_if, issue_either, gather}
use pro_slides_go.Editor.Drafts.{DraftState, restart, patched, unless_issue}
use pro_slides_go.Editor.Wording.{
  background_color_invalid_text, background_image_invalid_text, background_image_too_long_text,
  text_color_invalid_text,
}

pub record DesignDraft : Type 0 where
  pub presentation_id : String
  pub revision : ℕ
  pub background_color : String
  pub background_image_url : String
  pub text_color : String

pub data DesignDraftAction : Type 0 where
  reset saved : DesignDraft → DesignDraftAction
  set_background_color set_background_image set_text_color : String → DesignDraftAction

pub data DesignField : Type 0 where
  background_color background_image text_color : DesignField

-- `[0-9a-f]` without regard to case.
abbrev pub is_hex_digit : ℕ → Bool
is_hex_digit c = (leb 48 c && leb c 57) || ((leb 97 c && leb c 102) || (leb 65 c && leb c 70))

abbrev pub are_hex_digits : ℕ → String → Bool
are_hex_digits zero String.[] = true
are_hex_digits zero (String.◌∷◌ c s) = false
are_hex_digits (suc n) String.[] = false
are_hex_digits (suc n) (String.◌∷◌ c s) = is_hex_digit (code c) && are_hex_digits n s

-- `/^#[0-9a-f]{6}$/i`.
abbrev pub is_hex_color : String → Bool
is_hex_color String.[] = false
is_hex_color (String.◌∷◌ c s) = code c == 35 && are_hex_digits 6 s

-- `toLowerCase` of a colour: its letters are A to F.
abbrev small_letters : List Char
small_letters = "a" ∷ "b" ∷ "c" ∷ "d" ∷ "e" ∷ "f" ∷ []

abbrev pub small_letter : ℕ → Char
small_letter k = value_or (get_elem? small_letters k) "a"

abbrev pub lower : Char → Char
lower c = if leb 65 (code c) && leb (code c) 70 then small_letter (code c - 65) else c

abbrev pub lower_hex : String → String
lower_hex String.[] = ""
lower_hex (String.◌∷◌ c s) = String.◌∷◌ (lower c) (lower_hex s)

-- `/^https?:\/\//i`, letter by letter.
abbrev folded : ℕ → ℕ
folded c = if leb 65 c && leb c 90 then c + 32 else c

abbrev pub after_prefix : List ℕ → String → Option String
after_prefix [] s = some s
after_prefix (p ∷ ps) String.[] = none
after_prefix (p ∷ ps) (String.◌∷◌ c s) = if folded (code c) == p then after_prefix ps s else none

abbrev is_found : Option String → Bool
is_found none = false
is_found (some s) = true

abbrev slashes : List ℕ
slashes = 58 ∷ 47 ∷ 47 ∷ []

abbrev after_http : Option String → Bool
after_http none = false
after_http (some s) = is_found (after_prefix slashes s) || is_found (after_prefix (115 ∷ slashes) s)

abbrev pub is_http_text : String → Bool
is_http_text s = after_http (after_prefix (104 ∷ 116 ∷ 116 ∷ 112 ∷ []) s)

unfoldable pub normalize_hex : String → String → String
normalize_hex value fallback =
    let candidate = trim value in if is_hex_color candidate then lower_hex candidate else fallback

module _ {F : Type 0} (floats : Floats F) where
  -- The foreground that `presentationTheme` gives for two colours.
  unfoldable pub readable_foreground : String → String → String
  unfolding contrast
  readable_foreground behind wanted =
      let background = if is_hex_color behind then behind else "#312e81" in
      let requested = if is_hex_color wanted then wanted else "#ffffff" in
      if floats.at_most (floats.decimal 45 1) (contrast floats background requested)
      then requested
      else (if floats.at_most (contrast floats background "#0f172a")
            (contrast floats background "#ffffff")
          then "#ffffff"
          else "#0f172a")

  unfoldable pub create_design_draft : EditorPresentation → DesignDraft
  unfolding normalize_hex readable_foreground
  create_design_draft p =
      let background = normalize_hex p.background_color "#f7f7fb" in
      record {
        presentation_id = p.quiz_id;
        revision = p.revision;
        background_color = background;
        background_image_url = trim p.background_image_url;
        text_color = readable_foreground background (normalize_hex p.text_color "#111827");
      }

  unfoldable pub design_draft_reducer :
      DraftState DesignDraft → DesignDraftAction → DraftState DesignDraft
  unfolding normalize_hex readable_foreground
  design_draft_reducer state (reset d) = restart d
  design_draft_reducer state (saved d) = restart d
  design_draft_reducer state (set_background_color value) =
      let background = normalize_hex value state.draft.background_color in
      patched state (record state.draft {
        background_color = background;
        text_color = readable_foreground background state.draft.text_color;
      })
  design_draft_reducer state (set_background_image value) =
      patched state (record state.draft { background_image_url = trim value })
  design_draft_reducer state (set_text_color value) = patched state (record state.draft {
    text_color =
        readable_foreground state.draft.background_color
          (normalize_hex value state.draft.text_color);
  })

unfoldable pub design_draft_equals : DesignDraft → DesignDraft → Bool
design_draft_equals l r =
    str_eq l.presentation_id r.presentation_id
    && (l.revision == r.revision
        && (str_eq l.background_color r.background_color
            && (str_eq l.background_image_url r.background_image_url
                && str_eq l.text_color r.text_color)))

abbrev pub design_issues : DesignDraft → List (List (Issue DesignField))
design_issues d =
    let image = trim d.background_image_url in
    issue_if (not (is_hex_color d.background_color))
      (plain "background_color_invalid" DesignField.background_color background_color_invalid_text)
    ∷ issue_if (not (is_hex_color d.text_color))
        (plain "text_color_invalid" DesignField.text_color text_color_invalid_text)
    ∷ issue_either (longer 4096 image)
        (plain "background_image_too_long" background_image background_image_too_long_text)
        (not (is_empty image) && not (is_http_text image))
        (plain "background_image_invalid" background_image background_image_invalid_text)
    ∷ []

unfoldable pub validate_design_draft : DesignDraft → List (Issue DesignField)
validate_design_draft d = gather (design_issues d)

-- The fields that are sent.
pub record DesignUpdate : Type 0 where
  pub background_color : String
  pub background_image_url : String
  pub text_color : String
  pub revision : ℕ

unfoldable pub design_draft_to_update : DesignDraft → String ⊎ DesignUpdate
unfolding validate_design_draft
design_draft_to_update d = unless_issue (validate_design_draft d) (record {
  background_color = d.background_color;
  background_image_url = d.background_image_url;
  text_color = d.text_color;
  revision = d.revision;
})
