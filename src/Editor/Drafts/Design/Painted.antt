-- ===== src/Editor/Drafts/Design/Painted.antt =====
-- The colours of every draft, for apps/web/src/modules/presentations/editor/model/designDraft.ts.
use pro_slides_go.Editor.Drafts.Contrast.{contrast, Floats}
use pro_slides_go.Editor.Drafts.{restart, DraftState}
use pro_slides_go.Editor.Drafts.Design.{
  trim, is_hex_digit, small_letter, DesignDraft, are_hex_digits, is_hex_color, lower, lower_hex,
  normalize_hex, readable_foreground, DesignDraftAction, reset, saved, set_background_color,
  set_background_image, set_text_color, is_http_text, create_design_draft, design_draft_reducer,
  design_issues, validate_design_draft,
}
use Prim.Native.Char.{code, Char}
use pro_slides_go.Base.{
  ℕ, true, ◌≡◌, refl, zero, suc, ◌-◌, String, ◌⊎◌, inl, inr, false, ◌&&◌, arith, leb, if◌then◌else◌,
  Bool-cases, ◌≤◌, ◌↔◌, Bool, List, [], ◌∷◌, All,
}
use pro_slides_go.Editor.Model.{EditorPresentation}
use pro_slides_go.Editor.Validation.{gather_iff, is_empty_iff}
use pro_slides_go.Js.Text.{is_empty, text_length}

small_letter_hex : (k : ℕ) → is_hex_digit (code (small_letter k)) ≡ true
small_letter_hex zero = refl
small_letter_hex (suc zero) = refl
small_letter_hex (suc (suc zero)) = refl
small_letter_hex (suc (suc (suc zero))) = refl
small_letter_hex (suc (suc (suc (suc zero)))) = refl
small_letter_hex (suc (suc (suc (suc (suc zero))))) = refl
small_letter_hex (suc (suc (suc (suc (suc (suc k)))))) = refl

lower_digit : (c : Char) → is_hex_digit (code c) ≡ true → is_hex_digit (code (lower c)) ≡ true
lower_digit c h = elim (Bool-cases (leb 65 (code c) && leb (code c) 70)) [
  | inl e ↦ rw e (small_letter_hex (code c - 65))
  | inr e ↦ rw e h
]

lower_digits :
    (n : ℕ) (s : String) → are_hex_digits n s ≡ true → are_hex_digits n (lower_hex s) ≡ true
lower_digits zero String.[] h = refl
lower_digits zero (String.◌∷◌ c s) h = cc
lower_digits (suc n) String.[] h = cc
lower_digits (suc n) (String.◌∷◌ c s) h =
    rw (lower_digit c (ground (arith, h))) (lower_digits n s (ground (arith, h)))

lower_color : (s : String) → is_hex_color s ≡ true → is_hex_color (lower_hex s) ≡ true
lower_color String.[] h = cc
lower_color (String.◌∷◌ c s) h = ground (arith, h, lower_digits 6 s (ground (arith, h)))

normalize_hex-color :
    (value fallback : String)
    → is_hex_color fallback ≡ true
    → is_hex_color (normalize_hex value fallback) ≡ true
unfolding normalize_hex
normalize_hex-color value fallback h = elim (Bool-cases (is_hex_color (trim value))) [
  | inl e ↦ rw e (lower_color (trim value) e)
  | inr e ↦ rw e h
]

picked_color :
    (a b : Bool) (w : String)
    → is_hex_color w ≡ true
    → is_hex_color (if a then w else if b then "#ffffff" else "#0f172a") ≡ true
picked_color true b w h = h
picked_color false true w h = refl
picked_color false false w h = refl

wanted_color : (t : String) → is_hex_color (if is_hex_color t then t else "#ffffff") ≡ true
wanted_color t = elim (Bool-cases (is_hex_color t)) [ inl e ↦ rw e e | inr e ↦ rw e refl ]

-- The image is missing or a text that starts as a web address does, and is not too long.
abbrev pub ImageFits : DesignDraft → Type 0
ImageFits d =
    (text_length (trim d.background_image_url) ≤ 4096)
    × ((trim d.background_image_url ≡ "") ⊎ (is_http_text (trim d.background_image_url) ≡ true))

image_of : (d : DesignDraft) → validate_design_draft d ≡ [] → ImageFits d
unfolding validate_design_draft
image_of d h =
    let (a, (b, (c, _))) = (gather_iff (design_issues d)).0 h in
    (
      ground (arith, c),
      elim (Bool-cases (is_empty (trim d.background_image_url))) [
        | inl e ↦ inl ((is_empty_iff (trim d.background_image_url)).0 e)
        | inr e ↦ inr (ground (arith, c, e))
      ],
    )

-- Of two numbers that are not NaN one is at most the other.
abbrev pub IsTotal : {F : Type 0} → Floats F → Type 0
IsTotal {F} floats = (a b : F) → floats.at_most a b ≡ false → floats.at_most b a ≡ true

module _ {F : Type 0} (floats : Floats F) where
  abbrev AtMost : F → F → Type 0
  AtMost a b = floats.at_most a b ≡ true

  -- The contrast of the text is 4.5 or more, or no less than that of white and of the darkest blue.
  abbrev pub Legible : String → String → Type 0
  Legible background text =
      AtMost (floats.decimal 45 1) (contrast floats background text)
      ⊎ (AtMost (contrast floats background "#ffffff") (contrast floats background text)
          × AtMost (contrast floats background "#0f172a") (contrast floats background text))

  pub record IsPainted (d : DesignDraft) : Type 0 where
    pub background : is_hex_color d.background_color ≡ true
    pub text : is_hex_color d.text_color ≡ true
    pub legible : Legible d.background_color d.text_color

module _ {F : Type 0} (floats : Floats F) where
  abbrev pub CarriesPainted : DesignDraftAction → Type 0
  CarriesPainted (reset d) = IsPainted floats d
  CarriesPainted (saved d) = IsPainted floats d
  CarriesPainted action = Unit

  abbrev pub edited : DraftState DesignDraft → List DesignDraftAction → DraftState DesignDraft
  edited state [] = state
  edited state (action ∷ actions) = edited (design_draft_reducer floats state action) actions

module _ {F : Type 0} (floats : Floats F) (total : IsTotal floats) where
  AtMost-refl : (a : F) → AtMost floats a a
  AtMost-refl a = elim (Bool-cases (floats.at_most a a)) [ inl e ↦ e | inr e ↦ total a a e ]

  foreground-color : (b t : String) → is_hex_color (readable_foreground floats b t) ≡ true
  unfolding readable_foreground
  foreground-color b t =
      let background = if is_hex_color b then b else "#312e81" in
      let wanted = if is_hex_color t then t else "#ffffff" in
      picked_color (floats.at_most (floats.decimal 45 1) (contrast floats background wanted))
        (floats.at_most (contrast floats background "#0f172a")
          (contrast floats background "#ffffff"))
        wanted (wanted_color t)

  picked-Legible :
      (b w : String) (x y : Bool)
      → floats.at_most (floats.decimal 45 1) (contrast floats b w) ≡ x
      → floats.at_most (contrast floats b "#0f172a") (contrast floats b "#ffffff") ≡ y
      → Legible floats b (if x then w else if y then "#ffffff" else "#0f172a")
  picked-Legible b w true y e f = inl e
  picked-Legible b w false true e f = inr (AtMost-refl (contrast floats b "#ffffff"), f)
  picked-Legible b w false false e f = inr (
    total (contrast floats b "#0f172a") (contrast floats b "#ffffff") f,
    AtMost-refl (contrast floats b "#0f172a"),
  )

  foreground-Legible :
      (b t : String) → is_hex_color b ≡ true → Legible floats b (readable_foreground floats b t)
  unfolding readable_foreground
  foreground-Legible b t h =
      rw h (picked-Legible b (if is_hex_color t then t else "#ffffff") _ _ refl refl)

  painted :
      (d : DesignDraft) (t : String)
      → is_hex_color d.background_color ≡ true
      → d.text_color ≡ readable_foreground floats d.background_color t
      → IsPainted floats d
  painted d t h e = record {
    background = h;
    text = rw e (foreground-color d.background_color t);
    legible = rw e (foreground-Legible d.background_color t h);
  }

  created-IsPainted : (p : EditorPresentation) → IsPainted floats (create_design_draft floats p)
  unfolding create_design_draft
  created-IsPainted p =
      painted (create_design_draft floats p) (normalize_hex p.text_color "#111827")
        (normalize_hex-color p.background_color "#f7f7fb" refl) refl

  reducer-IsPainted :
      (state : DraftState DesignDraft) (action : DesignDraftAction)
      → IsPainted floats state.draft
      → CarriesPainted floats action
      → IsPainted floats (design_draft_reducer floats state action).draft
  unfolding design_draft_reducer
  reducer-IsPainted state (reset d) h k = k
  reducer-IsPainted state (saved d) h k = k
  reducer-IsPainted state (set_background_color value) h k =
      painted (design_draft_reducer floats state (set_background_color value)).draft
        state.draft.text_color (normalize_hex-color value state.draft.background_color h.background)
        refl
  reducer-IsPainted state (set_background_image value) h k = record {
    background = h.background;
    text = h.text;
    legible = h.legible;
  }
  reducer-IsPainted state (set_text_color value) h k =
      painted (design_draft_reducer floats state (set_text_color value)).draft
        (normalize_hex value state.draft.text_color) h.background refl

  edited-IsPainted :
      (state : DraftState DesignDraft) (actions : List DesignDraftAction)
      → IsPainted floats state.draft
      → All (CarriesPainted floats) actions
      → IsPainted floats (edited floats state actions).draft
  edited-IsPainted state [] h k = h
  edited-IsPainted state (action ∷ actions) h (k, ks) =
      edited-IsPainted (design_draft_reducer floats state action) actions
        (reducer-IsPainted state action h k) ks

module _ {F : Type 0} (floats : Floats F) where
  valid_of : (d : DesignDraft) → IsPainted floats d → ImageFits d → validate_design_draft d ≡ []
  unfolding validate_design_draft
  valid_of d h (short, inl e) = (gather_iff (design_issues d)).1 (
    ground (arith, h.background),
    (
      ground (arith, h.text),
      (ground (arith, short, (is_empty_iff (trim d.background_image_url)).1 e), tt),
    ),
  )
  valid_of d h (short, inr e) =
      (gather_iff (design_issues d)).1
        (ground (arith, h.background), (ground (arith, h.text), (ground (arith, short, e), tt)))

-- A draft of a presentation's design, after any edits, and drafts that are loaded or saved with
-- such colours, has two colours of six digits, of which the text has a contrast with the background
-- of 4.5 or more, or no less than that of white and of the darkest blue; so the validator has
-- nothing against it exactly if its image is missing or starts as a web address does, and is not
-- too long. Of two contrasts one is taken to be at most the other.
pub edited_design-IsPainted :
    {F : Type 0} (floats : Floats F) (p : EditorPresentation) (actions : List DesignDraftAction)
    → IsTotal floats
    → All (CarriesPainted floats) actions
    → let d = (edited floats (restart (create_design_draft floats p)) actions).draft in
      IsPainted floats d × ((validate_design_draft d ≡ []) ↔ ImageFits d)
edited_design-IsPainted floats p actions total h =
    let d = (edited floats (restart (create_design_draft floats p)) actions).draft in
    let ok : IsPainted floats d =
      edited-IsPainted floats total (restart (create_design_draft floats p)) actions
        (created-IsPainted floats total p) h in
    (ok, (image_of d, valid_of floats d ok))
