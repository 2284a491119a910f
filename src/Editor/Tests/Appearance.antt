-- ===== src/Editor/Tests/Appearance.antt =====
-- The theorems about the drafts of the design and of the music, at concrete drafts.
use pro_slides_go.Editor.Drafts.Design.Painted.{
  edited, ImageFits, IsPainted, edited_design-IsPainted, IsTotal,
}
use pro_slides_go.Base.{
  ◌≡◌, refl, List, [], ◌∷◌, true, false, ◌↔◌, ℕ, zero, suc, ◌+◌, ◌*◌, ◌/◌, arith, leb,
}
use pro_slides_go.Editor.Model.{EditorPresentation}
use pro_slides_go.Editor.Drafts.{DraftState, restart}
use pro_slides_go.Editor.Drafts.Audio.{
  AudioDraft, sync, set_music_url, is_dirty, audio_draft_reducer, IsEditOf,
  audio_draft_reducer-IsEditOf,
}
use pro_slides_go.Editor.Drafts.Design.{
  DesignDraftAction, set_background_color, set_text_color, validate_design_draft,
  create_design_draft,
}
use pro_slides_go.Editor.Drafts.Contrast.{Floats}

abbrev old_music : AudioDraft
old_music = record { presentation_id = "p"; revision = 3; music_url = "https://a" }

abbrev typed : DraftState AudioDraft
typed = record { baseline = old_music; draft = record old_music { music_url = "https://b" } }

audio_draft_reducer-IsEditOf_example :
    IsEditOf (audio_draft_reducer typed (set_music_url "x"))
    × ((d : AudioDraft)
        → is_dirty typed ≡ true
        → d.presentation_id ≡ typed.baseline.presentation_id
        → ((audio_draft_reducer typed (sync d)).draft.music_url ≡ typed.draft.music_url)
          × ((audio_draft_reducer typed (sync d)).baseline.music_url ≡ typed.baseline.music_url))
    × ((d : AudioDraft) → is_dirty typed ≡ false → audio_draft_reducer typed (sync d) ≡ restart d)
audio_draft_reducer-IsEditOf_example =
    audio_draft_reducer-IsEditOf typed (set_music_url "x")
      (record { presentation = refl; revised = refl })

abbrev plain_deck : EditorPresentation
plain_deck = record {
  quiz_id = "p";
  revision = 1;
  access_code = "";
  title = "";
  quiz_name = "";
  background_color = "#FFFFFF";
  background_image_url = "";
  text_color = "black";
  music_url = "";
  background = record { color = ""; image = ""; text_color = "" };
  slides = [];
  created_at = "";
  last_update = "";
}

-- Numbers in millionths, with a square for the power.
abbrev millionths : ℕ → ℕ → ℕ
millionths m zero = m * 1000000
millionths m (suc k) = millionths m k / 10

abbrev floats : Floats ℕ
floats = record {
  decimal = millionths;
  plus = λ a b. a + b;
  times = λ a b. a * b / 1000000;
  divided = λ a b. a * 1000000 / b;
  power = λ a b. a * a / 1000000;
  at_most = leb;
}

floats-IsTotal : IsTotal floats
floats-IsTotal a b h = ground (arith, h)

abbrev repainted : List DesignDraftAction
repainted = set_background_color "#102030" ∷ set_text_color "#ABCDEF" ∷ []

edited_design-IsPainted_example :
    let d = (edited floats (restart (create_design_draft floats plain_deck)) repainted).draft in
    IsPainted floats d × ((validate_design_draft d ≡ []) ↔ ImageFits d)
edited_design-IsPainted_example =
    edited_design-IsPainted floats plain_deck repainted floats-IsTotal (tt, (tt, tt))
