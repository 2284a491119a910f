-- ===== src/Editor/Drafts/Audio.antt =====
-- The draft of a presentation's music, of
-- apps/web/src/modules/presentations/editor/model/audioDraft.ts. `new URL(value)` is a parameter:
-- the protocol and the host of an address, or `none` where it throws.
use pro_slides_go.Base.{
  ℕ, String, Bool, true, false, not, ◌&&◌, ◌||◌, ◌⊎◌, Option, none, some, List, [], ◌∷◌, ◌≡◌,
  str_eq, ◌==◌, leb, if◌then◌else◌, refl, eq_iff, arith,
}
use pro_slides_go.Js.Text.{trim, is_empty}
use pro_slides_go.Editor.Model.{EditorPresentation}
use pro_slides_go.Editor.Validation.{Issue, plain, longer}
use pro_slides_go.Editor.Drafts.{DraftState, restart, patched, unless_issue}
use pro_slides_go.Editor.Wording.{music_url_too_long_text, music_url_invalid_text}

pub record AudioDraft : Type 0 where
  pub presentation_id : String
  pub revision : ℕ
  pub music_url : String

pub data AudioDraftAction : Type 0 where
  reset saved sync : AudioDraft → AudioDraftAction
  set_music_url : String → AudioDraftAction

pub data AudioField : Type 0 where
  music_url : AudioField

unfoldable pub create_audio_draft : EditorPresentation → AudioDraft
create_audio_draft p = record {
  presentation_id = p.quiz_id;
  revision = p.revision;
  music_url = trim p.music_url;
}

-- An edit that is not saved.
abbrev pub is_dirty : DraftState AudioDraft → Bool
is_dirty state = not (str_eq state.draft.music_url state.baseline.music_url)

unfoldable pub reconcile_audio_draft_state :
    DraftState AudioDraft → AudioDraft → DraftState AudioDraft
reconcile_audio_draft_state state incoming =
    if not (str_eq incoming.presentation_id state.baseline.presentation_id)
    then restart incoming
    else (if not (is_dirty state)
        then restart incoming
        else (if not (str_eq incoming.music_url state.baseline.music_url)
            then state
            else (if leb incoming.revision state.baseline.revision then state else record {
              baseline = incoming;
              draft = record state.draft {
                presentation_id = incoming.presentation_id;
                revision = incoming.revision;
              };
            })))

unfoldable pub audio_draft_reducer :
    DraftState AudioDraft → AudioDraftAction → DraftState AudioDraft
unfolding reconcile_audio_draft_state
audio_draft_reducer state (reset d) = restart d
audio_draft_reducer state (saved d) = restart d
audio_draft_reducer state (sync d) = reconcile_audio_draft_state state d
audio_draft_reducer state (set_music_url value) =
    patched state (record state.draft { music_url = value })

unfoldable pub audio_draft_equals : AudioDraft → AudioDraft → Bool
audio_draft_equals l r =
    str_eq l.presentation_id r.presentation_id
    && (l.revision == r.revision && str_eq l.music_url r.music_url)

module _ (parse_url : String → Option (String × String)) where
  abbrev is_web_address : Option (String × String) → Bool
  is_web_address none = false
  is_web_address (some (protocol, host)) =
      (str_eq protocol "http:" || str_eq protocol "https:") && not (is_empty host)

  abbrev pub is_http_url : String → Bool
  is_http_url value = is_web_address (parse_url value)

  unfoldable pub validate_audio_draft : AudioDraft → List (Issue AudioField)
  validate_audio_draft d =
      let value = trim d.music_url in
      if longer 4096 value
      then plain "music_url_too_long" AudioField.music_url music_url_too_long_text ∷ []
      else (if not (is_empty value) && not (is_http_url value)
          then plain "music_url_invalid" AudioField.music_url music_url_invalid_text ∷ []
          else [])

  -- What is sent: the address and the revision that it was edited on.
  unfoldable pub audio_draft_to_update : AudioDraft → String ⊎ (String × ℕ)
  unfolding validate_audio_draft
  audio_draft_to_update d = unless_issue (validate_audio_draft d) (trim d.music_url, d.revision)

-- The draft is an edit of the baseline.
pub record IsEditOf (state : DraftState AudioDraft) : Type 0 where
  pub presentation : state.draft.presentation_id ≡ state.baseline.presentation_id
  pub revised : state.draft.revision ≡ state.baseline.revision

reconcile-IsEditOf :
    (state : DraftState AudioDraft) (d : AudioDraft)
    → IsEditOf state
    → IsEditOf (reconcile_audio_draft_state state d)
unfolding reconcile_audio_draft_state
reconcile-IsEditOf state d h = record {
  presentation = ground (arith, h.presentation);
  revised = ground (arith, h.revised);
}

reducer-IsEditOf :
    (state : DraftState AudioDraft) (action : AudioDraftAction)
    → IsEditOf state
    → IsEditOf (audio_draft_reducer state action)
unfolding audio_draft_reducer
reducer-IsEditOf state (reset d) h = record { presentation = refl; revised = refl }
reducer-IsEditOf state (saved d) h = record { presentation = refl; revised = refl }
reducer-IsEditOf state (sync d) h = reconcile-IsEditOf state d h
reducer-IsEditOf state (set_music_url value) h = record {
  presentation = h.presentation;
  revised = h.revised;
}

-- An edit that is not saved survives what the server sends of the same presentation, and what is
-- then sent back carries the revision of an address that the edit began from; in every state, the
-- draft and the baseline have the same presentation and revision. A state without such an edit
-- takes over what the server sends.
pub audio_draft_reducer-IsEditOf :
    (state : DraftState AudioDraft) (action : AudioDraftAction)
    → IsEditOf state
    → IsEditOf (audio_draft_reducer state action)
      × ((d : AudioDraft)
          → is_dirty state ≡ true
          → d.presentation_id ≡ state.baseline.presentation_id
          → ((audio_draft_reducer state (sync d)).draft.music_url ≡ state.draft.music_url)
            × ((audio_draft_reducer state (sync d)).baseline.music_url ≡ state.baseline.music_url))
      × ((d : AudioDraft) → is_dirty state ≡ false → audio_draft_reducer state (sync d) ≡ restart d)
unfolding audio_draft_reducer reconcile_audio_draft_state
audio_draft_reducer-IsEditOf state action h = (
  reducer-IsEditOf state action h,
  λ d dirty same.
      let here : str_eq d.presentation_id state.baseline.presentation_id ≡ true =
        (eq_iff d.presentation_id state.baseline.presentation_id).1 same in
      (
        ground (arith, dirty, here),
        ground (arith, dirty, here, eq_iff d.music_url state.baseline.music_url),
      ),
  λ d clean. ground (arith, clean),
)
