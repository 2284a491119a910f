-- ===== src/Live/Projection/Showing.antt =====
-- What is shown to whom and when, for `projectLiveSnapshot` of
-- apps/web/src/modules/live/runtime/protocol.ts.
use pro_slides_go.Base.{
  if◌then◌else◌, zero, suc, true, false, ◌&&◌, refl, Bool-cases, arith, take, sym, ◌∙◌, ◌∷◌, ◌≤◌,
  Bool, ◌≡◌, ◌≢◌, ◌⊎◌, ◌↔◌, Option, none, some, List, [], length, ℕ, String, inl, inr,
}
use pro_slides_go.Js.Number.Laws.{IsFinite}
use pro_slides_go.Js.Value.{Value, Coercion}
use pro_slides_go.Live.Types.{
  LiveState, draft, lobby, presenting, ended, ActivityPhase, accepting, closed, revealed, StageView,
  item, overall_ranking, LiveSnapshot, Viewer, participant, manager, ParticipantWithScore,
  ActivityTopPerformer, RosterEntry,
}
use pro_slides_go.Live.Projection.{
  participant_to_legacy, is_answerable, is_presenting_item, question_of, content_of, is_ranking,
  ranking_rows, projected, project_live_snapshot,
}
use pro_slides_go.Live.Projection.Views.{
  question, content, LegacyLiveUser, LegacyLiveSlide, ProjectedServerData,
}
use pro_slides_go.Js.Number.{Number}
use pro_slides_go.Live.Projection.Slides.{normalize_live_slide, protocol_session}
use mathlib.Core.Path.{subst}

-- The fields of the view against the snapshot.
pub record IsViewOf (snapshot : LiveSnapshot) (p : ProjectedServerData) : Type 0 where
  pub one_slide : (p.current_question ≡ none) ⊎ (p.current_content ≡ none)
  pub on_item :
      (p.current_question ≡ none) × (p.current_content ≡ none)
      ⊎ (snapshot.session.state ≡ presenting) × (snapshot.session.stage_view ≡ item)
  pub open_question :
      p.current_question ≢ none
      → (snapshot.session.activity_phase ≡ some accepting)
        ⊎ (snapshot.session.activity_phase ≡ some revealed)
        ⊎ (snapshot.session.activity_phase ≡ some closed)
          × ((top : List ActivityTopPerformer) × (snapshot.role ≡ manager top))
  pub ranked :
      (p.leaderboard_results ≢ none)
      ↔ (snapshot.session.stage_view ≡ overall_ranking ⊎ snapshot.session.state ≡ ended)
  pub top_five : (rows : List LegacyLiveUser) → p.leaderboard_results ≡ some rows → length rows ≤ 5
  pub own_row :
      (me : ParticipantWithScore) (responded : Bool) (personal : Value)
      → snapshot.role ≡ participant me responded personal
      → (p.users ≡ [])
        × ((rows : List LegacyLiveUser)
            → p.leaderboard_results ≡ some rows
            → rows ≡ participant_to_legacy me ∷ [])
  pub counted : IsFinite p.participant_count

one_of :
    (a b : Bool) (active : Option LegacyLiveSlide)
    → (question_of a active ≡ none) ⊎ (content_of b active ≡ none)
one_of a b none = ground arith
one_of a b (some (question q)) = ground arith
one_of a b (some (content c)) = ground arith

presenting_item :
    (state : LiveState) (view : StageView)
    → is_presenting_item state view ≡ true
    → (state ≡ presenting) × (view ≡ item)
presenting_item presenting item h = (refl, refl)
presenting_item state view h = absurd (ground (arith, h))

off_item :
    (b : Bool) (active : Option LegacyLiveSlide)
    → (question_of (false && b) active ≡ none) × (content_of false active ≡ none)
off_item b active = (ground arith, ground arith)

shown_on_item :
    (state : LiveState) (view : StageView) (b : Bool) (active : Option LegacyLiveSlide)
    → (question_of (is_presenting_item state view && b) active ≡ none)
        × (content_of (is_presenting_item state view) active ≡ none)
      ⊎ (state ≡ presenting) × (view ≡ item)
shown_on_item state view b active = elim (Bool-cases (is_presenting_item state view)) [
  | inl e ↦ inr (presenting_item state view e)
  | inr e ↦ inl (rw e (off_item b active))
]

abbrev Open : Viewer → Option ActivityPhase → Type 0
Open viewer phase =
    (phase ≡ some accepting)
    ⊎ (phase ≡ some revealed)
    ⊎ (phase ≡ some closed) × ((top : List ActivityTopPerformer) × (viewer ≡ manager top))

Open-of :
    (viewer : Viewer) (phase : Option ActivityPhase)
    → is_answerable viewer phase ≡ true
    → Open viewer phase
Open-of viewer (some accepting) h = inl refl
Open-of viewer (some revealed) h = inr (inl refl)
Open-of (manager top) (some closed) h = inr (inr (refl, (top, refl)))
Open-of (participant me responded personal) (some closed) h = cc
Open-of (manager top) none h = cc
Open-of (participant me responded personal) none h = cc

shown-Open :
    (viewer : Viewer) (phase : Option ActivityPhase) (b : Bool) (active : Option LegacyLiveSlide)
    → question_of (b && is_answerable viewer phase) active ≢ none
    → Open viewer phase
shown-Open viewer phase b active h = elim (Bool-cases (is_answerable viewer phase)) [
  | inl e ↦ Open-of viewer phase e
  | inr e ↦ absurd (h (rw e (ground arith)))
]

ranking_iff :
    (view : StageView) (state : LiveState) (rows : List LegacyLiveUser)
    → ((if is_ranking view state then some rows else none) ≢ none)
      ↔ (view ≡ overall_ranking ⊎ state ≡ ended)
ranking_iff overall_ranking state rows = (λ h. inl refl, λ h e. cc)
ranking_iff item ended rows = (λ h. inr refl, λ h e. cc)
ranking_iff item draft rows = (λ h. absurd (h refl), λ h e. elim h [ inl f ↦ cc | inr f ↦ cc ])
ranking_iff item lobby rows = (λ h. absurd (h refl), λ h e. elim h [ inl f ↦ cc | inr f ↦ cc ])
ranking_iff item presenting rows = (λ h. absurd (h refl), λ h e. elim h [ inl f ↦ cc | inr f ↦ cc ])

length-take : (n : ℕ) (rows : List LegacyLiveUser) → length (take n rows) ≤ n
length-take zero rows = omega arith
length-take (suc n) [] = omega arith
length-take (suc n) (row ∷ rows) = omega (arith, length-take n rows)

few_rows : (viewer : Viewer) (roster : List RosterEntry) → length (ranking_rows viewer roster) ≤ 5
few_rows (manager top) roster = length-take 5 _
few_rows (participant me responded personal) roster = omega arith

listed :
    (b : Bool) (rows rows' : List LegacyLiveUser)
    → (if b then some rows else none) ≡ some rows'
    → rows ≡ rows'
listed true rows rows' h = cc
listed false rows rows' h = cc

-- Of a snapshot, the pages never show a question and a content slide at once, and either only
-- while the session presents an item; a question only while it is answered, after its reveal or,
-- to the manager, between these; a ranking exactly at the overall ranking or after the end, of five
-- rows at most, and to a participant only their own row; and the number of participants is finite.
pub project_live_snapshot-IsViewOf :
    (js : Coercion) (parse_date : String → Number) (now : Number) (snapshot : LiveSnapshot)
    (roster : List RosterEntry)
    → (p : ProjectedServerData) × (project_live_snapshot js parse_date now (some snapshot) roster
        ≡ some p)
      × IsViewOf snapshot p
unfolding project_live_snapshot
project_live_snapshot-IsViewOf js parse_date now snapshot roster =
    let active =
      normalize_live_slide js parse_date now snapshot.active_item
        (protocol_session snapshot.session) in
    let session = snapshot.session in
    let on_item = is_presenting_item session.state session.stage_view in
    (
      projected js snapshot roster active,
      refl,
      record {
        one_slide =
            one_of (on_item && is_answerable snapshot.role session.activity_phase) on_item active;
        on_item =
            shown_on_item session.state session.stage_view
              (is_answerable snapshot.role session.activity_phase) active;
        open_question = shown-Open snapshot.role session.activity_phase on_item active;
        ranked = ranking_iff session.stage_view session.state (ranking_rows snapshot.role roster);
        top_five =
            λ rows h. subst (λ x. length x ≤ 5) (listed _ _ _ h) (few_rows snapshot.role roster);
        own_row =
            λ me responded personal e. (rw e refl, λ rows h. sym (listed _ _ _ h) ∙ rw e refl);
        counted = ground arith;
      },
    )
