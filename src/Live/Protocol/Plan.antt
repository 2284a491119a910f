-- ===== src/Live/Protocol/Plan.antt =====
-- The plans of apps/web/src/modules/live/runtime/protocol.ts against the server's rules.
use pro_slides_go.Base.{
  if◌then◌else◌, ◌+◌, ◌≡◌, ◌≢◌, ◌↔◌, ◌⊎◌, inl, inr, Option, none, some, List, [], ◌∷◌, arith,
  Option-cases, length, ℕ, Bool, true, false, ◌&&◌, String, refl, ap, ◌∙◌, not, ◌||◌,
}
use pro_slides_go.Live.Types.{
  presenting, revealed, overall_ranking, accepting, closed, item, draft, LiveState, ended,
  ActivityPhase, StageView,
}
use pro_slides_go.Live.Protocol.{
  LiveActionName, LiveNavigationCommand, next, plan_live_navigation, plan_live_end, start,
}
use pro_slides_go.Live.Server.{
  Stored, Target, apply_action, apply_actions, SlideKind, content_slide, activity_slide,
  other_slide, missing_slide,
}
use mathlib.Core.Path.{subst}
use pro_slides_go.Js.Text.{is_empty}

-- What the server's rows satisfy: an activity phase and the overall ranking only while presenting,
-- and a deadline only while answers are accepted.
pub record IsRow (s : Stored) : Type 0 where
  pub phase : s.state ≢ presenting → s.activity_phase ≡ none
  pub view : s.stage_view ≡ overall_ranking → s.activity_phase ≡ some revealed
  pub deadline : s.ends_at ≢ none → s.activity_phase ≡ some accepting

apply_action-IsRow :
    (target : Option Target) (action : LiveActionName) (s t : Stored)
    → IsRow s
    → apply_action target action s ≡ some t
    → IsRow t
unfolding apply_action
apply_action-IsRow target action s t h e = record {
  phase = ground (arith, h.view);
  view = ground (arith, h.phase);
  deadline = ground (arith, h.deadline);
}

-- A list of actions that the server accepts keeps its row well formed: an activity phase only while
-- presenting, the overall ranking only over a revealed activity, and a deadline only while answers
-- are accepted.
pub apply_actions-IsRow :
    (target : Option Target) (actions : List LiveActionName) (s t : Stored)
    → IsRow s
    → apply_actions target actions s ≡ some t
    → IsRow t
unfolding apply_actions
apply_actions-IsRow target [] s t h e = subst IsRow (cc) h
apply_actions-IsRow target (a ∷ rest) s t h e = elim (Option-cases (apply_action target a s)) [
  | inl refused ↦ cc (rw refused at e)
  | inr (u, accepted) ↦
      apply_actions-IsRow target rest u t (apply_action-IsRow target a s u h accepted)
        (rw accepted at e)
]

version_of_apply_action :
    (target : Option Target) (action : LiveActionName) (s t : Stored)
    → apply_action target action s ≡ some t
    → t.state_version ≡ s.state_version + 1
unfolding apply_action
version_of_apply_action target action s t e = ground arith

-- A list of actions that the server accepts raises the state version by its length.
pub apply_actions-version :
    (target : Option Target) (actions : List LiveActionName) (s t : Stored)
    → apply_actions target actions s ≡ some t
    → t.state_version ≡ s.state_version + length actions
unfolding apply_actions
apply_actions-version target [] s t e = ground arith
apply_actions-version target (a ∷ rest) s t e = elim (Option-cases (apply_action target a s)) [
  | inl refused ↦ cc (rw refused at e)
  | inr (u, accepted) ↦ omega (
    arith,
    version_of_apply_action target a s u accepted,
    apply_actions-version target rest u t (rw accepted at e),
  )
]

-- What the presenter sees happen on "next", described without the plans: the outcome of a running
-- activity first, then the overall ranking or the next slide.
abbrev phase_shown : SlideKind → Option ActivityPhase
phase_shown (activity_slide deadline) = some accepting
phase_shown kind = none

abbrev deadline_shown : SlideKind → Option String
deadline_shown (activity_slide deadline) = deadline
deadline_shown kind = none

abbrev show : Target → Stored → Stored
show t s = record s {
  state = presenting;
  state_version = s.state_version + 1;
  active_item_id = some t.item_id;
  activity_phase = phase_shown t.kind;
  stage_view = item;
  ends_at = deadline_shown t.kind;
}

abbrev reveal : ℕ → Stored → Stored
reveal steps s = record s {
  state_version = s.state_version + steps;
  activity_phase = some revealed;
  stage_view = item;
  ends_at = none;
}

abbrev seen : LiveState → Option ActivityPhase → StageView → Option Target → Stored → Stored
seen ended phase view slide s = s
seen presenting (some accepting) view slide s = reveal 2 s
seen presenting (some closed) view slide s = reveal 1 s
seen presenting (some revealed) item none s = record s {
  state_version = s.state_version + 1;
  stage_view = overall_ranking;
  ends_at = none;
}
seen state phase view none s = s
seen state phase view (some t) s = show t s

abbrev pub after_next : Option Target → Stored → Stored
after_next slide s = seen s.state s.activity_phase s.stage_view slide s

abbrev is_accepting : LiveState → Option ActivityPhase → Bool
is_accepting presenting (some accepting) = true
is_accepting state phase = false

abbrev over : LiveState → Option ActivityPhase → Stored → Stored
over ended phase s = s
over state phase s = record s {
  state = ended;
  state_version = s.state_version + (if is_accepting state phase then 2 else 1);
  active_item_id = none;
  activity_phase = none;
  stage_view = item;
  ends_at = none;
}

abbrev pub after_end : Stored → Stored
after_end s = over s.state s.activity_phase s

abbrev pub is_draft : LiveState → Bool
is_draft draft = true
is_draft state = false

abbrev pub is_given : Option Target → Bool
is_given none = false
is_given (some t) = true

abbrev is_shown : SlideKind → Bool
is_shown missing_slide = false
is_shown content_slide = true
is_shown (activity_slide none) = false
is_shown (activity_slide (some deadline)) = true
is_shown other_slide = false

-- A slide is given, with an id, and the session has it with content or with an activity that
-- decodes.
abbrev pub is_presentable : Option Target → Bool
is_presentable none = false
is_presentable (some t) = not (is_empty t.item_id) && is_shown t.kind

-- Nothing is left to be shown of the item before.
abbrev awaits_slide : LiveState → Option ActivityPhase → Bool
awaits_slide ended phase = false
awaits_slide presenting (some accepting) = false
awaits_slide presenting (some closed) = false
awaits_slide state phase = true

-- "next" with a slide from a draft, or with one that is due and cannot be presented.
abbrev pub refuses : LiveState → Option ActivityPhase → Option Target → Bool
refuses state phase slide =
    is_given slide && (is_draft state || (awaits_slide state phase && not (is_presentable slide)))

module _ (slide : Option Target) (s : Stored) where
  -- The presenter's commands, planned from the session that the server holds.
  unfoldable pub navigate : LiveNavigationCommand → Option Stored
  unfolding plan_live_navigation apply_actions apply_action
  navigate command =
      apply_actions slide
        (plan_live_navigation (some s.state) command slide s.activity_phase s.stage_view) s

  unfoldable pub finish : Option Stored
  unfolding plan_live_end apply_actions apply_action
  finish = apply_actions slide (plan_live_end (some s.state) s.activity_phase) s

  -- The server accepts every action that "next" plans, in turn, and the session becomes what the
  -- presenter sees happen. Only a plan with a slide is refused: from a draft, and where the slide is
  -- due and cannot be presented. That is one without an id, one that the session does not have, one
  -- of a kind that is neither content nor an activity, and an activity that does not decode.
  pub navigate-next :
      navigate next
      ≡ (if refuses s.state s.activity_phase slide then none else some (after_next slide s))
  unfolding navigate
  navigate-next = ground arith

  pub navigate-next_accepted :
      refuses s.state s.activity_phase slide ≡ false → navigate next ≡ some (after_next slide s)
  navigate-next_accepted h = rw (navigate-next) (rw h refl)

  -- "start" is refused exactly when the session is not over and a slide is given that cannot be
  -- presented, or any slide while an activity's answers are open or not yet revealed. A slide cannot
  -- be presented without an id, if the session does not have it, of a kind that is neither content
  -- nor an activity, and as an activity that does not decode.
  pub navigate-start : (navigate start ≡ none) ↔ (
      (s.state ≢ ended)
      × (slide ≢ none)
      × ((is_presentable slide ≡ false)
          ⊎ ((s.state ≡ presenting)
              × ((s.activity_phase ≡ some accepting) ⊎ (s.activity_phase ≡ some closed)))))
  unfolding navigate
  navigate-start = (λ e. ground arith, λ h. ground arith)

  -- The server accepts the plan that ends the session, and the session is over; only the plan made
  -- from a draft is refused.
  pub finish-ended : finish ≡ (if is_draft s.state then none else some (after_end s))
  unfolding finish
  finish-ended = ground arith

  pub finish-ended_live : s.state ≢ draft → finish ≡ some (after_end s)
  finish-ended_live live = ground (arith, finish-ended)

  -- While an activity's answers are open or not yet revealed, "next" reveals its outcome: the same
  -- item stays active, whether or not a slide follows.
  pub next_reveals :
      (t : Stored)
      → s.state ≡ presenting
      → (s.activity_phase ≡ some accepting) ⊎ (s.activity_phase ≡ some closed)
      → navigate next ≡ some t
      → (t.active_item_id ≡ s.active_item_id)
        × (t.activity_phase ≡ some revealed)
        × (t.stage_view ≡ item)
        × (t.state ≡ presenting)
  unfolding navigate
  next_reveals t h k e = ground arith

-- From a session that presents an activity in any phase, with no slide to follow, two "next"
-- commands are accepted and lead to the overall ranking of the same item, and a third changes
-- nothing.
pub next_reaches_ranking :
    (s : Stored)
    → s.state ≡ presenting
    → s.activity_phase ≢ none
    → (t : Stored) × (u : Stored) × (navigate none s next ≡ some t)
      × (navigate none t next ≡ some u)
      × (u.stage_view ≡ overall_ranking)
      × (u.active_item_id ≡ s.active_item_id)
      × (u.state ≡ presenting)
      × (navigate none u next ≡ some u)
next_reaches_ranking s h k =
    let t = after_next none s in
    let u = after_next none t in
    let same : after_next none u ≡ u = ground arith in
    (
      t,
      u,
      navigate-next_accepted none s refl,
      navigate-next_accepted none t refl,
      ground arith,
      ground arith,
      ground arith,
      navigate-next_accepted none u refl ∙ ap some same,
    )
