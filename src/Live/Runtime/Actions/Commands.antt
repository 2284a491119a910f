-- ===== src/Live/Runtime/Actions/Commands.antt =====
-- The presenter's commands from start to end, against a server that follows apps/api/internal/live.
use pro_slides_go.Base.{
  String, ◌≡◌, refl, sym, ap, ◌∙◌, inl, inr, Bool, Option, none, some, List, [], ◌∷◌, Option-cases,
  eq_of_some, ◌≢◌, true, false, arith,
}
use pro_slides_go.Live.Types.{LiveState, ActivityPhase, StageView, LiveSession, draft}
use pro_slides_go.Live.Protocol.{next, plan_live_navigation, LiveActionName, plan_live_end}
use pro_slides_go.Live.Server.{apply_action, apply_actions, Stored, Target, SlideKind}
use pro_slides_go.Live.Runtime.Actions.{
  run_actions, answered, requested, ActionTicket, action_key, run_action_finish, slide_for,
  conclude, send_navigation, send_end, command, plan_for, end_plan,
}
use pro_slides_go.Live.Runtime.Actions.Served.{
  serve, answer, session_of, InSync, Names, sent_id, start_eq, serve_eq, finish_in_sync,
  with_id-session,
}
use pro_slides_go.Js.Value.{Coercion, Value, str}
use pro_slides_go.Live.Runtime.State.{Runtime}
use mathlib.Core.Path.{subst}
use pro_slides_go.Live.Protocol.Plan.{
  after_end, after_next, navigate, finish, finish-ended_live, refuses, navigate-next_accepted,
}

-- Marking the command as under way leaves the client in sync.
mark :
    {base : LiveSession} {s : Stored} {r : Runtime}
    → InSync base s r
    → InSync base s (record r { command_in_flight = true })
mark sync = record {
  id = sync.id;
  selected = sync.selected;
  named = sync.named;
  snapshot = sync.snapshot;
  held = sync.held;
  top = sync.top;
  manager = sync.manager;
  synced = sync.synced;
}

-- The loop over a plan, beside the server's own run over the same actions.
module _ (js : Coercion) (base : LiveSession) (kinds : String → SlideKind)
    (fresh : LiveActionName → String) (refresh : Stored → Runtime → Runtime × Option String)
    (refusal : String) (slide : Option Value) (target : Option Target)
    (names : Names kinds slide target) where
  abbrev run : List LiveActionName → Stored → Runtime → Stored × Runtime × Option String
  run actions = run_actions js fresh (serve base kinds) refresh refusal actions slide

  abbrev Accepted : Stored → Stored × Runtime × Option String → Type 0
  Accepted s' (w, r, error) = (w ≡ s') × InSync base s' r × (error ≡ none)

  run_step :
      (action : LiveActionName) (rest : List LiveActionName) (s : Stored) (r : Runtime)
      (sync : InSync base s r)
      → (r' : Runtime) × (t : ActionTicket) × (run (action ∷ rest) s r
          ≡ answered js fresh
              (serve base kinds)
              refresh
              (run rest)
              t
              r'
              (answer base s (apply_action target action s)))
        × ((s' : Stored) → InSync base s' (run_action_finish t (session_of base s') r'))
  unfolding run_actions
  run_step action rest s r sync =
      let given = sent_id js base kinds (fresh action) action slide r sync.id sync.snapshot in
      let key = action_key js sync.id sync.snapshot action (slide_for action slide) in
      let t : ActionTicket = record { key = key; current = sync.snapshot } in
      (
        given.0,
        t,
        ap (requested js fresh (serve base kinds) refresh refusal (run rest) s)
              (start_eq js base kinds (fresh action) action slide s r sync)
            ∙ ap (answered js fresh (serve base kinds) refresh (run rest) t given.0)
                (serve_eq js base kinds action slide target s r given.1 names sync),
        λ s'.
            finish_in_sync js base kinds key s s' r given.0 sync
              (with_id-session js base kinds key (fresh action) _ r),
      )

  run-Accepted :
      (actions : List LiveActionName) (s s' : Stored) (r : Runtime)
      → InSync base s r
      → apply_actions target actions s ≡ some s'
      → Accepted s' (run actions s r)
  unfolding apply_actions run_actions
  run-Accepted [] s s' r sync e =
      let same : s ≡ s' = eq_of_some e in (same, subst (λ x. InSync base x r) same sync, refl)
  run-Accepted (action ∷ rest) s s' r sync e =
      let (r', t, eq, synced) = run_step action rest s r sync in
      let move = λ (o : Option Stored).
        answered js fresh (serve base kinds) refresh (run rest) t r' (answer base s o) in
      elim (Option-cases (apply_action target action s)) [
        | inl refused ↦ cc (rw refused at e)
        | inr (u, accepted) ↦ subst (Accepted s') (sym (eq ∙ ap move accepted)) (
            run-Accepted rest u s' (run_action_finish t (session_of base u) r') (synced u)
              (rw accepted at e))
      ]

  run_refused :
      (actions : List LiveActionName) (s : Stored) (r : Runtime)
      → InSync base s r
      → apply_actions target actions s ≡ none
      → (message : String) × ((run actions s r).2 ≡ some message)
  unfolding apply_actions run_actions
  run_refused [] s r sync e = cc
  run_refused (action ∷ rest) s r sync e =
      let (r', t, eq, synced) = run_step action rest s r sync in
      let move = λ (o : Option Stored).
        answered js fresh (serve base kinds) refresh (run rest) t r' (answer base s o) in
      elim (Option-cases (apply_action target action s)) [
        | inl refused ↦ ("invalid_live_action", ap (λ x. x.2) (eq ∙ ap move refused))
        | inr (u, accepted) ↦
            let (message, failed) =
              run_refused rest u (run_action_finish t (session_of base u) r') (synced u)
                (rw accepted at e) in
            (message, ap (λ x. x.2) (eq ∙ ap move accepted) ∙ failed)
      ]

  concluded :
      (out : Stored × Runtime × Option String)
      → out.2 ≡ none
      → let end_state = conclude js fresh (serve base kinds) refresh out in
        (end_state.0 ≡ out.0) × (end_state.2 ≡ true) × (end_state.1.command_in_flight ≡ false)
  concluded (w, r, none) e = (refl, refl, refl)
  concluded (w, r, some message) e = cc

  -- A command whose plan the server accepts.
  command_accepted :
      (actions : List LiveActionName) (s s' : Stored) (r : Runtime)
      → InSync base s r
      → apply_actions target actions s ≡ some s'
      → let out =
          conclude js fresh
            (serve base kinds)
            refresh
            (run actions s (record r { command_in_flight = true })) in
        (out.0 ≡ s') × (out.2 ≡ true) × (out.1.command_in_flight ≡ false)
  command_accepted actions s s' r sync e =
      let (world, _, quiet) =
        run-Accepted actions s s' (record r { command_in_flight = true }) (mark sync) e in
      let (same, done, free) =
        concluded (run actions s (record r { command_in_flight = true })) quiet in
      (same ∙ world, done, free)

-- A plan reads of the slide only whether there is one.
plan_of_Names :
    (kinds : String → SlideKind) (slide : Option Value) (target : Option Target) (state : LiveState)
    (phase : Option ActivityPhase) (view : StageView)
    → Names kinds slide target
    → plan_live_navigation (some state) next slide phase view
      ≡ plan_live_navigation (some state) next target phase view
unfolding plan_live_navigation
plan_of_Names kinds none none state phase view h = ground arith
plan_of_Names kinds (some (str id)) (some t) state phase view h = ground arith
plan_of_Names kinds slide target state phase view h = absurd h

module _ (js : Coercion) (base : LiveSession) (kinds : String → SlideKind)
    (fresh : LiveActionName → String) (refresh : Stored → Runtime → Runtime × Option String) where
  abbrev Ends :
      Bool → (Runtime → Stored × Runtime × Option String) → Stored → Stored → Runtime → Type 0
  Ends busy body s s' r =
      let out = command js fresh (serve base kinds) refresh busy body s r in
      (out.0 ≡ s') × (out.2 ≡ true) × (out.1.command_in_flight ≡ false)

  -- A command with a plan that the server accepts, from a client that is in sync and free.
  ends :
      (refusal : String) (slide : Option Value) (target : Option Target)
      (plan actions : List LiveActionName) (s s' : Stored) (r : Runtime)
      → Names kinds slide target
      → InSync base s r
      → r.command_in_flight ≡ false
      → plan ≡ actions
      → apply_actions target actions s ≡ some s'
      → Ends r.command_in_flight
          (run_actions js fresh (serve base kinds) refresh refusal plan slide s)
          s
          s'
          r
  ends refusal slide target plan actions s s' r names sync idle same accepted =
      let body = λ (p : List LiveActionName).
        run_actions js fresh (serve base kinds) refresh refusal p slide s in
      subst (λ b. Ends b (body plan) s s' r) (sym idle)
        (subst (λ p. Ends false (body p) s s' r) (sym same)
          (command_accepted js base kinds fresh refresh refusal slide target names actions s s' r
            sync accepted))

  -- The manager's client, in sync with the server's row and with no other command under way, sends
  -- "next" with no slide, or with one of an id that is not empty: unless the session is a draft with
  -- a slide given, or the slide is due and the server cannot present it, the row becomes what the
  -- presenter sees happen, the command reports success, and it is over.
  pub send_navigation-next :
      (slide : Option Value) (target : Option Target) (s : Stored) (r : Runtime)
      → Names kinds slide target
      → InSync base s r
      → r.command_in_flight ≡ false
      → refuses s.state s.activity_phase target ≡ false
      → let out = send_navigation js fresh (serve base kinds) refresh next slide s r in
        (out.0 ≡ after_next target s) × (out.2 ≡ true) × (out.1.command_in_flight ≡ false)
  unfolding send_navigation
  send_navigation-next slide target s r names sync idle accepted =
      ends "Live action was not authorized" slide target _ _ s _ r names sync idle
        ((λ i. plan_for js fresh (serve base kinds) refresh next slide (sync.held i))
          ∙ (λ i.
              plan_live_navigation (some (sync.synced i).state) next slide
                (sync.synced i).activity_phase (sync.synced i).stage_view)
          ∙ plan_of_Names kinds slide target s.state s.activity_phase s.stage_view names)
        (unfold navigate in navigate-next_accepted target s accepted)

  -- The manager's client, in sync with the row of a session that is no draft and with no other
  -- command under way, sends "end": an open activity is closed and the session in the server's row
  -- is over, the command reports success, and it is over too.
  pub send_end-ended :
      (s : Stored) (r : Runtime)
      → InSync base s r
      → r.command_in_flight ≡ false
      → s.state ≢ draft
      → let out = send_end js fresh (serve base kinds) refresh s r in
        (out.0 ≡ after_end s) × (out.2 ≡ true) × (out.1.command_in_flight ≡ false)
  unfolding send_end
  send_end-ended s r sync idle live =
      ends "Live end action was not authorized" none none _ _ s _ r tt sync idle
        ((λ i. end_plan js fresh (serve base kinds) refresh (sync.held i))
          ∙ (λ i. plan_live_end (some (sync.synced i).state) (sync.synced i).activity_phase))
        (unfold finish in finish-ended_live none s live)
