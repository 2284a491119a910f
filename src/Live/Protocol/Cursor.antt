-- ===== src/Live/Protocol/Cursor.antt =====
-- The event cursor of apps/web/src/modules/live/runtime/protocol.ts over sequences of events.
use pro_slides_go.Base.{◌≡◌, refl, inl, inr, true, false, List, [], ◌∷◌, arith, Bool-cases, All}
use pro_slides_go.Js.Number.Laws.{IsFinite, ◌≤#◌, ◌<#◌, ≤#_refl, ≤#_trans}
use pro_slides_go.Live.Types.{LiveEvent, LiveSnapshot}
use pro_slides_go.Live.Protocol.{
  LiveCursor, should_apply_live_event, advance_live_cursor, live_cursor_from_snapshot,
}

pub record IsSound (c : LiveCursor) : Type 0 where
  pub event_id : IsFinite c.event_id
  pub state_version : IsFinite c.state_version

-- `c` is no later than `d`.
pub record Precedes (c d : LiveCursor) : Type 0 where
  pub event_id : c.event_id ≤# d.event_id
  pub state_version : c.state_version ≤# d.state_version

pub Precedes-refl : (c : LiveCursor) → IsSound c → Precedes c c
Precedes-refl c h = record {
  event_id = ≤#_refl c.event_id h.event_id;
  state_version = ≤#_refl c.state_version h.state_version;
}

pub Precedes-trans : (c d e : LiveCursor) → Precedes c d → Precedes d e → Precedes c e
Precedes-trans c d e h k = record {
  event_id = ≤#_trans c.event_id d.event_id e.event_id h.event_id k.event_id;
  state_version = ≤#_trans _ d.state_version _ h.state_version k.state_version;
}

-- What applying an event needs and does, field by field.
record Applied (c : LiveCursor) (e : LiveEvent) : Type 0 where
  newer : c.event_id <# e.event_id
  moved : (advance_live_cursor c e).event_id ≡ e.event_id
  sound : IsSound (advance_live_cursor c e)
  forward : Precedes c (advance_live_cursor c e)

module _ (c : LiveCursor) (e : LiveEvent) (h : IsSound c) where
  advance_of_ignored : should_apply_live_event c e ≡ false → advance_live_cursor c e ≡ c
  unfolding advance_live_cursor
  advance_of_ignored k = rw k

  applied : should_apply_live_event c e ≡ true → Applied c e
  unfolding advance_live_cursor should_apply_live_event
  applied k = record {
    newer = ground arith;
    moved = ground arith;
    sound = record { event_id = ground arith; state_version = ground arith };
    forward = record { event_id = ground arith; state_version = ground arith };
  }

  -- Applying an event, or ignoring it, keeps the cursor finite and never moves it back.
  pub advance-IsSound : IsSound (advance_live_cursor c e)
  advance-IsSound = elim (Bool-cases (should_apply_live_event c e)) [
    | inl k ↦ (applied k).sound
    | inr k ↦ rw (advance_of_ignored k) h
  ]

  pub advance-Precedes : Precedes c (advance_live_cursor c e)
  advance-Precedes = elim (Bool-cases (should_apply_live_event c e)) [
    | inl k ↦ (applied k).forward
    | inr k ↦ rw (advance_of_ignored k) (Precedes-refl c h)
  ]

  -- An applied event has a later id than the cursor, and the cursor takes that id.
  pub advance_id :
      should_apply_live_event c e ≡ true
      → (c.event_id <# e.event_id) × ((advance_live_cursor c e).event_id ≡ e.event_id)
  advance_id k = ((applied k).newer, (applied k).moved)

  -- An event that was offered once is ignored from then on.
  ignored_after : should_apply_live_event (advance_live_cursor c e) e ≡ false
  unfolding should_apply_live_event advance_live_cursor
  ignored_after = ground arith

ignored_later :
    (c d : LiveCursor) (e : LiveEvent)
    → IsSound c
    → IsSound d
    → Precedes c d
    → should_apply_live_event c e ≡ false
    → should_apply_live_event d e ≡ false
unfolding should_apply_live_event
ignored_later c d e h k p i = ground arith

-- The cursor after a sequence of events.
pub advance_all : LiveCursor → List LiveEvent → LiveCursor
advance_all c [] = c
advance_all c (e ∷ es) = advance_all (advance_live_cursor c e) es

pub advance_all-Precedes :
    (c : LiveCursor) (es : List LiveEvent)
    → IsSound c
    → IsSound (advance_all c es) × Precedes c (advance_all c es)
unfolding advance_all
advance_all-Precedes c [] h = (h, Precedes-refl c h)
advance_all-Precedes c (e ∷ es) h =
    let (sound, later) =
      advance_all-Precedes (advance_live_cursor c e) es (advance-IsSound c e h) in
    (sound, Precedes-trans c (advance_live_cursor c e) _ (advance-Precedes c e h) later)

abbrev Ignores : LiveCursor → List LiveEvent → Type 0
Ignores c es = All (λ e. should_apply_live_event c e ≡ false) es

all_ignored : (c : LiveCursor) (es : List LiveEvent) → IsSound c → Ignores (advance_all c es) es
unfolding advance_all
all_ignored c [] h = tt
all_ignored c (e ∷ es) h =
    let c' = advance_live_cursor c e in
    let sound = advance-IsSound c e h in
    let (end_sound, later) = advance_all-Precedes c' es sound in
    (ignored_later c' _ e sound end_sound later (ignored_after c e h), all_ignored c' es sound)

advance_all_of_Ignores :
    (c : LiveCursor) (es : List LiveEvent) → Ignores c es → advance_all c es ≡ c
unfolding advance_all advance_live_cursor
advance_all_of_Ignores c [] h = refl
advance_all_of_Ignores c (e ∷ es) (i, is) = rw i (advance_all_of_Ignores c es is)

-- From a cursor of finite numbers, a sequence of events that the stream delivers a second time
-- leaves the cursor where the first delivery put it, and none of the events is applied again.
pub advance_all_replay :
    (c : LiveCursor) (es : List LiveEvent)
    → IsSound c
    → (advance_all (advance_all c es) es ≡ advance_all c es)
      × All (λ e. should_apply_live_event (advance_all c es) e ≡ false) es
advance_all_replay c es h =
    (advance_all_of_Ignores (advance_all c es) es (all_ignored c es h), all_ignored c es h)

-- A snapshot's cursor holds finite numbers, whatever the snapshot holds.
pub live_cursor_from_snapshot-IsSound : (s : LiveSnapshot) → IsSound (live_cursor_from_snapshot s)
unfolding live_cursor_from_snapshot
live_cursor_from_snapshot-IsSound s = record {
  event_id = ground arith;
  state_version = ground arith;
}
