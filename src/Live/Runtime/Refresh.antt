-- ===== src/Live/Runtime/Refresh.antt =====
-- `refreshAuthoritative` of LiveRuntime.ts: one running refresh at a time, repeated while another
-- was asked for meanwhile.
use pro_slides_go.Base.{
  if◌then◌else◌, ℕ, ◌+◌, String, Bool, true, false, ◌&&◌, Option, none, some, [], ◌==◌,
}
use pro_slides_go.Live.Types.{
  LiveSnapshot, LiveState, ended, StageView, overall_ranking, Viewer, participant, RosterOrder,
  joined, score,
}
use pro_slides_go.Live.Runtime.State.{Runtime, publish, same_text, store_snapshot}
use pro_slides_go.Live.Runtime.Roster.{RosterTicket, load_roster_start, truthy_text}

-- What a running refresh remembers across its waits.
pub record RefreshTicket : Type 0 where
  pub id : String
  pub lifecycle_version : ℕ
  pub promise : ℕ

-- A call without a session throws; one beside a running refresh marks it dirty and shares its
-- promise; any other starts a refresh and asks for a snapshot.
pub data RefreshStart : Type 0 where
  not_selected : RefreshStart
  shared : (promise : ℕ) → RefreshStart
  started : RefreshTicket → RefreshStart

abbrev pub begin : Option String → Option ℕ → Runtime → Runtime × RefreshStart
begin none promise r = (r, not_selected)
begin (some id) (some promise) r = (record r { refresh_dirty = true }, shared promise)
begin (some id) none r = (
  record r { refresh_dirty = false; refresh_promise = some r.handles; handles = r.handles + 1 },
  started (record { id = id; lifecycle_version = r.lifecycle_version; promise = r.handles }),
)

unfoldable pub refresh_start : Runtime → Runtime × RefreshStart
refresh_start r = begin (truthy_text r.selected_session_id) r.refresh_promise r

-- Where a stretch of the loop stops: it throws since the session changed, asks for a snapshot
-- again, waits for the roster (if the roster method made a request), or ends.
pub data RefreshNext : Type 0 where
  changed again finished : RefreshNext
  awaiting : Option RosterTicket → RefreshNext

abbrev pub same_session : RefreshTicket → Runtime → Bool
same_session t r =
    same_text (some t.id) r.selected_session_id && t.lifecycle_version == r.lifecycle_version

abbrev pub order_in : StageView → LiveState → RosterOrder
order_in overall_ranking state = score
order_in view ended = score
order_in view state = joined

abbrev pub roster_order_for : LiveSnapshot → RosterOrder
roster_order_for s = order_in s.session.stage_view s.session.state

-- The test of the `do … while` loop; the next round clears the mark.
abbrev pub loop_test : Runtime → Runtime × RefreshNext
loop_test r = if r.refresh_dirty then (record r { refresh_dirty = false }, again) else (r, finished)

abbrev pub await_roster : Runtime × Option RosterTicket → Runtime × RefreshNext
await_roster (r, ticket) = (r, awaiting ticket)

-- A participant's snapshot clears the roster.
abbrev pub clear_roster : Runtime → Runtime
clear_roster r =
    publish (λ s. record s { roster = []; has_more_roster = false })
      (record r { roster_value = []; roster_cursor = "" })

abbrev pub after_store : Viewer → LiveSnapshot → Runtime → Runtime × RefreshNext
after_store (Viewer.manager top) received r =
    await_roster (load_roster_start (roster_order_for received) false r)
after_store (participant who answered result) received r = loop_test (clear_roster r)

abbrev pub stored : LiveSnapshot → Runtime × Bool → Runtime × RefreshNext
stored received (r, true) = after_store received.role received r
stored received (r, false) = loop_test (record r { refresh_dirty = true })

-- From the snapshot's arrival to the next wait.
unfoldable pub refresh_snapshot : RefreshTicket → LiveSnapshot → Runtime → Runtime × RefreshNext
unfolding store_snapshot load_roster_start
refresh_snapshot t received r =
    if same_session t r then stored received (store_snapshot received r) else (r, changed)

-- From the roster's arrival to the next wait.
unfoldable pub refresh_tail : RefreshTicket → Runtime → Runtime × RefreshNext
refresh_tail t r = if same_session t r then loop_test r else (r, changed)

abbrev pub same_promise : Option ℕ → ℕ → Bool
same_promise none p = false
same_promise (some q) p = q == p

-- The `finally` block of the call that started the refresh.
unfoldable pub refresh_settle : RefreshTicket → Runtime → Runtime
refresh_settle t r =
    if same_promise r.refresh_promise t.promise then record r { refresh_promise = none } else r
