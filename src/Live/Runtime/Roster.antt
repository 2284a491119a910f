-- ===== src/Live/Runtime/Roster.antt =====
-- `loadRoster` and `loadMoreRoster` of LiveRuntime.ts.
use pro_slides_go.Base.{
  if◌then◌else◌, ℕ, ◌+◌, String, Bool, true, false, ◌&&◌, Option, none, some, List, ◌++◌, ◌==◌,
  value_or,
}
use pro_slides_go.Js.Text.{is_empty}
use pro_slides_go.Live.Types.{RosterOrder, RosterPage, RosterEntry, joined, score}
use pro_slides_go.Live.Runtime.State.{Runtime, LiveClientRole, publish, same_text}

-- What a request answers: a value, or an error with its message.
pub data Reply {ℓ} (A : Type ℓ) : Type ℓ where
  ok : A → Reply A
  failed : (message : String) → Reply A

-- What `loadRoster` remembers across its request.
pub record RosterTicket : Type 0 where
  pub id : String
  pub lifecycle_version : ℕ
  pub request_version : ℕ
  pub order : RosterOrder
  pub append : Bool
  pub cursor : String

abbrev pub same_order : RosterOrder → RosterOrder → Bool
same_order joined joined = true
same_order score score = true
same_order a b = false

-- A text that is null or empty counts as absent.
abbrev pub truthy_text : Option String → Option String
truthy_text none = none
truthy_text (some s) = if is_empty s then none else some s

abbrev pub ticket_for : String → RosterOrder → Bool → Runtime → RosterTicket
ticket_for id order append r = record {
  id = id;
  lifecycle_version = r.lifecycle_version;
  request_version = r.roster_request_version + 1;
  order = order;
  append = append;
  cursor = if append && same_order order r.roster_order_value then r.roster_cursor else "";
}

abbrev pub begin :
    LiveClientRole → Option String → RosterOrder → Bool → Runtime → Runtime × Option RosterTicket
begin LiveClientRole.manager (some id) order append r = (
  publish (λ s. record s { is_roster_loading = true })
      (record r { roster_request_version = r.roster_request_version + 1 }),
  some (ticket_for id order append r),
)
begin role id order append r = (r, none)

-- Up to the request: no ticket means that the method returned false at once.
unfoldable pub load_roster_start : RosterOrder → Bool → Runtime → Runtime × Option RosterTicket
load_roster_start order append r = begin r.role (truthy_text r.selected_session_id) order append r

-- The three tests that a ticket is still the newest of the selected session.
abbrev pub is_current : RosterTicket → Runtime → Bool
is_current t r =
    same_text (some t.id) r.selected_session_id
    && (t.lifecycle_version == r.lifecycle_version && t.request_version == r.roster_request_version)

abbrev pub next_items : RosterTicket → RosterPage → Runtime → List RosterEntry
next_items t page r = if t.append then r.roster_value ++ page.items else page.items

abbrev pub show_page : RosterTicket → RosterPage → Runtime → Runtime
show_page t page r =
    publish
      (λ s. record s {
        roster = next_items t page r;
        roster_order = t.order;
        has_more_roster = page.has_more;
      })
      (record r {
        roster_value = next_items t page r;
        roster_cursor = value_or page.next_cursor "";
        roster_order_value = t.order;
      })

abbrev pub settle : RosterTicket → Runtime → Runtime
settle t r = if is_current t r then publish (λ s. record s { is_roster_loading = false }) r else r

-- From the answer to the return; `settle` is the `finally` block.
unfoldable pub load_roster_finish : RosterTicket → Reply RosterPage → Runtime → Runtime × Bool
load_roster_finish t (ok page) r =
    if is_current t r then (settle t (show_page t page r), true) else (settle t r, false)
load_roster_finish t (failed message) r = (
  settle t
      (if is_current t r then publish (λ s. record s { connection_error = some message }) r else r),
  false,
)

unfoldable pub load_more_roster : Runtime → Runtime × Option RosterTicket
unfolding load_roster_start
load_more_roster r = load_roster_start r.roster_order_value true r
