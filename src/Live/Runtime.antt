-- ===== src/Live/Runtime.antt =====
-- apps/web/src/modules/live/runtime/LiveRuntime.ts: the client's runtime of a live session.
-- An asynchronous method is one function for each stretch between two `await`s. The values that
-- such a stretch captured before the wait are its ticket, and what it waited for is an argument.
pub mod State
pub mod Roster
pub mod Refresh
pub mod Events
pub mod Actions
pub mod Answer
pub mod Steps
