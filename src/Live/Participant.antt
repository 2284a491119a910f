-- ===== src/Live/Participant.antt =====
-- The participant's side of a live session, of apps/web/src/modules/live/participant.
pub mod Attempt
pub mod Storage
pub mod Controller
