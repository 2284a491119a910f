-- ===== src/Live.antt =====
-- apps/web/src/modules/live: the client of a live session.
pub mod Types
pub mod Protocol
pub mod Projection
pub mod Server
pub mod Result
pub mod Runtime
pub mod Participant
pub mod Tests
