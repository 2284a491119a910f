-- ===== src/Editor.antt =====
-- The presentation editor of apps/web/src/modules/presentations: the data it edits, its validators,
-- the changes of slides and decks, and the drafts of its panels.
pub mod Model
pub mod Wording
pub mod Validation
pub mod Slides
pub mod Deck
pub mod Drafts
pub mod Registry
pub mod Tests
