-- ===== src/Js.antt =====
-- The parts of JavaScript's standard library that the source uses: numbers, texts, and the
-- values that `JSON.parse` returns.
pub mod Number
pub mod Text
pub mod Value
pub mod TextMap
