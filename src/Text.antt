-- ===== src/Text.antt =====
-- The string methods of JavaScript that the program's parsers call (`split`, `trim`, `parseInt`,
-- `indexOf`, `startsWith`), over the code units of a text.
pub mod Split
pub mod Trim
pub mod Number
pub mod Search
