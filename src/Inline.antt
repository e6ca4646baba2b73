-- ===== src/Inline.antt =====
-- src/inlines.c: inline parsing.
pub mod Backticks
pub mod Emphasis
pub mod Smart
pub mod Delims
mod Tests
