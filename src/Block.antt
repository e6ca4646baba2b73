-- ===== src/Block.antt =====
-- src/blocks.c: block structure. The input is cut into lines, and one line is read.
pub mod Line
pub mod Marker
pub mod Rule
pub mod Feed
pub mod Text
mod Tests
