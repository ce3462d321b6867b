-- ===== src/Media.antt =====
-- Media preparation, crates/tryx-media: a module per file.
pub mod Mxhd
pub mod Transform
pub mod Target
pub mod Check
