-- ===== src/Device.antt =====
-- The devices and their profiles, crates/tryx-device: a module per file.
pub mod Product
pub mod Discovery
