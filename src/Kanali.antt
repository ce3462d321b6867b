-- ===== src/Kanali.antt =====
-- The KANALI protocol of crates/tryx-kanali, with the messages of crates/tryx-proto.
pub mod Wire
pub mod Transport
pub mod Errors
pub mod Session
pub mod Device
pub mod Overlay
