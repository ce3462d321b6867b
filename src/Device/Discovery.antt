-- ===== src/Device/Discovery.antt =====
-- How displays are recognised and named, crates/tryx-device/src/discovery.rs: a module per concern.
-- Asking libusb and the file system is left out: what they give is data here.
pub mod Ids
pub mod Interface
pub mod Tree
mod Tests
