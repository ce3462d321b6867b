-- ===== src/Legacy.antt =====
-- The cm01 protocol of crates/tryx-legacy: the errors of src/lib.rs, and a module per file.
pub mod Frame
pub mod Adb
pub mod Serial
pub mod Commands
pub mod Client
use tryxctl.Prelude.{ℕ, Bytes}

-- A text is its bytes; what the serial port and the operating system report is a text too.
pub data LegacyError : Type 0 where
  serial : Bytes → Bytes → LegacyError
  io : Bytes → LegacyError
  request_too_long : ℕ → LegacyError
  no_response : Bytes → ℕ → LegacyError
  malformed_response : Bytes → LegacyError
  missing_json : Bytes → LegacyError
  adb_missing : LegacyError
  adb : Bytes → Bytes → LegacyError
  unsafe_media_name : Bytes → LegacyError
