-- ===== src/Tool/Ipc.antt =====
-- The frames of the daemon's socket in crates/tryxctl/src/ipc.rs. A stream is the bytes that it
-- gives before it ends; an error of the operating system is the end of the stream.
mod Frames
mod Tests
use tryxctl.Prelude.{
  ℕ, ◌+◌, ◌*◌, ◌%◌, ◌^◌, Bool, true, false, List, [], ◌∷◌, ◌++◌, if◌then◌else◌, ltb, length, take,
  drop, get_or, Result, ok, err, Bytes, to_le_bytes, from_le_bytes,
}

abbrev pub max_frame : ℕ
max_frame = 1024 * 1024

pub data IoError : Type 0 where
  unexpected_eof frame_too_large : IoError

-- What is written to the stream.
pub write_frame : Bytes → Bytes
write_frame bytes = to_le_bytes (length bytes % 2 ^ 32) ++ bytes

-- The bytes read, and what the stream has left.
pub read_exact : ℕ → Bytes → Result IoError (Bytes × Bytes)
read_exact n stream =
    if ltb (length stream) n then err unexpected_eof else ok (take n stream, drop n stream)

read_body : ℕ → Bytes → Result IoError (Bytes × Bytes)
unfolding read_exact
read_body len stream = if ltb max_frame len then err frame_too_large else read_exact len stream

read_header : Result IoError (Bytes × Bytes) → Result IoError (Bytes × Bytes)
unfolding read_body
read_header (err e) = err e
read_header (ok (header, stream)) =
    read_body
      (from_le_bytes (get_or header 0 0) (get_or header 1 0) (get_or header 2 0)
        (get_or header 3 0))
      stream

pub read_frame : Bytes → Result IoError (Bytes × Bytes)
unfolding read_header read_exact
read_frame stream = read_header (read_exact 4 stream)
