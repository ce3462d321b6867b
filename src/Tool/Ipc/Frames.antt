-- ===== src/Tool/Ipc/Frames.antt =====
-- A frame of the socket, written and read.
use tryxctl.Prelude.{
  ℕ, ◌/◌, ◌%◌, ◌^◌, ◌≡◌, ◌<◌, ◌∙◌, ◌∷◌, ◌++◌, if◌then◌else◌, leb, length, ok, err, Bytes,
  from_le_bytes, take-append, drop-append, length-append, arith,
}
use tryxctl.Tool.Ipc
use tryxctl.Tool.Ipc.{max_frame, IoError, unexpected_eof, frame_too_large, write_frame, read_frame}

-- Reading from a stream that begins with a header.
read_frame-header :
    (a b c d : ℕ) (stream : Bytes)
    → read_frame (a ∷ b ∷ c ∷ d ∷ stream) ≡ Ipc.read_body (from_le_bytes a b c d) stream
unfolding read_frame
read_frame-header a b c d stream = ground arith

read_body-append :
    (bytes rest : Bytes) (len : ℕ)
    → len ≡ length bytes
    → Ipc.read_body len (bytes ++ rest)
      ≡ (if leb (length bytes) max_frame then ok (bytes, rest) else err frame_too_large)
unfolding Ipc.read_body
read_body-append bytes rest len e =
    rw e (ground (arith, length-append bytes rest, take-append bytes rest, drop-append bytes rest))

-- A frame that is written, of less than 4 GiB, is read back whatever follows it, if it has at most
-- 1 MiB; a longer one is refused, though it was written.
pub read_frame-write_frame :
    (bytes rest : Bytes)
    → length bytes < 2 ^ 32
    → read_frame (write_frame bytes ++ rest)
      ≡ (if leb (length bytes) max_frame then ok (bytes, rest) else err frame_too_large)
unfolding write_frame
read_frame-write_frame bytes rest h =
    let n = length bytes % 2 ^ 32 in
    read_frame-header (n % 256) (n / 256 % 256) (n / 65536 % 256) (n / 16777216 % 256)
      (bytes ++ rest)
    ∙ read_body-append bytes rest
        (from_le_bytes (n % 256) (n / 256 % 256) (n / 65536 % 256) (n / 16777216 % 256))
        (omega (arith, h))
