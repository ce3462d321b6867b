-- ===== src/Proto/RoundTrip.antt =====
-- Encoding a frame and taking it off the front of a buffer.
use tryxctl.Prelude.{
  ℕ, ◌≤◌, ◌<◌, ◌≡◌, ◌∙◌, none, some, [], ◌∷◌, ◌++◌, arith, length, take, drop, Bytes, starts_with,
  length-append, ltb, if◌then◌else◌, Result, ok, err, Option, from_le_bytes, to_le_bytes, ◌%◌, ◌/◌,
  ◌^◌, drop-drop, take-append, drop-append,
}
use tryxctl.Proto.{
  encode, magic, max_payload_len, payload_len, take_frame, MalformedFrame, payload_too_large,
}

abbrev pub header : ℕ → ℕ → ℕ → ℕ → Bytes → Bytes
header a b c d tail = b'T' ∷ b'R' ∷ b'Y' ∷ b'X' ∷ a ∷ b ∷ c ∷ d ∷ tail

-- A buffer whose eight header bytes are there.
unfoldable pub taken : ℕ → Bytes → Bytes → Result MalformedFrame (Option Bytes) × Bytes
taken len whole tail =
    if ltb max_payload_len len
    then (err (payload_too_large len), [])
    else if ltb (length tail) len
    then (ok none, whole)
    else (ok (some (take len tail)), drop len tail)

pub take_frame-header :
    (a b c d : ℕ) (tail : Bytes)
    → take_frame (header a b c d tail) ≡ taken (from_le_bytes a b c d) (header a b c d tail) tail
unfolding take_frame taken starts_with payload_len
take_frame-header a b c d tail =
    let n = from_le_bytes a b c d in ground (arith, drop-drop n 8 (header a b c d tail))

pub encode-inversion :
    (payload frame : Bytes)
    → encode payload ≡ some frame
    → (length payload ≤ max_payload_len)
      × (frame ≡ magic ++ (to_le_bytes (length payload % 2 ^ 32) ++ payload))
unfolding encode
encode-inversion payload frame h = ground arith

word-round_trip :
    (n : ℕ)
    → n < 2 ^ 32
    → from_le_bytes (n % 256) (n / 256 % 256) (n / 65536 % 256) (n / 16777216 % 256) ≡ n
word-round_trip n h = omega arith

-- Reading a frame off the front gives the payload that was encoded, whatever follows it.
pub take_frame-encode :
    (payload rest frame : Bytes)
    → encode payload ≡ some frame
    → take_frame (frame ++ rest) ≡ (ok (some payload), rest)
unfolding taken
take_frame-encode payload rest frame h =
    let (fits, shape) = encode-inversion payload frame h in
    let n = length payload % 2 ^ 32 in
    let len : n ≡ length payload = omega arith in
    rw shape (
      take_frame-header _ _ _ _ (payload ++ rest)
      ∙ rw (word-round_trip n (omega arith), len)
          (ground (
            arith,
            length-append payload rest,
            take-append payload rest,
            drop-append payload rest,
          )))
