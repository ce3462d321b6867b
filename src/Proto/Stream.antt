-- ===== src/Proto/Stream.antt =====
-- Taking frames from a stream that arrives in pieces.
use tryxctl.Prelude.{
  ℕ, ◌+◌, ◌%◌, ◌^◌, ◌≤◌, ◌≡◌, refl, ap, ◌∙◌, none, some, [], ◌∷◌, ◌++◌, arith, length, take, drop,
  Bytes, starts_with, length-append, Result, ok, err, Option, from_le_bytes, to_le_bytes,
  take-append_le, drop-drop, drop-append_le, get_or-append, AreBytes, take-append-drop, length-take,
  length-drop, append-nil,
}
use tryxctl.Proto.{encode, magic, max_payload_len, payload_len, take_frame, MalformedFrame}
use tryxctl.Proto.Search.{starts_with-append_left, starts_with-append_back}
use tryxctl.Proto.RoundTrip.{take_frame-encode}

pub payload_len-append : (b more : Bytes) → 8 ≤ length b → payload_len (b ++ more) ≡ payload_len b
unfolding payload_len
payload_len-append b more h = cc (
  get_or-append b more 4 0 (omega arith),
  get_or-append b more 5 0 (omega arith),
  get_or-append b more 6 0 (omega arith),
  get_or-append b more 7 0 (omega arith),
)

-- A frame that has been taken is taken alike when more bytes stand behind the buffer.
pub take_frame-append_some :
    (b more payload rest : Bytes)
    → take_frame b ≡ (ok (some payload), rest)
    → take_frame (b ++ more) ≡ (ok (some payload), rest ++ more)
unfolding take_frame
take_frame-append_some b more payload rest h = ground (
  arith,
  length-append b more,
  payload_len-append b more,
  starts_with-append_left b more magic,
  drop-append_le 8 b more,
  take-append_le (payload_len b) (drop 8 b) more,
  length-drop 8 b,
  drop-append_le (8 + payload_len b) b more,
)

-- A header that has been refused is refused whatever follows it.
pub take_frame-append_err :
    (b more : Bytes) (e : MalformedFrame)
    → take_frame b ≡ (err e, [])
    → take_frame (b ++ more) ≡ (err e, [])
unfolding take_frame
take_frame-append_err b more e h = ground (
  arith,
  length-append b more,
  payload_len-append b more,
  starts_with-append_left b more magic,
  starts_with-append_back b more magic,
)

-- What is left in the buffer: all of it while bytes are missing, and nothing after an error.
pub take_frame-ok_none : (b rest : Bytes) → take_frame b ≡ (ok none, rest) → rest ≡ b
unfolding take_frame
take_frame-ok_none b rest h = ground arith

pub take_frame-err :
    (b rest : Bytes) (e : MalformedFrame) → take_frame b ≡ (err e, rest) → rest ≡ []
unfolding take_frame
take_frame-err b rest e h = ground arith

-- On a frame of which the end is missing, `take_frame` waits and leaves the buffer as it is.
pub take_frame-waits :
    (payload front back : Bytes) (x : ℕ)
    → encode payload ≡ some (front ++ (x ∷ back))
    → take_frame front ≡ (ok none, front)
take_frame-waits payload front back x h = go (take_frame front) refl
  where
    whole : take_frame (front ++ (x ∷ back)) ≡ (ok (some payload), [])
    whole = rw (append-nil (front ++ (x ∷ back))) at (take_frame-encode payload [] _ h)

    go :
        (t : Result MalformedFrame (Option Bytes) × Bytes)
        → take_frame front ≡ t
        → take_frame front ≡ (ok none, front)
    go (ok none, r) e = e ∙ ap (λ r. (ok none, r)) (take_frame-ok_none front r e)
    go (ok (some p), r) e =
        ground
          (arith, whole, take_frame-append_some front (x ∷ back) p r e, length-append r (x ∷ back))
    go (err m, r) e =
        let emptied = e ∙ ap (λ (t : Bytes). (err m, t)) (take_frame-err front r m e) in
        cc (whole, take_frame-append_err front (x ∷ back) m emptied)

header-inversion :
    (a b c d i j k l : ℕ) (tail payload rest : Bytes)
    → take_frame (a ∷ b ∷ c ∷ d ∷ i ∷ j ∷ k ∷ l ∷ tail) ≡ (ok (some payload), rest)
    → (a ∷ b ∷ c ∷ d ∷ [] ≡ magic)
      × (from_le_bytes i j k l ≤ max_payload_len)
      × (from_le_bytes i j k l ≤ length tail)
      × (payload ≡ take (from_le_bytes i j k l) tail)
      × (rest ≡ drop (from_le_bytes i j k l) tail)
unfolding take_frame starts_with payload_len
header-inversion a b c d i j k l tail payload rest h =
    let n = from_le_bytes i j k l in
    ground (arith, drop-drop n 8 (a ∷ b ∷ c ∷ d ∷ i ∷ j ∷ k ∷ l ∷ tail))

word-bytes :
    (i j k l : ℕ)
    → AreBytes (i ∷ j ∷ k ∷ l ∷ [])
    → to_le_bytes (from_le_bytes i j k l % 2 ^ 32) ≡ i ∷ j ∷ k ∷ l ∷ []
word-bytes i j k l h = ground arith

-- Whatever is taken from a buffer of bytes is the payload of a frame that stood at its front.
pub take_frame_sound :
    (b payload rest : Bytes)
    → AreBytes b
    → take_frame b ≡ (ok (some payload), rest)
    → (frame : Bytes) × (encode payload ≡ some frame) × (b ≡ frame ++ rest)
unfolding encode
take_frame_sound (a ∷ b ∷ c ∷ d ∷ i ∷ j ∷ k ∷ l ∷ tail) payload rest bytes h =
    let n = from_le_bytes i j k l in
    let (m, small, fits, p, r) = header-inversion a b c d i j k l tail payload rest h in
    let size : length payload ≡ n = rw p (omega (arith, length-take n tail)) in
    let word = word-bytes i j k l (omega arith) in
    (
      a ∷ b ∷ c ∷ d ∷ i ∷ j ∷ k ∷ l ∷ payload,
      ground (arith, size, word),
      ground (arith, take-append-drop n tail),
    )
take_frame_sound _ payload rest bytes h = unfold take_frame starts_with in ground arith
