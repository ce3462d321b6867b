-- ===== src/Legacy/Frame/Taking.antt =====
-- Cutting frames out of the serial stream.
use tryxctl.Prelude.{
  suc, ◌+◌, ◌-◌, ◌≡◌, refl, ap, ◌∙◌, sym, none, some, ℕ, [], ◌∷◌, ◌++◌, arith, length, take, drop,
  ok, Bytes, drop-append, append_assoc, drop-drop,
}
use tryxctl.Legacy.Frame.{
  frame_marker, crc8, escape, raw_frame, wrap, position_marker, open_at, close_at, take_frame,
}
use tryxctl.Legacy.Frame.Escape.{IsUnmarked, escape-IsUnmarked}
use tryxctl.Legacy.Frame.Wrap.{wrap-inversion}

position_marker-unmarked :
    (noise rest : Bytes)
    → IsUnmarked noise
    → position_marker (noise ++ (frame_marker ∷ rest)) ≡ some (length noise)
unfolding position_marker
position_marker-unmarked [] rest h = refl
position_marker-unmarked (x ∷ noise) rest h =
    ground (arith, position_marker-unmarked noise rest h.1)

position_marker-none : (bytes : Bytes) → IsUnmarked bytes → position_marker bytes ≡ none
unfolding position_marker
position_marker-none [] h = refl
position_marker-none (x ∷ bytes) h = ground (arith, position_marker-none bytes h.1)

take_past :
    (inner : Bytes) (x : ℕ) (rest : Bytes)
    → take (suc (length inner)) (inner ++ (x ∷ rest)) ≡ inner ++ (x ∷ [])
take_past [] x rest = refl
take_past (y ∷ inner) x rest = ap (◌∷◌ y) (take_past inner x rest)

drop_past :
    (inner : Bytes) (x : ℕ) (rest : Bytes) → drop (suc (length inner)) (inner ++ (x ∷ rest)) ≡ rest
drop_past [] x rest = refl
drop_past (y ∷ inner) x rest = drop_past inner x rest

open_at-delimited :
    (buffer inner rest : Bytes) (n : ℕ)
    → IsUnmarked inner
    → drop n buffer ≡ frame_marker ∷ (inner ++ (frame_marker ∷ rest))
    → open_at buffer (some n) ≡ (some (frame_marker ∷ (inner ++ (frame_marker ∷ []))), rest)
unfolding open_at
open_at-delimited buffer inner rest n h e =
    let k = length inner in
    let next : drop (n + 1) buffer ≡ inner ++ (frame_marker ∷ rest) =
      sym (drop-drop 1 n buffer) ∙ ap (drop 1) e in
    let found : position_marker (drop (n + 1) buffer) ≡ some k =
      ap position_marker next ∙ position_marker-unmarked inner rest h in
    let len : n + 1 + k + 1 - n ≡ suc (suc k) = omega arith in
    let past : n + 1 + k + 1 ≡ n + suc (suc k) = omega arith in
    rw found (
      rw (len, past, ← drop-drop (suc (suc k)) n buffer, e)
        (rw (take_past inner frame_marker rest, drop_past inner frame_marker rest)))

-- A delimited run of bytes without markers, behind noise and in front of anything.
take_frame-delimited :
    (noise inner rest : Bytes)
    → IsUnmarked noise
    → IsUnmarked inner
    → take_frame (noise ++ (frame_marker ∷ (inner ++ (frame_marker ∷ rest))))
      ≡ (some (frame_marker ∷ (inner ++ (frame_marker ∷ []))), rest)
unfolding take_frame
take_frame-delimited noise inner rest hn hi =
    rw (position_marker-unmarked noise (inner ++ (frame_marker ∷ rest)) hn)
      (open_at-delimited _ inner rest (length noise) hi (drop-append noise _))

-- The next frame is cut out of the stream whole, whatever noise without a marker stands in front of
-- it, and what follows it stays in the buffer.
pub take_frame-wrap :
    (noise text frame rest : Bytes)
    → IsUnmarked noise
    → wrap text ≡ ok frame
    → take_frame (noise ++ (frame ++ rest)) ≡ (some frame, rest)
take_frame-wrap noise text frame rest hn h =
    let (small, shape) = wrap-inversion text frame h in
    let inner = escape (raw_frame text ++ (crc8 (raw_frame text) ∷ [])) in
    rw shape (
      rw (append_assoc inner (frame_marker ∷ []) rest)
        (take_frame-delimited noise inner rest hn (escape-IsUnmarked _)))

-- While no frame is complete, the buffer is left as it is.
pub take_frame-none : (buffer rest : Bytes) → take_frame buffer ≡ (none, rest) → rest ≡ buffer
unfolding take_frame open_at close_at
take_frame-none buffer rest h = ground arith

-- A frame of which the closing marker is missing is not taken, whatever noise stands before it.
pub take_frame_partial :
    (noise inner : Bytes)
    → IsUnmarked noise
    → IsUnmarked inner
    → take_frame (noise ++ (frame_marker ∷ inner)) ≡ (none, noise ++ (frame_marker ∷ inner))
unfolding take_frame
take_frame_partial noise inner hn hi =
    let whole = noise ++ (frame_marker ∷ inner) in
    let next : drop (length noise + 1) whole ≡ inner =
      sym (drop-drop 1 (length noise) whole) ∙ ap (drop 1) (drop-append noise _) in
    let unclosed : position_marker (drop (length noise + 1) whole) ≡ none =
      ap position_marker next ∙ position_marker-none inner hi in
    rw (position_marker-unmarked noise inner hn) (unfold open_at in rw unclosed)

pub take_frame-empty : (take_frame []).0 ≡ none
unfolding take_frame open_at position_marker
take_frame-empty = refl
