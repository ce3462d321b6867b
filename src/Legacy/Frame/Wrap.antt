-- ===== src/Legacy/Frame/Wrap.antt =====
-- What a reader makes of a wrapped text, and what the checksum finds.
use tryxctl.Prelude.{
  ℕ, ◌+◌, ◌*◌, ◌%◌, ◌≤◌, ◌<◌, ◌≡◌, ◌≢◌, refl, ◌∙◌, sym, true, some, Option, List, [], ◌∷◌, ◌++◌,
  arith, length, take, get_or, ok, err, Bytes, IsByte, length-append, take-append,
}
use mathlib.Core.List.{foldl, foldl-append}
use tryxctl.Prelude.Text.{from_utf8_lossy}
use tryxctl.Legacy.{LegacyError, request_too_long}
use tryxctl.Legacy.Frame.{
  frame_marker, framing_overhead, crc8, escape, unescape, raw_frame, wrap, build_frame, read_text,
  parse_decoded, parse_response,
}
use tryxctl.Legacy.Frame.Escape.{unescape-escape, length-escape}

wrap_error :
    (text : Bytes) (e : LegacyError) → wrap text ≡ err e → request_too_long (length text) ≡ e
unfolding wrap
wrap_error text e h = ground arith

-- A frame that cannot be built is too long.
pub build_frame_error :
    (state command content version : Bytes) (ack_number : ℕ) (e : LegacyError)
    → build_frame state command content version ack_number ≡ err e
    → (n : ℕ) × (request_too_long n ≡ e)
unfolding build_frame
build_frame_error state command content version ack_number e h = (_, wrap_error _ e h)

get_or-last : (xs : Bytes) (x d : ℕ) → get_or (xs ++ (x ∷ [])) (length xs) d ≡ x
get_or-last [] x d = refl
get_or-last (y ∷ xs) x d = get_or-last xs x d

pub wrap-inversion :
    (text frame : Bytes)
    → wrap text ≡ ok frame
    → (length text + framing_overhead ≤ 65535)
      × (frame
          ≡ frame_marker
            ∷ (escape (raw_frame text ++ (crc8 (raw_frame text) ∷ [])) ++ (frame_marker ∷ [])))
unfolding wrap
wrap-inversion text frame h = ground arith

length-raw_frame : (text : Bytes) → length (raw_frame text) ≡ length text + 2
unfolding raw_frame
length-raw_frame text = omega arith

module _ (Json : Type 0) (from_str : List ℕ → Option Json) where
  parse_decoded-raw_frame :
      (text : Bytes)
      → length text + framing_overhead ≤ 65535
      → parse_decoded Json from_str (raw_frame text ++ (crc8 (raw_frame text) ∷ []))
        ≡ some (read_text Json from_str (from_utf8_lossy text) true true)
  unfolding parse_decoded raw_frame
  parse_decoded-raw_frame text h =
      let raw = raw_frame text in
      let sum = crc8 raw in
      let cut : take (length raw) (raw ++ (sum ∷ [])) ≡ raw = take-append raw (sum ∷ []) in
      ground (arith, length-append raw (sum ∷ []), get_or-last raw sum 0, cut)

  parse_response-delimited :
      (inner : Bytes)
      → 2 ≤ length inner
      → parse_response Json from_str (frame_marker ∷ (inner ++ (frame_marker ∷ [])))
        ≡ parse_decoded Json from_str (unescape inner)
  unfolding parse_response
  parse_response-delimited inner h = ground (
    arith,
    length-append inner (frame_marker ∷ []),
    get_or-last (frame_marker ∷ inner) frame_marker 0,
    take-append inner (frame_marker ∷ []),
  )

  -- A reader gets back the text of every frame that `wrap` builds, with the checksum and the length
  -- found right; the text is then decoded and split into status line and body.
  pub parse_response-wrap :
      (text frame : Bytes)
      → wrap text ≡ ok frame
      → parse_response Json from_str frame
        ≡ some (read_text Json from_str (from_utf8_lossy text) true true)
  parse_response-wrap text frame h =
      let (small, shape) = wrap-inversion text frame h in
      let raw = raw_frame text ++ (crc8 (raw_frame text) ∷ []) in
      let room : 2 ≤ length (escape raw) = omega (
        arith,
        length-escape raw,
        length-append (raw_frame text) (crc8 (raw_frame text) ∷ []),
        length-raw_frame text,
      ) in
      rw shape (
        parse_response-delimited (escape raw) room
        ∙ rw (unescape-escape raw) (parse_decoded-raw_frame text small))

-- A text is wrapped exactly if its length and five more bytes fit sixteen bits; otherwise the error
-- carries the length of the text. A frame has at most two bytes for each byte covered.
pub wrap_bounds :
    (text : Bytes)
    → (length text ≤ 65530
        → (frame : Bytes) × (wrap text ≡ ok frame)
          × (length text + framing_overhead ≤ length frame)
          × (length frame ≤ 2 * length text + 8))
      × (65530 < length text → wrap text ≡ err (request_too_long (length text)))
unfolding wrap
wrap_bounds text =
    let raw = raw_frame text ++ (crc8 (raw_frame text) ∷ []) in
    let size : length raw ≡ length text + 3 =
      length-append (raw_frame text) _ ∙ omega (arith, length-raw_frame text) in
    let whole : length (frame_marker ∷ (escape raw ++ (frame_marker ∷ [])))
        ≡ length (escape raw) + 2 =
      omega (arith, length-append (escape raw) (frame_marker ∷ [])) in
    (
      λ h. (
        frame_marker ∷ (escape raw ++ (frame_marker ∷ [])),
        ground arith,
        omega (arith, length-escape raw, size, whole),
        omega (arith, length-escape raw, size, whole),
      ),
      λ h. ground arith,
    )

abbrev add_byte : ℕ → ℕ → ℕ
add_byte sum byte = (sum + byte) % 256

-- From different sums the same bytes lead to different sums.
add_byte_injective :
    (m n : ℕ) (xs : Bytes) → m < 256 → n < 256 → foldl add_byte m xs ≡ foldl add_byte n xs → m ≡ n
add_byte_injective m n [] hm hn h = h
add_byte_injective m n (x ∷ xs) hm hn h =
    let e = add_byte_injective (add_byte m x) (add_byte n x) xs (omega arith) (omega arith) h in
    omega arith

crc8_injective :
    (front back : Bytes) (a b : ℕ)
    → IsByte a
    → IsByte b
    → crc8 (front ++ (a ∷ back)) ≡ crc8 (front ++ (b ∷ back))
    → a ≡ b
unfolding crc8
crc8_injective front back a b ha hb h =
    let sum = foldl add_byte 0 front in
    let later : foldl add_byte (add_byte sum a) back ≡ foldl add_byte (add_byte sum b) back =
      sym (foldl-append add_byte 0 front (a ∷ back))
      ∙ h
      ∙ foldl-append add_byte 0 front (b ∷ back) in
    let e = add_byte_injective _ _ back (omega arith) (omega arith) later in omega arith

-- Changing one byte of what the checksum covers changes the checksum.
pub crc8_detects :
    (front back : Bytes) (a b : ℕ)
    → IsByte a
    → IsByte b
    → a ≢ b
    → crc8 (front ++ (a ∷ back)) ≢ crc8 (front ++ (b ∷ back))
crc8_detects front back a b ha hb differ e = differ (crc8_injective front back a b ha hb e)
