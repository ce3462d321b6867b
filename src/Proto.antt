-- ===== src/Proto.antt =====
-- The frame codec and the resynchronisation of crates/tryx-proto/src/frame.rs. A byte is a number
-- below 256, `usize` is unbounded, and a function that changes its buffer returns the new one.
use tryxctl.Prelude.{
  ℕ, zero, suc, ◌+◌, ◌-◌, ◌*◌, ◌%◌, ◌^◌, min, Bool, true, false, ◌&&◌, Option, none, some, List, [],
  ◌∷◌, ◌++◌, ltb, leb, if◌then◌else◌, length, get_or, take, drop, Result, ok, err, Bytes,
  to_le_bytes, from_le_bytes, equal, starts_with,
}
use mathlib.Core.Option
mod Search
mod RoundTrip
mod Stream
mod Magic
mod Plausible
mod Index
mod Tests

-- b"TRYX"
abbrev pub magic : Bytes
magic = b'T' ∷ b'R' ∷ b'Y' ∷ b'X' ∷ []

abbrev pub header_len : ℕ
header_len = 8

abbrev pub max_payload_len : ℕ
max_payload_len = 1024 * 1024

pub data MalformedFrame : Type 0 where
  bad_magic : MalformedFrame
  payload_too_large : ℕ → MalformedFrame

unfoldable pub encode : Bytes → Option Bytes
encode payload =
    if ltb max_payload_len (length payload)
    then none
    else some (magic ++ (to_le_bytes (length payload % 2 ^ 32) ++ payload))

-- The caller has checked that the eight header bytes are there; a missing one reads as 0.
unfoldable pub payload_len : Bytes → ℕ
payload_len header =
    from_le_bytes (get_or header 4 0) (get_or header 5 0) (get_or header 6 0) (get_or header 7 0)

unfoldable pub take_frame : Bytes → Result MalformedFrame (Option Bytes) × Bytes
take_frame buffer =
    if ltb (length buffer) (length magic)
    then (ok none, buffer)
    else if starts_with buffer magic
    then (if ltb (length buffer) header_len
        then (ok none, buffer)
        else (let len = payload_len buffer in
            if ltb max_payload_len len
            then (err (payload_too_large len), [])
            else (let frame_len = header_len + len in
                if ltb (length buffer) frame_len
                then (ok none, buffer)
                else (ok (some (take len (drop header_len buffer))), drop frame_len buffer))))
    else (err bad_magic, [])

-- `haystack.windows(needle.len()).position(|window| window == needle)`
unfoldable pub find : Bytes → Bytes → Option ℕ
find [] needle = none
find (x ∷ xs) needle =
    if starts_with (x ∷ xs) needle then some 0 else Option.map suc (find xs needle)

-- `while preserved > 0 && buffer[buffer.len() - preserved..] != MAGIC[..preserved]`
unfoldable pub preserved_prefix : Bytes → ℕ → ℕ
preserved_prefix buffer zero = 0
preserved_prefix buffer (suc p) =
    let shorter = preserved_prefix buffer p in
    if equal (drop (length buffer - suc p) buffer) (take (suc p) magic) then suc p else shorter

-- What is dropped when the buffer holds no magic.
unfoldable pub discard_unmatched : Bytes → ℕ × Bytes
discard_unmatched buffer =
    let preserved = preserved_prefix buffer (min (length magic - 1) (length buffer)) in
    let discarded = length buffer - preserved in (discarded, drop discarded buffer)

unfoldable pub discard_at : Option ℕ → Bytes → ℕ × Bytes
discard_at (some index) buffer = (index, drop index buffer)
discard_at none buffer = discard_unmatched buffer

unfoldable pub discard_bytes_before_frame_magic : Bytes → ℕ × Bytes
unfolding discard_at
discard_bytes_before_frame_magic [] = (0, [])
discard_bytes_before_frame_magic (x ∷ xs) =
    if starts_with (x ∷ xs) magic then (0, x ∷ xs) else discard_at (find (x ∷ xs) magic) (x ∷ xs)

-- Whether the bytes from here on are a complete frame of plausible size.
unfoldable pub heads_frame : Bytes → Bool
heads_frame rest =
    leb header_len (length rest)
    && leb (payload_len rest) max_payload_len
    && leb (header_len + payload_len rest) (length rest)

-- One round of the search for each unit of fuel.
unfoldable pub plausible_index_loop : ℕ → Bytes → ℕ → Option ℕ
plausible_index_loop zero buffer start = none
plausible_index_loop (suc fuel) buffer start = elim (find (drop start buffer) magic) [
  | none ↦ none
  | some offset ↦
      let index = start + offset in
      let next = plausible_index_loop fuel buffer (index + 1) in
      if heads_frame (drop index buffer) then some index else next
]

-- Every round but the last moves `start` by one byte at least.
unfoldable pub complete_plausible_frame_index : Bytes → Option ℕ
complete_plausible_frame_index buffer = plausible_index_loop (suc (length buffer)) buffer 0

-- One round of the loop for each unit of fuel; `discarded` counts the bytes dropped so far.
unfoldable pub discard_plausible_loop : ℕ → Bytes → ℕ → ℕ × Bytes
discard_plausible_loop zero buffer discarded = (discarded, buffer)
discard_plausible_loop (suc fuel) [] discarded = (discarded, [])
discard_plausible_loop (suc fuel) (x ∷ xs) discarded =
    let (dropped, buffer) = discard_bytes_before_frame_magic (x ∷ xs) in
    let again = discard_plausible_loop fuel (drop 1 buffer) (discarded + dropped + 1) in
    if ltb (length buffer) header_len
    then (discarded + dropped, buffer)
    else if leb (payload_len buffer) max_payload_len
    then (discarded + dropped, buffer)
    else again

-- Every round that goes on drops a byte at least.
unfoldable pub discard_bytes_before_plausible_frame : Bytes → ℕ × Bytes
discard_bytes_before_plausible_frame buffer = discard_plausible_loop (suc (length buffer)) buffer 0
