-- ===== src/Media/Mxhd.antt =====
-- The Turris media blob of crates/tryx-media/src/mxhd.rs. A function that appends to `out` returns
-- what it appends, and a cursor into a slice is the list of bytes from there on.
mod Varint
mod RoundTrip
mod Units
mod Fuel
mod Wrap
mod Tests
use tryxctl.Prelude.{
  ℕ, zero, suc, ◌+◌, ◌-◌, ◌*◌, ◌/◌, ◌%◌, ◌^◌, Bool, true, false, ◌&&◌, ◌||◌, not, Option, none,
  some, List, [], ◌∷◌, ◌++◌, ltb, leb, ◌==◌, if◌then◌else◌, length, take, drop, Result, ok, err,
  Bytes, to_le_bytes, from_le_bytes,
}
use tryxctl.Prelude.Text.{codes}

pub data MediaKind : Type 0 where
  image video : MediaKind

-- The discriminants of the enum.
pub kind_value : MediaKind → ℕ
kind_value image = 2
kind_value video = 4

pub record Header : Type 0 where
  pub kind : MediaKind
  pub frames : ℕ
  pub width : ℕ
  pub height : ℕ
  pub fps : ℕ

abbrev pub magic : ℕ
magic = 0x4D58_4844

abbrev description : Bytes
description = codes "Tryx media header v1, fps=30, size=1280x720"

-- `(value & 0x7f) as u8 | 0x80` is the lowest seven bits and 128. One group for each unit of fuel.
pub varint_loop : ℕ → ℕ → Bytes
varint_loop zero value = value % 256 ∷ []
varint_loop (suc fuel) value =
    let more = (value % 128 + 128) ∷ varint_loop fuel (value / 128) in
    if leb 128 value then more else value % 256 ∷ []

-- A `u64` has ten groups of seven bits.
pub varint : ℕ → Bytes
varint value = varint_loop 9 value

pub varint_field : ℕ → ℕ → Bytes
varint_field field value = varint (field * 8) ++ varint value

-- `(field << 3) | 2`
pub bytes_field : ℕ → Bytes → Bytes
bytes_field field value = varint (field * 8 + 2) ++ (varint (length value) ++ value)

-- With `VERSION`, `FPS`, `WIDTH` and `HEIGHT` in fields 4 to 7.
pub metadata : MediaKind → ℕ → Bytes
metadata kind frames =
    varint_field 1 magic
    ++ (bytes_field 2 description
        ++ (varint_field 3 (kind_value kind)
            ++ (varint_field 4 1
                ++ (varint_field 5 30
                    ++ (varint_field 6 1280 ++ (varint_field 7 720 ++ varint_field 8 frames))))))

pub prefix : MediaKind → ℕ → Bytes
prefix kind frames = to_le_bytes (length (metadata kind frames) % 2 ^ 32) ++ metadata kind frames

-- The stream from index `i` on; a start code and its first byte advance by three bytes.
pub count_access_units : Bytes → ℕ
count_access_units (a ∷ b ∷ c ∷ d ∷ rest) =
    let past = (if d % 32 == 9 then 1 else 0) + count_access_units (d ∷ rest) in
    let next = count_access_units (b ∷ c ∷ d ∷ rest) in
    if a == 0 && b == 0 && c == 1 then past else next
count_access_units _ = 0

-- The messages of `MediaError::Verify`, and an error of the file system.
pub data WrapError : Type 0 where
  empty_stream no_delimiters : WrapError
  not_one_frame : ℕ → WrapError
  io : Bytes → WrapError

is_image : MediaKind → Bool
is_image image = true
is_image video = false

is_empty : Bytes → Bool
is_empty [] = true
is_empty (x ∷ xs) = false

-- The number of frames, and what is to be written.
pub wrap_stream : Bytes → MediaKind → Result WrapError (ℕ × Bytes)
unfolding is_image is_empty
wrap_stream stream kind =
    let frames = count_access_units stream in
    if is_empty stream
    then err empty_stream
    else if frames == 0
    then err no_delimiters
    else if is_image kind && not (frames == 1)
    then err (not_one_frame frames)
    else ok (frames, prefix kind frames ++ stream)

-- `value |= u64::from(byte & 0x7f) << shift`: the bits of `value` lie below `shift`, so the two are
-- added; a shift drops what leaves the word. One byte for each unit of fuel.
pub read_varint_loop : ℕ → Bytes → ℕ → ℕ → Option (ℕ × Bytes)
read_varint_loop zero bytes value shift = none
read_varint_loop (suc fuel) [] value shift = none
read_varint_loop (suc fuel) (byte ∷ rest) value shift =
    let value' = value + byte % 128 * 2 ^ shift % 2 ^ 64 in
    let more = read_varint_loop fuel rest value' (shift + 7) in
    if ltb byte 128 then some (value', rest) else if ltb 63 (shift + 7) then none else more

-- After ten bytes the shift is over 63.
pub read_varint : Bytes → Option (ℕ × Bytes)
read_varint bytes = read_varint_loop 10 bytes 0 0

pub record Reader : Type 0 where
  pub header : Header
  pub seen_magic : ℕ

-- `match field` on a varint field.
pub set_field : ℕ → ℕ → Reader → Option Reader
set_field field value r =
    if field == 1
    then some (record r { seen_magic = value })
    else if field == 3
    then (if value == 2
        then some (record r { header = record (r.header) { kind = image } })
        else if value == 4
        then some (record r { header = record (r.header) { kind = video } })
        else none)
    else if field == 5
    then some (record r { header = record (r.header) { fps = value } })
    else if field == 6
    then some (record r { header = record (r.header) { width = value } })
    else if field == 7
    then some (record r { header = record (r.header) { height = value } })
    else if field == 8
    then some (record r { header = record (r.header) { frames = value } })
    else some r

infixl 5 ◌>>=◌
abbrev pub ◌>>=◌ {ℓ κ} : {A : Type ℓ} {B : Type κ} → Option A → (A → Option B) → Option B
some a >>= f = f a
none >>= f = none

-- The value behind a tag. `total` is the length of the metadata, from which `at` is known.
pub read_field : ℕ → ℕ → Bytes → Reader → Option (Reader × Bytes)
read_field total tag rest r =
    if tag % 8 == 0
    then (do (value, after) ← read_varint rest; r' ← set_field (tag / 8) value r; some (r', after))
    else if tag % 8 == 2
    then (do
      (len, after) ← read_varint rest
      if leb (2 ^ 64) (total - length after + len) then none else some (r, drop len after))
    else none

-- `while at < metadata.len()`, one round for each unit of fuel.
pub header_loop : ℕ → ℕ → Bytes → Reader → Option Reader
header_loop fuel total [] r = some r
header_loop zero total (byte ∷ bytes) r = none
header_loop (suc fuel) total (byte ∷ bytes) r = do
  (tag, rest) ← read_varint (byte ∷ bytes)
  (r', after) ← read_field total tag rest r
  header_loop fuel total after r'

abbrev start : Reader
start = record {
  header = record { kind = video; frames = 0; width = 0; height = 0; fps = 0 };
  seen_magic = 0;
}

-- Each round takes a byte at least.
pub read_metadata : Bytes → Option Header
read_metadata bytes = do
  r ← header_loop (length bytes) (length bytes) bytes start
  if r.seen_magic == magic then some r.header else none

pub read_header : Bytes → Option Header
read_header (a ∷ b ∷ c ∷ d ∷ rest) =
    let len = from_le_bytes a b c d in
    if ltb (length rest) len then none else read_metadata (take len rest)
read_header _ = none
