-- ===== src/Media/Mxhd/RoundTrip.antt =====
-- The header that is written reads back, whatever stream stands behind it.
use tryxctl.Prelude.{
  ℕ, suc, ◌+◌, ◌-◌, ◌*◌, ◌/◌, ◌%◌, ◌^◌, ◌≤◌, ◌<◌, ◌≡◌, refl, ap, ◌∙◌, some, [], ◌∷◌, ◌++◌, arith,
  length, take, Bytes, length-append, take-append, drop-append, append-nil, append_assoc,
  from_le_bytes, to_le_bytes,
}
use native.Mathlib.Numerals.{add_eight}
use tryxctl.Media.Mxhd.{
  MediaKind, image, video, kind_value, Reader, magic, description, varint, varint_field,
  bytes_field, metadata, prefix, read_varint, set_field, read_field, header_loop, start,
  read_metadata, read_header, ◌>>=◌,
}
use tryxctl.Media.Mxhd.Varint.{read_varint-varint, length-varint_loop}

header_loop_step :
    (fuel total : ℕ) (bytes : Bytes) (r : Reader)
    → 0 < length bytes
    → header_loop (suc fuel) total bytes r ≡ (
        read_varint bytes >>= λ p.
        read_field total (p.0) (p.1) r >>= λ q. header_loop fuel total (q.1) (q.0))
unfolding header_loop
header_loop_step fuel total [] r h = absurd (omega arith)
header_loop_step fuel total (b ∷ bytes) r h = refl

length-varint : (value : ℕ) (rest : Bytes) → 0 < length (varint value ++ rest)
unfolding varint
length-varint value rest =
    omega (arith, length-append (varint value) rest, length-varint_loop 9 value)

varint_tag : (f : ℕ) → (f * 8 % 8 ≡ 0) × (f * 8 / 8 ≡ f)
varint_tag f = omega arith

module _ (fuel total f : ℕ) (rest : Bytes) (r : Reader) (field : f < 32) where
  varint_step :
      (v : ℕ) {r' : Reader}
      → v < 2 ^ 64
      → set_field f v r ≡ some r'
      → header_loop (suc fuel) total (varint_field f v ++ rest) r ≡ header_loop fuel total rest r'
  unfolding varint_field read_field
  varint_step v fits e = rw (append_assoc (varint (f * 8)) (varint v) rest) (
      header_loop_step fuel total _ r (length-varint _ _)
      ∙ rw (read_varint-varint (f * 8) (varint v ++ rest) (omega arith))
          (rw ((varint_tag f).0, (varint_tag f).1, read_varint-varint v rest fits, e)))

  read_bytes :
      (value : Bytes)
      → total < 2 ^ 32
      → length value < 2 ^ 32
      → read_field total (f * 8 + 2) (varint (length value) ++ (value ++ rest)) r ≡ some (r, rest)
  unfolding read_field
  read_bytes value small fits = ground (
    arith,
    read_varint-varint (length value) (value ++ rest) (omega arith),
    drop-append value rest,
  )

  bytes_step :
      (value : Bytes)
      → total < 2 ^ 32
      → length value < 2 ^ 32
      → header_loop (suc fuel) total (bytes_field f value ++ rest) r ≡ header_loop fuel total rest r
  unfolding bytes_field
  bytes_step value small fits =
      rw
        (
          append_assoc (varint (f * 8 + 2)) (varint (length value) ++ value) rest,
          append_assoc (varint (length value)) value rest,
        )
        (header_loop_step fuel total _ r (length-varint _ _)
          ∙ rw
              (read_varint-varint (f * 8 + 2) (varint (length value) ++ (value ++ rest))
                (omega arith))
              (ap (λ o. o >>= λ q. header_loop fuel total (q.1) (q.0))
                (read_bytes value small fits)))

-- What the reader knows after the seven fields in front of the frame count.
abbrev read_so_far : MediaKind → ℕ → Reader
read_so_far kind frames = record {
  header = record { kind = kind; frames = frames; width = 1280; height = 720; fps = 30 };
  seen_magic = magic;
}

abbrev reader : MediaKind → ℕ → ℕ → ℕ → Reader
reader kind width height fps = record {
  header = record { kind = kind; frames = 0; width = width; height = height; fps = fps };
  seen_magic = magic;
}

set_kind :
    (kind : MediaKind) (r : Reader)
    → set_field 3 (kind_value kind) r
      ≡ some (record r { header = record (r.header) { kind = kind } })
unfolding set_field kind_value
set_kind image r = refl
set_kind video r = refl

kind_value-lt : (kind : MediaKind) → kind_value kind < 2 ^ 64
unfolding kind_value
kind_value-lt image = omega arith
kind_value-lt video = omega arith

header_loop-metadata :
    (kind : MediaKind) (frames fuel total : ℕ)
    → frames < 2 ^ 64
    → total < 2 ^ 32
    → header_loop (fuel + 8) total (metadata kind frames) start ≡ some (read_so_far kind frames)
unfolding metadata set_field header_loop
header_loop-metadata kind frames fuel total fits small =
    let f1 = suc fuel in
    let f2 = suc f1 in
    let f3 = suc f2 in
    let f4 = suc f3 in
    let f5 = suc f4 in
    let f6 = suc f5 in
    let f7 = suc f6 in
    let r1 = reader video 0 0 0 in
    let r3 = reader kind 0 0 0 in
    let r5 = reader kind 0 0 30 in
    let r6 = reader kind 1280 0 30 in
    let r7 = reader kind 1280 720 30 in
    rw (← append-nil (varint_field 8 frames)) (
      rw add_eight (
        varint_step f7 total 1 _ start (omega arith) magic (omega arith) refl
        ∙ bytes_step f6 total 2 _ r1 (omega arith) description small (omega arith)
        ∙ varint_step f5 total 3 _ r1 (omega arith) (kind_value kind) (kind_value-lt kind)
            (set_kind kind r1)
        ∙ varint_step f4 total 4 _ r3 (omega arith) 1 (omega arith) refl
        ∙ varint_step f3 total 5 _ r3 (omega arith) 30 (omega arith) refl
        ∙ varint_step f2 total 6 _ r5 (omega arith) 1280 (omega arith) refl
        ∙ varint_step f1 total 7 _ r6 (omega arith) 720 (omega arith) refl
        ∙ varint_step fuel total 8 [] r7 (omega arith) frames fits refl))

length-varint_field : (f v : ℕ) → (2 ≤ length (varint_field f v)) × (length (varint_field f v) ≤ 20)
unfolding varint_field varint
length-varint_field f v = omega (
  arith,
  length-append (varint (f * 8)) (varint v),
  length-varint_loop 9 (f * 8),
  length-varint_loop 9 v,
)

length-bytes_field :
    (f : ℕ) (value : Bytes)
    → (2 ≤ length (bytes_field f value)) × (length (bytes_field f value) ≤ length value + 20)
unfolding bytes_field varint
length-bytes_field f value = omega (
  arith,
  length-append (varint (f * 8 + 2)) (varint (length value) ++ value),
  length-append (varint (length value)) value,
  length-varint_loop 9 (f * 8 + 2),
  length-varint_loop 9 (length value),
)

metadata_bounds :
    (kind : MediaKind) (frames : ℕ)
    → (8 ≤ length (metadata kind frames)) × (length (metadata kind frames) < 2 ^ 32)
unfolding metadata
metadata_bounds kind frames =
    let f7 = varint_field 7 720 ++ varint_field 8 frames in
    let f6 = varint_field 6 1280 ++ f7 in
    let f5 = varint_field 5 30 ++ f6 in
    let f4 = varint_field 4 1 ++ f5 in
    let f3 = varint_field 3 (kind_value kind) ++ f4 in
    omega (
      arith,
      length-append (varint_field 1 magic) (bytes_field 2 description ++ f3),
      length-append (bytes_field 2 description) f3,
      length-append (varint_field 3 (kind_value kind)) f4,
      length-append (varint_field 4 1) f5,
      length-append (varint_field 5 30) f6,
      length-append (varint_field 6 1280) f7,
      length-append (varint_field 7 720) (varint_field 8 frames),
      length-varint_field 1 magic,
      length-bytes_field 2 description,
      length-varint_field 3 (kind_value kind),
      length-varint_field 4 1,
      length-varint_field 5 30,
      length-varint_field 6 1280,
      length-varint_field 7 720,
      length-varint_field 8 frames,
    )

read_metadata-metadata :
    (kind : MediaKind) (frames : ℕ)
    → frames < 2 ^ 64
    → read_metadata (metadata kind frames) ≡ some (read_so_far kind frames).header
unfolding read_metadata
read_metadata-metadata kind frames fits =
    let n = length (metadata kind frames) in
    let (least, most) = metadata_bounds kind frames in
    let split : n ≡ n - 8 + 8 = omega arith in
    let done : header_loop n n (metadata kind frames) start ≡ some (read_so_far kind frames) =
      ap (λ k. header_loop k n (metadata kind frames) start) split
      ∙ header_loop-metadata kind frames (n - 8) n fits most in
    rw done

read_header-word :
    (n : ℕ) (rest : Bytes)
    → n < 2 ^ 32
    → n ≤ length rest
    → read_header (to_le_bytes (n % 2 ^ 32) ++ rest) ≡ read_metadata (take n rest)
unfolding read_header
read_header-word n rest small room =
    let m = n % 2 ^ 32 in
    let word : from_le_bytes (m % 256) (m / 256 % 256) (m / 65536 % 256) (m / 16777216 % 256) ≡ n =
      omega arith in
    rw word (ground arith)

-- The header of a blob reads back with its kind and frame count and the fixed geometry, whatever
-- stream follows it, for every frame count that is a `u64`.
pub read_header-prefix :
    (kind : MediaKind) (frames : ℕ) (stream : Bytes)
    → frames < 2 ^ 64
    → read_header (prefix kind frames ++ stream)
      ≡ some (record { kind = kind; frames = frames; width = 1280; height = 720; fps = 30 })
unfolding prefix
read_header-prefix kind frames stream fits =
    let m = metadata kind frames in
    rw (append_assoc (to_le_bytes (length m % 2 ^ 32)) m stream) (
      read_header-word (length m) (m ++ stream) (metadata_bounds kind frames).1
        (omega (arith, length-append m stream))
      ∙ rw (take-append m stream) (read_metadata-metadata kind frames fits))
