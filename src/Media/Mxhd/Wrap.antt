-- ===== src/Media/Mxhd/Wrap.antt =====
-- What a successful wrap writes.
use tryxctl.Prelude.{
  ℕ, suc, ◌+◌, ◌^◌, ◌≤◌, ◌<◌, ◌≡◌, ◌∙◌, some, [], ◌∷◌, ◌++◌, arith, ok, length, Bytes,
  if◌then◌else◌, Bool,
}
use tryxctl.Media.Mxhd.{
  MediaKind, image, video, prefix, count_access_units, wrap_stream, read_header,
}
use tryxctl.Media.Mxhd.RoundTrip.{read_header-prefix}
use tryxctl.Media.Mxhd.Units.{delimiters, count_access_units-delimiters, is_delimiter}

one_more : (b : Bool) (m k : ℕ) → m ≤ k → (if b then 1 else 0) + m ≤ suc k
one_more b m k h = ground arith

delimiters-le : (stream : Bytes) → delimiters stream ≤ length stream
unfolding delimiters
delimiters-le [] = omega arith
delimiters-le (x ∷ xs) =
    one_more (is_delimiter (x ∷ xs)) (delimiters xs) (length xs) (delimiters-le xs)

wrap_stream-inversion :
    (stream blob : Bytes) (kind : MediaKind) (frames : ℕ)
    → wrap_stream stream kind ≡ ok (frames, blob)
    → (frames ≡ count_access_units stream)
      × (1 ≤ frames)
      × (kind ≡ image → frames ≡ 1)
      × (blob ≡ prefix kind frames ++ stream)
unfolding wrap_stream
wrap_stream-inversion [] blob kind frames h = cc
wrap_stream-inversion (x ∷ xs) blob image frames h = ground arith
wrap_stream-inversion (x ∷ xs) blob video frames h = ground arith

-- A blob that is written holds the header and then the stream; its header reads back with the
-- number of delimiters in the stream as frame count, which is at least one, and one for an image.
pub wrap_stream_sound :
    (stream blob : Bytes) (kind : MediaKind) (frames : ℕ)
    → length stream < 2 ^ 64
    → wrap_stream stream kind ≡ ok (frames, blob)
    → (frames ≡ delimiters stream)
      × (1 ≤ frames)
      × (kind ≡ image → frames ≡ 1)
      × (blob ≡ prefix kind frames ++ stream)
      × (read_header blob
          ≡ some (record { kind = kind; frames = frames; width = 1280; height = 720; fps = 30 }))
wrap_stream_sound stream blob kind frames long h =
    let (count, some_frame, one, shape) = wrap_stream-inversion stream blob kind frames h in
    let same = count ∙ count_access_units-delimiters stream in
    (
      same,
      some_frame,
      one,
      shape,
      rw shape (read_header-prefix kind frames stream (omega (arith, same, delimiters-le stream))),
    )
