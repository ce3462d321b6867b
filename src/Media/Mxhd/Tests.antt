-- ===== src/Media/Mxhd/Tests.antt =====
-- Runs of the blob's writer and reader, and the theorems at concrete streams.
use tryxctl.Prelude.{ℕ, ◌≤◌, ◌≡◌, refl, some, [], ◌∷◌, ◌++◌, arith, ok, err, Bytes}
use tryxctl.Prelude.Text.{codes}
use tryxctl.Media.Mxhd.{
  image, video, kind_value, varint_loop, varint, varint_field, bytes_field, metadata, prefix,
  count_access_units, wrap_stream, no_delimiters, not_one_frame, read_header,
}
use tryxctl.Media.Mxhd.Units.{delimiters}
use tryxctl.Media.Mxhd.RoundTrip.{read_header-prefix}
use tryxctl.Media.Mxhd.Wrap.{wrap_stream_sound}

-- The vendor's header of an image, after its first nine bytes and the description.
vendor_layout :
    prefix image 1
    ≡ 0x41
      ∷ 0
      ∷ 0
      ∷ 0
      ∷ 0x08
      ∷ 0xc4
      ∷ 0x90
      ∷ 0xe1
      ∷ 0xea
      ∷ 0x04
      ∷ 0x12
      ∷ 0x2b
      ∷ (codes "Tryx media header v1, fps=30, size=1280x720"
          ++ (0x18 ∷ 0x02 ∷ 0x20 ∷ 0x01 ∷ 0x28 ∷ 0x1e ∷ 0x30 ∷ 0x80 ∷ 0x0a ∷ 0x38 ∷ 0xd0 ∷ 0x05
              ∷ 0x40 ∷ 0x01 ∷ []))
unfolding prefix metadata varint_field bytes_field varint varint_loop kind_value
vendor_layout = refl

-- Two access units, with a four-byte and a three-byte start code.
abbrev two_units : Bytes
two_units = 0 ∷ 0 ∷ 0 ∷ 1 ∷ 9 ∷ 240 ∷ 0 ∷ 0 ∷ 1 ∷ 9 ∷ []

two_units_blob : wrap_stream two_units video ≡ ok (2, prefix video 2 ++ two_units)
unfolding wrap_stream count_access_units
two_units_blob = refl

two_units_image : wrap_stream two_units image ≡ err (not_one_frame 2)
unfolding wrap_stream count_access_units
two_units_image = refl

no_units : wrap_stream (0 ∷ 0 ∷ 1 ∷ 0x65 ∷ []) video ≡ err no_delimiters
unfolding wrap_stream count_access_units
no_units = refl

read_header-prefix_example :
    read_header (prefix video 2 ++ two_units)
    ≡ some (record { kind = video; frames = 2; width = 1280; height = 720; fps = 30 })
read_header-prefix_example = read_header-prefix video 2 two_units (omega arith)

wrap_stream_sound_example :
    (2 ≡ delimiters two_units)
    × (1 ≤ 2)
    × (video ≡ image → ◌≡◌ {A = ℕ} 2 1)
    × (prefix video 2 ++ two_units ≡ prefix video 2 ++ two_units)
    × (read_header (prefix video 2 ++ two_units)
        ≡ some (record { kind = video; frames = 2; width = 1280; height = 720; fps = 30 }))
wrap_stream_sound_example =
    wrap_stream_sound two_units (prefix video 2 ++ two_units) video 2 (omega arith) two_units_blob
