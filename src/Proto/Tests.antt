-- ===== src/Proto/Tests.antt =====
-- Runs of the codec, and its theorems at concrete buffers.
use tryxctl.Prelude.{◌≡◌, ◌≢◌, refl, some, [], ◌∷◌, ◌++◌, arith, ok, err, Bytes, starts_with, equal}
use tryxctl.Proto.{
  encode, take_frame, payload_len, find, bad_magic, discard_bytes_before_frame_magic,
  discard_unmatched, preserved_prefix, complete_plausible_frame_index, plausible_index_loop,
  heads_frame, discard_bytes_before_plausible_frame, discard_plausible_loop,
}
use tryxctl.Proto.RoundTrip.{take_frame-encode}
use tryxctl.Proto.Stream.{take_frame-append_some, take_frame_sound}
use tryxctl.Proto.Magic.{Drops, discard_magic-Drops}
use tryxctl.Proto.Plausible.{take_frame-discard_plausible}
use tryxctl.Proto.Index.{IsFirstFrom, complete_plausible_frame_index-IsFirstFrom}

-- The frame of "ok".
abbrev frame_ok : Bytes
frame_ok = 84 ∷ 82 ∷ 89 ∷ 88 ∷ 2 ∷ 0 ∷ 0 ∷ 0 ∷ 111 ∷ 107 ∷ []

-- A magic followed by an implausible length, in front of a frame.
abbrev embedded : Bytes
embedded = 84 ∷ 82 ∷ 89 ∷ 88 ∷ 255 ∷ 255 ∷ 255 ∷ 255 ∷ frame_ok

encode_ok : encode (111 ∷ 107 ∷ []) ≡ some frame_ok
unfolding encode
encode_ok = refl

take_ok : take_frame frame_ok ≡ (ok (some (111 ∷ 107 ∷ [])), [])
unfolding take_frame starts_with payload_len
take_ok = refl

take_bad : take_frame (84 ∷ 82 ∷ 89 ∷ 90 ∷ 1 ∷ []) ≡ (err bad_magic, [])
unfolding take_frame starts_with
take_bad = refl

discard_split : discard_bytes_before_frame_magic (110 ∷ 46 ∷ 84 ∷ 82 ∷ []) ≡ (2, 84 ∷ 82 ∷ [])
unfolding discard_bytes_before_frame_magic discard_unmatched starts_with find preserved_prefix equal
discard_split = refl

discard_embedded : discard_bytes_before_plausible_frame embedded ≡ (8, frame_ok)
unfolding discard_bytes_before_plausible_frame discard_plausible_loop
    discard_bytes_before_frame_magic starts_with find payload_len
discard_embedded = refl

index_embedded : complete_plausible_frame_index embedded ≡ some 8
unfolding complete_plausible_frame_index plausible_index_loop heads_frame starts_with find
    payload_len
index_embedded = refl

take_frame-encode_example : take_frame (frame_ok ++ (7 ∷ [])) ≡ (ok (some (111 ∷ 107 ∷ [])), 7 ∷ [])
take_frame-encode_example = take_frame-encode (111 ∷ 107 ∷ []) (7 ∷ []) frame_ok encode_ok

take_frame-append_some_example :
    take_frame (frame_ok ++ (7 ∷ [])) ≡ (ok (some (111 ∷ 107 ∷ [])), 7 ∷ [])
take_frame-append_some_example =
    take_frame-append_some frame_ok (7 ∷ []) (111 ∷ 107 ∷ []) [] take_ok

abbrev cut_frame : Bytes
cut_frame = 84 ∷ 82 ∷ 89 ∷ 88 ∷ 2 ∷ 0 ∷ 0 ∷ 0 ∷ 111 ∷ []

take_frame_sound_example :
    (frame : Bytes) × (encode (111 ∷ 107 ∷ []) ≡ some frame) × (frame_ok ≡ frame ++ [])
take_frame_sound_example = take_frame_sound frame_ok (111 ∷ 107 ∷ []) [] (omega arith) take_ok

discard_magic-Drops_example :
    Drops
      (110 ∷ 46 ∷ 84 ∷ 82 ∷ [])
      (89 ∷ 88 ∷ [])
      (discard_bytes_before_frame_magic (110 ∷ 46 ∷ 84 ∷ 82 ∷ [])).0
      (discard_bytes_before_frame_magic (110 ∷ 46 ∷ 84 ∷ 82 ∷ [])).1
discard_magic-Drops_example = discard_magic-Drops (110 ∷ 46 ∷ 84 ∷ 82 ∷ []) (89 ∷ 88 ∷ [])

take_frame-discard_plausible_example :
    (take_frame (discard_bytes_before_plausible_frame embedded).1).0 ≢ err bad_magic
take_frame-discard_plausible_example = take_frame-discard_plausible embedded bad_magic

complete_plausible_frame_index-IsFirstFrom_example :
    IsFirstFrom embedded 0 (complete_plausible_frame_index embedded)
complete_plausible_frame_index-IsFirstFrom_example =
    complete_plausible_frame_index-IsFirstFrom embedded
