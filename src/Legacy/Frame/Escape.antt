-- ===== src/Legacy/Frame/Escape.antt =====
-- Byte stuffing: escaping hides the markers and is undone by unescaping.
use tryxctl.Prelude.{
  ℕ, ◌*◌, ◌≤◌, ◌≡◌, ◌≢◌, refl, ap, ◌∙◌, [], ◌∷◌, ◌++◌, arith, length, All, Bytes, All-append,
  length-append,
}
use tryxctl.Legacy.Frame.{frame_marker, escape_marker, escape_byte, escape, unescape}

unescape-cons :
    (byte : ℕ) (rest : Bytes) → byte ≢ escape_marker → unescape (byte ∷ rest) ≡ byte ∷ unescape rest
unfolding unescape
unescape-cons byte [] h = refl
unescape-cons byte (next ∷ rest) h = ground arith

unescape-escape_byte :
    (byte : ℕ) (rest : Bytes) → unescape (escape_byte byte ++ rest) ≡ byte ∷ unescape rest
unfolding escape_byte
unescape-escape_byte byte rest = ground (arith, unescape-cons byte rest, frame_pair, escape_pair)
  where
    frame_pair : unescape (0x5B ∷ 1 ∷ rest) ≡ 0x5A ∷ unescape rest
    frame_pair = unfold unescape in refl

    escape_pair : unescape (0x5B ∷ 2 ∷ rest) ≡ 0x5B ∷ unescape rest
    escape_pair = unfold unescape in refl

-- Unescaping undoes escaping, on any bytes.
pub unescape-escape : (bytes : Bytes) → unescape (escape bytes) ≡ bytes
unfolding escape
unescape-escape [] = unfold unescape in refl
unescape-escape (byte ∷ rest) =
    unescape-escape_byte byte (escape rest) ∙ ap (◌∷◌ byte) (unescape-escape rest)

abbrev pub IsUnmarked : Bytes → Type 0
IsUnmarked bytes = All (λ byte. byte ≢ frame_marker) bytes

escape_byte-IsUnmarked : (byte : ℕ) → IsUnmarked (escape_byte byte)
unfolding escape_byte
escape_byte-IsUnmarked byte = ground arith

-- No marker byte is left between the delimiters.
pub escape-IsUnmarked : (bytes : Bytes) → IsUnmarked (escape bytes)
unfolding escape
escape-IsUnmarked [] = tt
escape-IsUnmarked (byte ∷ rest) =
    All-append _ (escape_byte byte) (escape rest) (escape_byte-IsUnmarked byte)
      (escape-IsUnmarked rest)

escape_byte_bounds : (byte : ℕ) → (1 ≤ length (escape_byte byte)) × (length (escape_byte byte) ≤ 2)
unfolding escape_byte
escape_byte_bounds byte = ground arith

-- Stuffing never shortens, and at most doubles.
pub length-escape :
    (bytes : Bytes)
    → (length bytes ≤ length (escape bytes)) × (length (escape bytes) ≤ 2 * length bytes)
unfolding escape
length-escape [] = omega arith
length-escape (byte ∷ rest) = omega (
  arith,
  length-append (escape_byte byte) (escape rest),
  escape_byte_bounds byte,
  length-escape rest,
)
