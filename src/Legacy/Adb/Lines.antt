-- ===== src/Legacy/Adb/Lines.antt =====
-- What `lines` makes of a line and the text behind it.
use tryxctl.Prelude.{
  ℕ, ◌≡◌, ◌≢◌, refl, ap, ◌∙◌, [], ◌∷◌, ◌++◌, append-nil, append_assoc, Bytes, arith, All,
}
use tryxctl.Legacy.Adb
use tryxctl.Legacy.Adb.{lines}

-- No byte of a line ends it.
abbrev pub IsLineByte : ℕ → Type 0
IsLineByte c = (c ≢ 10) × (c ≢ 13)

strip_return-plain : (line : Bytes) → All IsLineByte line → Adb.strip_return line ≡ line
unfolding Adb.strip_return
strip_return-plain [] h = refl
strip_return-plain (c ∷ []) h = ground (arith, h.0.1)
strip_return-plain (c ∷ d ∷ cs) h = ap (◌∷◌ c) (strip_return-plain (d ∷ cs) h.1)

lines_after-append :
    (start line rest : Bytes)
    → All IsLineByte line
    → Adb.lines_after start (line ++ (10 ∷ rest))
      ≡ Adb.strip_return (start ++ line) ∷ Adb.lines_after [] rest
unfolding Adb.lines_after
lines_after-append start [] rest h = rw (append-nil start) (ground arith)
lines_after-append start (c ∷ line) rest h =
    let more = lines_after-append (start ++ (c ∷ [])) line rest h.1 in
    let shift : (start ++ (c ∷ [])) ++ line ≡ start ++ (c ∷ line) =
      append_assoc start (c ∷ []) line in
    ground (arith, h.0.0, more, shift)

pub lines_empty : lines [] ≡ []
unfolding lines Adb.lines_after Adb.end_line
lines_empty = refl

pub lines-append :
    (line rest : Bytes) → All IsLineByte line → lines (line ++ (10 ∷ rest)) ≡ line ∷ lines rest
unfolding lines
lines-append line rest h =
    lines_after-append [] line rest h
    ∙ ap (λ (l : Bytes). l ∷ Adb.lines_after [] rest) (strip_return-plain line h)
