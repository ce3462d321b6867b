-- ===== src/Proto/Index.antt =====
-- The search for a complete frame finds the first one.
use tryxctl.Prelude.{
  ℕ, zero, suc, ◌+◌, ◌-◌, ◌≤◌, ◌<◌, ◌≡◌, Bool, true, false, ◌&&◌, Option, none, some, arith, length,
  take, drop, Bytes, starts_with, Bool-cases, Option-cases, inl, inr, length-drop, drop-drop, ok,
}
use native.Mathlib.Decide.{dec_lt}
use tryxctl.Proto.{
  magic, payload_len, heads_frame, plausible_index_loop, complete_plausible_frame_index, take_frame,
  find,
}
use tryxctl.Proto.Search.{find-match, find-first, find-none, starts_with→le}

-- A complete frame of plausible size stands at index `i`.
abbrev pub frame_at : Bytes → ℕ → Bool
frame_at b i = starts_with (drop i b) magic && heads_frame (drop i b)

-- The reference: the first such index from `start` on, or that there is none.
abbrev pub IsFirstFrom : Bytes → ℕ → Option ℕ → Type 0
IsFirstFrom b start none = (j : ℕ) → start ≤ j → frame_at b j ≡ false
IsFirstFrom b start (some i) =
    (start ≤ i) × (frame_at b i ≡ true) × ((j : ℕ) → start ≤ j → j < i → frame_at b j ≡ false)

IsFirstFrom-extend :
    (b : Bytes) (start from : ℕ) (r : Option ℕ)
    → start ≤ from
    → ((j : ℕ) → start ≤ j → j < from → frame_at b j ≡ false)
    → IsFirstFrom b from r
    → IsFirstFrom b start r
IsFirstFrom-extend b start from none l before h =
    λ j s. elim (dec_lt j from) [ yes p ↦ before j s p | no p ↦ h j (omega arith) ]
IsFirstFrom-extend b start from (some i) l before h = (
  omega arith,
  h.1,
  λ j s t. elim (dec_lt j from) [ yes p ↦ before j s p | no p ↦ h.2 j (omega arith) t ],
)

no_magic : (b : Bytes) (i : ℕ) → starts_with (drop i b) magic ≡ false → frame_at b i ≡ false
no_magic b i h = rw h

past_end : (b : Bytes) (i : ℕ) → length b ≤ i → starts_with (drop i b) magic ≡ false
past_end b i h = elim (Bool-cases (starts_with (drop i b) magic)) [
  | inl e ↦ absurd (omega (arith, starts_with→le (drop i b) magic e, length-drop i b))
  | inr e ↦ e
]

-- The tests from `start` on are those of the slice.
shifted :
    (b : Bytes) (start j : ℕ)
    → start ≤ j
    → starts_with (drop (j - start) (drop start b)) magic ≡ false
    → frame_at b j ≡ false
shifted b start j l h =
    let e : start + (j - start) ≡ j = omega arith in
    no_magic b j (rw (drop-drop (j - start) start b, e) at h)

loop-none :
    (fuel : ℕ) (b : Bytes) (start : ℕ)
    → find (drop start b) magic ≡ none
    → plausible_index_loop (suc fuel) b start ≡ none
unfolding plausible_index_loop
loop-none fuel b start e = ground arith

loop-found :
    (fuel : ℕ) (b : Bytes) (start off : ℕ)
    → find (drop start b) magic ≡ some off
    → heads_frame (drop (start + off) b) ≡ true
    → plausible_index_loop (suc fuel) b start ≡ some (start + off)
unfolding plausible_index_loop
loop-found fuel b start off e f = ground arith

loop-next :
    (fuel : ℕ) (b : Bytes) (start off : ℕ)
    → find (drop start b) magic ≡ some off
    → heads_frame (drop (start + off) b) ≡ false
    → plausible_index_loop (suc fuel) b start ≡ plausible_index_loop fuel b (start + off + 1)
unfolding plausible_index_loop
loop-next fuel b start off e f = ground arith

loop-IsFirstFrom :
    (fuel : ℕ) (b : Bytes) (start : ℕ)
    → length b < fuel + start
    → IsFirstFrom b start (plausible_index_loop fuel b start)
unfolding plausible_index_loop
loop-IsFirstFrom zero b start l = λ j s. no_magic b j (past_end b j (omega arith))
loop-IsFirstFrom (suc fuel) b start l = elim (Option-cases (find (drop start b) magic)) [
  | inl e ↦ rw (loop-none fuel b start e) (λ j s. elim (dec_lt j (length b)) [
    | yes p ↦
        shifted b start j s
          (find-none (drop start b) magic (j - start) e (omega (arith, length-drop start b)))
    | no p ↦ no_magic b j (past_end b j (omega arith))
  ])
  | inr (off, e) ↦
      let i = start + off in
      let at : starts_with (drop i b) magic ≡ true =
        rw (drop-drop off start b) at ((find-match (drop start b) magic off e).0) in
      let before = λ (j : ℕ) (s : start ≤ j) (t : j < i).
        shifted b start j s (find-first (drop start b) magic off (j - start) e (omega arith)) in
      elim (Bool-cases (heads_frame (drop i b))) [
        | inl f ↦ rw (loop-found fuel b start off e f) (omega arith, rw (at, f), before)
        | inr f ↦ rw (loop-next fuel b start off e f) (
            IsFirstFrom-extend b start (i + 1) (plausible_index_loop fuel b (i + 1)) (omega arith)
              (λ j s t. elim (dec_lt j i) [
                | yes p ↦ before j s p
                | no p ↦ let same : j ≡ i = omega arith in rw (same, at, f)
              ])
              (loop-IsFirstFrom fuel b (i + 1) (omega arith)))
      ]
]

-- The search returns the first index at which a magic heads a complete frame of plausible size, and
-- nothing exactly if there is no such index.
pub complete_plausible_frame_index-IsFirstFrom :
    (b : Bytes) → IsFirstFrom b 0 (complete_plausible_frame_index b)
unfolding complete_plausible_frame_index
complete_plausible_frame_index-IsFirstFrom b = loop-IsFirstFrom (suc (length b)) b 0 (omega arith)

frame_at-take_frame :
    (r : Bytes)
    → starts_with r magic ≡ true
    → heads_frame r ≡ true
    → take_frame r ≡ (ok (some (take (payload_len r) (drop 8 r))), drop (8 + payload_len r) r)
unfolding take_frame heads_frame
frame_at-take_frame r s h = ground arith

-- The codec takes a frame off the stream from the index that the search returns.
pub take_frame-complete_index :
    (b : Bytes) (i : ℕ)
    → complete_plausible_frame_index b ≡ some i
    → take_frame (drop i b) ≡ (
      ok (some (take (payload_len (drop i b)) (drop (i + 8) b))),
      drop (i + (8 + payload_len (drop i b))) b,
    )
take_frame-complete_index b i h =
    let first : IsFirstFrom b 0 (some i) = rw h at (complete_plausible_frame_index-IsFirstFrom b) in
    let r = drop i b in
    rw (← drop-drop 8 i b, ← drop-drop (8 + payload_len r) i b)
      (frame_at-take_frame r (ground (arith, first.1)) (ground (arith, first.1)))
