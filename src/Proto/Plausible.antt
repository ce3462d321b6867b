-- ===== src/Proto/Plausible.antt =====
-- Resynchronising to a header of plausible length.
use tryxctl.Prelude.{
  ℕ, zero, suc, ◌+◌, ◌-◌, ◌≤◌, ◌<◌, ◌≡◌, ◌≢◌, refl, ap, ◌∙◌, sym, true, none, some, [], ◌∷◌, ◌++◌,
  arith, length, drop, Bytes, starts_with, Bool-cases, inl, inr, ltb, leb, leb→le, ltb→lt,
  drop-append_le, length-drop, drop-drop, Result, ok, err, Option,
}
use native.Mathlib.Nat.{zero-add, add-zero}
use native.Mathlib.Decide.{dec_lt}
use tryxctl.Proto.{
  magic, max_payload_len, header_len, payload_len, encode, take_frame, MalformedFrame,
  discard_bytes_before_frame_magic, discard_plausible_loop, discard_bytes_before_plausible_frame,
}
use tryxctl.Proto.Stream.{payload_len-append}
use tryxctl.Proto.RoundTrip.{encode-inversion}
use tryxctl.Proto.Magic.{
  IsAligned, at_magic, split_magic, Drops, discard_magic-Drops, discard_magic-IsAligned,
}

-- As `Drops`, but a magic may be passed by if the length behind it is implausible.
pub record Skips (b more : Bytes) (n : ℕ) (r : Bytes) : Type 0 where
  pub within : n ≤ length b
  pub left : r ≡ drop n b
  pub passed :
      (i : ℕ)
      → i < n
      → starts_with (drop i (b ++ more)) magic ≡ true
      → max_payload_len < payload_len (drop i (b ++ more))

-- What the loop may stop at: no whole header, or one with a plausible length.
pub record IsReady (r : Bytes) : Type 0 where
  pub aligned : IsAligned r
  pub settled : header_len ≤ length r → payload_len r ≤ max_payload_len

Drops-length : (b more r : Bytes) (n : ℕ) → Drops b more n r → length r + n ≡ length b
Drops-length b more r n d = ground (arith, d.left, d.within, length-drop n b)

-- After one round that drops `n` bytes up to a magic, and the magic's first byte, the next rounds
-- skip `m` more.
module _ (b more r t : Bytes) (n m : ℕ) (d : Drops b more n r) (long : header_len ≤ length r)
    (huge : max_payload_len < payload_len r) (s : Skips (drop 1 r) more m t) where
  rest : (i : ℕ) → drop (n + i) (b ++ more) ≡ drop i (r ++ more)
  rest i =
      sym (drop-drop i n (b ++ more))
      ∙ ap (drop i) (drop-append_le n b more d.within ∙ rw (← d.left))

  later : (i : ℕ) → drop (n + (1 + i)) (b ++ more) ≡ drop i (drop 1 r ++ more)
  later i =
      rest (1 + i)
      ∙ sym (drop-drop i 1 (r ++ more))
      ∙ ap (drop i) (drop-append_le 1 r more (omega arith))

  chain-passed :
      (i : ℕ)
      → i < n + 1 + m
      → starts_with (drop i (b ++ more)) magic ≡ true
      → max_payload_len < payload_len (drop i (b ++ more))
  chain-passed i l h = elim (dec_lt i n) [
    | yes p ↦ cc (d.passed i p)
    | no p ↦ elim (dec_lt n i) [
      | no q ↦
          let e : i ≡ n + 0 = omega arith in
          rw (e, rest 0) (rw (payload_len-append r more long) huge)
      | yes q ↦
          let j = i - n - 1 in
          let e : i ≡ n + (1 + j) = omega arith in
          let there : starts_with (drop j (drop 1 r ++ more)) magic ≡ true =
            rw (← later j) (rw (← e) h) in
          rw (e, later j) (s.passed j (omega arith) there)
    ]
  ]

  chain : Skips b more (n + 1 + m) t
  chain = record {
    within = omega (arith, Drops-length b more r n d, s.within, length-drop 1 r);
    left =
        let e : n + (1 + m) ≡ n + 1 + m = omega arith in
        s.left
        ∙ drop-drop m 1 r
        ∙ ap (drop (1 + m)) d.left
        ∙ drop-drop (1 + m) n b
        ∙ ap (λ k. drop k b) e;
    passed = chain-passed;
  }

stop : (b more r : Bytes) (n : ℕ) → Drops b more n r → Skips b more n r
stop b more r n d = record { within = d.within; left = d.left; passed = λ i l h. cc (d.passed i l) }

-- With fuel for each byte the loop ends by one of its own tests.
loop-Skips :
    (fuel : ℕ) (b more : Bytes) (d : ℕ)
    → length b < fuel
    → (n : ℕ) × (r : Bytes) × (discard_plausible_loop fuel b d ≡ (d + n, r))
      × Skips b more n r
      × IsReady r
unfolding discard_plausible_loop
loop-Skips zero b more d l = absurd (omega arith)
loop-Skips (suc fuel) [] more d l = (
  0,
  [],
  rw add-zero,
  record { within = omega arith; left = refl; passed = λ i h. absurd (omega arith) },
  record { aligned = split_magic (omega arith) refl; settled = λ h. absurd (omega arith) },
)
loop-Skips (suc fuel) (x ∷ xs) more d l =
    let b = x ∷ xs in
    let n = (discard_bytes_before_frame_magic b).0 in
    let r = (discard_bytes_before_frame_magic b).1 in
    let drops = discard_magic-Drops b more in
    let aligned = discard_magic-IsAligned b in
    elim (Bool-cases (ltb (length r) header_len)) [
      | inl short ↦ (
        n,
        r,
        rw short,
        stop b more r n drops,
        record { aligned = aligned; settled = λ h. absurd (omega (arith, ltb→lt _ _ short)) },
      )
      | inr long ↦ elim (Bool-cases (leb (payload_len r) max_payload_len)) [
        | inl fits ↦ (
          n,
          r,
          rw (long, fits),
          stop b more r n drops,
          record { aligned = aligned; settled = λ h. leb→le _ _ fits },
        )
        | inr huge ↦
            let room : header_len ≤ length r = ground arith in
            let over : max_payload_len < payload_len r = ground arith in
            let shorter : length (drop 1 r) < fuel =
              omega (arith, length-drop 1 r, Drops-length b more r n drops) in
            let (m, t, e, s, ready) = loop-Skips fuel (drop 1 r) more (d + n + 1) shorter in
            let q : d + n + 1 + m ≡ d + (n + 1 + m) = omega arith in
            (
              n + 1 + m,
              t,
              rw (long, huge) (e ∙ ap (λ k. (k, t)) q),
              chain b more r t n m drops room over s,
              ready,
            )
      ]
    ]

-- Resynchronising keeps a suffix of the buffer, and passes by no magic, whatever bytes follow,
-- unless the four bytes behind it are a length over the limit.
pub discard_plausible-Skips :
    (b more : Bytes)
    → Skips b more
        (discard_bytes_before_plausible_frame b).0
        (discard_bytes_before_plausible_frame b).1
unfolding discard_bytes_before_plausible_frame
discard_plausible-Skips b more =
    let (n, r, e, s, ready) = loop-Skips (suc (length b)) b more 0 (omega arith) in
    rw e (rw zero-add s)

pub discard_plausible-IsReady : (b : Bytes) → IsReady (discard_bytes_before_plausible_frame b).1
unfolding discard_bytes_before_plausible_frame
discard_plausible-IsReady b =
    let (n, r, e, s, ready) = loop-Skips (suc (length b)) b [] 0 (omega arith) in rw e ready

split_magic-waits : (r : Bytes) → length r ≤ 3 → take_frame r ≡ (ok none, r)
unfolding take_frame
split_magic-waits r h = ground arith

IsReady-take_frame : (r : Bytes) → IsReady r → (e : MalformedFrame) → (take_frame r).0 ≢ err e
unfolding take_frame
IsReady-take_frame r ready e h = elim ready.aligned [
  | at_magic a ↦ ground (arith, ready.settled)
  | split_magic s w ↦
      cc (ap (λ (t : Result MalformedFrame (Option Bytes) × Bytes). t.0) (split_magic-waits r s))
]

-- After resynchronising, the codec reports no malformed frame, so it never clears the buffer.
pub take_frame-discard_plausible :
    (b : Bytes) (e : MalformedFrame)
    → (take_frame (discard_bytes_before_plausible_frame b).1).0 ≢ err e
take_frame-discard_plausible b = IsReady-take_frame _ (discard_plausible-IsReady b)

-- A buffer that begins with a frame loses nothing.
pub discard_plausible-encode :
    (payload rest frame : Bytes)
    → encode payload ≡ some frame
    → discard_bytes_before_plausible_frame (frame ++ rest) ≡ (0, frame ++ rest)
unfolding discard_bytes_before_plausible_frame discard_plausible_loop
    discard_bytes_before_frame_magic starts_with payload_len
discard_plausible-encode payload rest frame h =
    let (fits, shape) = encode-inversion payload frame h in rw shape (ground arith)
