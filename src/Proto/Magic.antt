-- ===== src/Proto/Magic.antt =====
-- What dropping the bytes before a magic keeps and what it drops.
use tryxctl.Prelude.{
  ℕ, zero, suc, ◌+◌, ◌-◌, ◌≤◌, ◌<◌, ◌≡◌, refl, ◌∙◌, Bool, true, false, none, some, [], ◌∷◌, ◌++◌,
  arith, length, take, drop, Bytes, starts_with, equal, equal_iff, Bool-cases, Option-cases, inl,
  inr, min, drop-append_le, length-drop, drop-length,
}
use native.Mathlib.Nat.{sub-zero}
use native.Mathlib.Decide.{dec_lt}
use tryxctl.Proto.{
  magic, find, preserved_prefix, discard_unmatched, discard_at, discard_bytes_before_frame_magic,
}
use tryxctl.Proto.Search.{
  starts_with-append_back, find-match, find-first, find-none, starts_with→le,
}

-- A match that runs past the end of a slice begins with all of the slice.
starts_with-overlap :
    (xs more ys : Bytes)
    → length xs ≤ length ys
    → starts_with (xs ++ more) ys ≡ true
    → xs ≡ take (length xs) ys
unfolding starts_with
starts_with-overlap [] more ys l h = refl
starts_with-overlap (x ∷ xs) more [] l h = absurd (omega arith)
starts_with-overlap (x ∷ xs) more (y ∷ ys) l h =
    ground (arith, starts_with-overlap xs more ys (omega arith))

preserved_prefix-le : (b : Bytes) (k : ℕ) → preserved_prefix b k ≤ k
unfolding preserved_prefix
preserved_prefix-le b zero = omega arith
preserved_prefix-le b (suc k) = ground (arith, preserved_prefix-le b k)

preserved_prefix-equal :
    (b : Bytes) (k : ℕ)
    → drop (length b - preserved_prefix b k) b ≡ take (preserved_prefix b k) magic
unfolding preserved_prefix
preserved_prefix-equal b zero = rw sub-zero (drop-length b)
preserved_prefix-equal b (suc k) =
    elim (Bool-cases (equal (drop (length b - suc k) b) (take (suc k) magic))) [
      | inl e ↦ rw e ((equal_iff _ _).0 e)
      | inr e ↦ rw e (preserved_prefix-equal b k)
    ]

preserved_prefix-maximal :
    (b : Bytes) (k q : ℕ)
    → preserved_prefix b k < q
    → q ≤ k
    → equal (drop (length b - q) b) (take q magic) ≡ false
unfolding preserved_prefix
preserved_prefix-maximal b zero q l h = absurd (omega arith)
preserved_prefix-maximal b (suc k) q l h =
    elim (Bool-cases (equal (drop (length b - suc k) b) (take (suc k) magic))) [
      | inl e ↦ absurd (ground arith)
      | inr e ↦ elim (dec_lt k q) [
        | yes p ↦ let last : q ≡ suc k = omega arith in rw last e
        | no p ↦ preserved_prefix-maximal b k q (ground arith) (omega arith)
      ]
    ]

-- A buffer that starts with the magic, or is a proper prefix of it.
pub data IsAligned (b : Bytes) : Type 0 where
  at_magic : starts_with b magic ≡ true → IsAligned b
  split_magic : length b ≤ 3 → b ≡ take (length b) magic → IsAligned b

-- A number of dropped bytes, the buffer that is left, and what that means for the whole stream,
-- of which `more` has not been read: no magic stood in what was dropped.
pub record Drops (b more : Bytes) (n : ℕ) (r : Bytes) : Type 0 where
  pub within : n ≤ length b
  pub left : r ≡ drop n b
  pub passed : (i : ℕ) → i < n → starts_with (drop i (b ++ more)) magic ≡ false

pub starts_with-false : (b : Bool) → (b ≡ true → ⊥) → b ≡ false
starts_with-false true h = absurd (h refl)
starts_with-false false h = refl

-- A magic that matches nowhere in the buffer can only begin in the part that is preserved.
unmatched_passed :
    (b more : Bytes) (i : ℕ)
    → find b magic ≡ none
    → i < length b - preserved_prefix b (min 3 (length b))
    → starts_with (drop i (b ++ more)) magic ≡ true
    → ⊥
unmatched_passed b more i absent l h =
    let k = min 3 (length b) in
    let here : starts_with (drop i b ++ more) magic ≡ true =
      rw (← drop-append_le i b more (omega arith)) h in
    elim (dec_lt (length b) (i + 4)) [
      | no inside ↦ cc (
        find-none b magic i absent (omega arith),
        starts_with-append_back (drop i b) more magic (omega (arith, length-drop i b)) here,
      )
      | yes over ↦
          let q = length b - i in
          let e : length (drop i b) ≡ q = length-drop i b in
          let cut : drop i b ≡ take q magic =
            rw (← e) (starts_with-overlap (drop i b) more magic (omega arith) here) in
          let back : length b - q ≡ i = omega arith in
          let differ = preserved_prefix-maximal b k q (omega arith) (omega arith) in
          let same : equal (drop (length b - q) b) (take q magic) ≡ true =
            (equal_iff _ _).1 (rw back cut) in
          cc (differ, same)
    ]

-- A magic before the first one that the buffer holds would have been found.
matched_passed :
    (b more : Bytes) (k i : ℕ)
    → find b magic ≡ some k
    → i < k
    → starts_with (drop i (b ++ more)) magic ≡ true
    → ⊥
matched_passed b more k i e l h =
    let (at, inside) = find-match b magic k e in
    let room = starts_with→le (drop k b) magic at in
    let here : starts_with (drop i b ++ more) magic ≡ true =
      rw (← drop-append_le i b more (omega arith)) h in
    cc (
      find-first b magic k i e l,
      starts_with-append_back (drop i b) more magic
          (omega (arith, length-drop i b, length-drop k b)) here,
    )

discard_at-Drops :
    (b more : Bytes) → Drops b more (discard_at (find b magic) b).0 (discard_at (find b magic) b).1
unfolding discard_at discard_unmatched
discard_at-Drops b more = elim (Option-cases (find b magic)) [
  | inl e ↦ rw e (record {
    within = omega arith;
    left = refl;
    passed = λ i l. starts_with-false _ (unmatched_passed b more i e l);
  })
  | inr (k, e) ↦ rw e (record {
    within = omega (arith, find-match b magic k e);
    left = refl;
    passed = λ i l. starts_with-false _ (matched_passed b more k i e l);
  })
]

discard_at-IsAligned : (b : Bytes) → IsAligned (discard_at (find b magic) b).1
unfolding discard_at discard_unmatched
discard_at-IsAligned b =
    let k = min 3 (length b) in
    let p = preserved_prefix b k in
    let small : p ≤ k = preserved_prefix-le b k in
    elim (Option-cases (find b magic)) [
      | inl e ↦
          let size : length (drop (length b - p) b) ≡ p =
            length-drop (length b - p) b ∙ omega arith in
          rw e (split_magic (omega arith) (rw size (preserved_prefix-equal b k)))
      | inr (i, e) ↦ rw e (at_magic (find-match b magic i e).0)
    ]

-- Dropping the bytes before a magic loses no magic: wherever one begins in the buffer with any
-- further bytes behind it, that place is not among the bytes dropped, and the rest stays in order.
pub discard_magic-Drops :
    (b more : Bytes)
    → Drops b more (discard_bytes_before_frame_magic b).0 (discard_bytes_before_frame_magic b).1
unfolding discard_bytes_before_frame_magic
discard_magic-Drops [] more = record {
  within = omega arith;
  left = refl;
  passed = λ i l. absurd (omega arith);
}
discard_magic-Drops (x ∷ xs) more = elim (Bool-cases (starts_with (x ∷ xs) magic)) [
  | inl e ↦
      rw e (record { within = omega arith; left = refl; passed = λ i l. absurd (omega arith) })
  | inr e ↦ rw e (discard_at-Drops (x ∷ xs) more)
]

-- What is left starts with the magic, or is at most three bytes with which the magic begins.
pub discard_magic-IsAligned : (b : Bytes) → IsAligned (discard_bytes_before_frame_magic b).1
unfolding discard_bytes_before_frame_magic
discard_magic-IsAligned [] = split_magic (omega arith) refl
discard_magic-IsAligned (x ∷ xs) = elim (Bool-cases (starts_with (x ∷ xs) magic)) [
  | inl e ↦ rw e (at_magic e)
  | inr e ↦ rw e (discard_at-IsAligned (x ∷ xs))
]
