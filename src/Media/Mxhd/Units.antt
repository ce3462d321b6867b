-- ===== src/Media/Mxhd/Units.antt =====
-- The scan for access unit delimiters finds each of them once.
use tryxctl.Prelude.{
  ℕ, ◌+◌, ◌%◌, ◌≡◌, refl, sym, ap, ◌∙◌, Bool, true, false, ◌&&◌, [], ◌∷◌, arith, ◌==◌,
  if◌then◌else◌, Bytes, Bool-cases, inl, inr,
}
use tryxctl.Media.Mxhd.{count_access_units}

-- A start code and a NAL unit of type 9 stand here.
abbrev pub is_delimiter : Bytes → Bool
is_delimiter (a ∷ b ∷ c ∷ d ∷ rest) = (a == 0 && b == 0 && c == 1) && d % 32 == 9
is_delimiter _ = false

-- The reference: the places of the stream at which a delimiter stands.
unfoldable pub delimiters : Bytes → ℕ
delimiters [] = 0
delimiters (x ∷ xs) = (if is_delimiter (x ∷ xs) then 1 else 0) + delimiters xs

first_nonzero : (a : ℕ) (r : Bytes) → (a == 0) ≡ false → is_delimiter (a ∷ r) ≡ false
first_nonzero a [] h = refl
first_nonzero a (b ∷ []) h = refl
first_nonzero a (b ∷ c ∷ []) h = refl
first_nonzero a (b ∷ c ∷ d ∷ r) h = rw h

second_nonzero : (a b : ℕ) (r : Bytes) → (b == 0) ≡ false → is_delimiter (a ∷ b ∷ r) ≡ false
second_nonzero a b [] h = refl
second_nonzero a b (c ∷ []) h = refl
second_nonzero a b (c ∷ d ∷ r) h = rw h (ground arith)

-- Behind a zero and a one no delimiter begins before the next byte.
delimiters_past : (b c : ℕ) (r : Bytes) → (c == 1) ≡ true → delimiters (b ∷ c ∷ r) ≡ delimiters r
unfolding delimiters
delimiters_past b c r h =
    let nonzero : (c == 0) ≡ false = ground arith in
    rw (second_nonzero b c r nonzero, first_nonzero c r nonzero) (omega arith)

count_start_code :
    (a b c d : ℕ) (r : Bytes)
    → (a == 0 && b == 0 && c == 1) ≡ true
    → count_access_units (a ∷ b ∷ c ∷ d ∷ r)
      ≡ (if d % 32 == 9 then 1 else 0) + count_access_units (d ∷ r)
unfolding count_access_units
count_start_code a b c d r h = rw h

count_other :
    (a b c d : ℕ) (r : Bytes)
    → (a == 0 && b == 0 && c == 1) ≡ false
    → count_access_units (a ∷ b ∷ c ∷ d ∷ r) ≡ count_access_units (b ∷ c ∷ d ∷ r)
unfolding count_access_units
count_other a b c d r h = rw h

delimiters_start_code :
    (a b c d : ℕ) (r : Bytes)
    → (a == 0 && b == 0 && c == 1) ≡ true
    → delimiters (a ∷ b ∷ c ∷ d ∷ r) ≡ (if d % 32 == 9 then 1 else 0) + delimiters (b ∷ c ∷ d ∷ r)
unfolding delimiters
delimiters_start_code a b c d r h = rw h

delimiters_other :
    (a b c d : ℕ) (r : Bytes)
    → (a == 0 && b == 0 && c == 1) ≡ false
    → delimiters (a ∷ b ∷ c ∷ d ∷ r) ≡ delimiters (b ∷ c ∷ d ∷ r)
unfolding delimiters
delimiters_other a b c d r h = rw h (omega arith)

third_one : (a b c : ℕ) → (a == 0 && b == 0 && c == 1) ≡ true → (c == 1) ≡ true
third_one a b c h = ground arith

-- Advancing by three bytes behind a start code misses no delimiter and counts none twice.
pub count_access_units-delimiters : (stream : Bytes) → count_access_units stream ≡ delimiters stream
count_access_units-delimiters [] = unfold count_access_units delimiters in refl
count_access_units-delimiters (a ∷ []) = unfold count_access_units delimiters in refl
count_access_units-delimiters (a ∷ b ∷ []) = unfold count_access_units delimiters in refl
count_access_units-delimiters (a ∷ b ∷ c ∷ []) = unfold count_access_units delimiters in refl
count_access_units-delimiters (a ∷ b ∷ c ∷ d ∷ rest) =
    let hit : ℕ = if d % 32 == 9 then 1 else 0 in
    elim (Bool-cases (a == 0 && b == 0 && c == 1)) [
      | inl e ↦
          count_start_code a b c d rest e
          ∙ ap (λ n. hit + n) (count_access_units-delimiters (d ∷ rest))
          ∙ ap (λ n. hit + n) (sym (delimiters_past b c (d ∷ rest) (third_one a b c e)))
          ∙ sym (delimiters_start_code a b c d rest e)
      | inr e ↦
          count_other a b c d rest e
          ∙ count_access_units-delimiters (b ∷ c ∷ d ∷ rest)
          ∙ sym (delimiters_other a b c d rest e)
    ]
