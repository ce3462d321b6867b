-- ===== src/Media/Check/Trim.antt =====
-- What trimming leaves of a stem.
use tryxctl.Prelude.{
  ℕ, suc, ◌≤◌, ◌≡◌, refl, Bool, true, false, ◌&&◌, ◌||◌, List, [], ◌∷◌, ◌==◌, length, arith,
  Bool-cases, inl, inr,
}
use tryxctl.Media.Check
use tryxctl.Media.Check.Stem.{IsClean}

-- Nothing to trim in front.
unfoldable pub StartsSolid : List ℕ → Type 0
StartsSolid [] = Unit
StartsSolid (c ∷ cs) = Check.is_trimmed c ≡ false

pub trim_left-StartsSolid : (cs : List ℕ) → StartsSolid (Check.trim_left cs)
unfolding Check.trim_left StartsSolid
trim_left-StartsSolid [] = tt
trim_left-StartsSolid (c ∷ cs) = elim (Bool-cases (Check.is_trimmed c)) [
  | inl t ↦ simp t (trim_left-StartsSolid cs)
  | inr t ↦ simp t refl
]

pub trim_left-solid : (cs : List ℕ) → StartsSolid cs → Check.trim_left cs ≡ cs
unfolding Check.trim_left StartsSolid
trim_left-solid [] h = refl
trim_left-solid (c ∷ cs) h = simp h refl

keep_last-StartsSolid :
    (c : ℕ) (cs : List ℕ) → Check.is_trimmed c ≡ false → StartsSolid (Check.keep_last c cs)
unfolding Check.keep_last StartsSolid
keep_last-StartsSolid c [] h = simp h refl
keep_last-StartsSolid c (d ∷ ds) h = h

pub trim_right-StartsSolid : (cs : List ℕ) → StartsSolid cs → StartsSolid (Check.trim_right cs)
unfolding Check.trim_right StartsSolid
trim_right-StartsSolid [] h = tt
trim_right-StartsSolid (c ∷ cs) h = keep_last-StartsSolid c (Check.trim_right cs) h

keep_last-trim_right :
    (c : ℕ) (cs : List ℕ)
    → Check.trim_right cs ≡ cs
    → Check.trim_right (Check.keep_last c cs) ≡ Check.keep_last c cs
unfolding Check.keep_last Check.trim_right
keep_last-trim_right c [] h = elim (Bool-cases (Check.is_trimmed c)) [
  | inl t ↦ simp t refl
  | inr t ↦ simp (t, t) refl
]
keep_last-trim_right c (d ∷ ds) h = simp h refl

pub trim_right_again : (cs : List ℕ) → Check.trim_right (Check.trim_right cs) ≡ Check.trim_right cs
unfolding Check.trim_right
trim_right_again [] = refl
trim_right_again (c ∷ cs) = keep_last-trim_right c (Check.trim_right cs) (trim_right_again cs)

pub trim_left-IsClean :
    (quiet : Bool) (cs : List ℕ) → IsClean quiet cs → IsClean true (Check.trim_left cs)
unfolding Check.trim_left Check.is_trimmed IsClean
trim_left-IsClean quiet [] h = tt
trim_left-IsClean quiet (c ∷ cs) (safe, first, rest) = elim (Bool-cases (Check.is_trimmed c)) [
  | inl t ↦ simp t (trim_left-IsClean (c == 45) cs rest)
  | inr t ↦ simp t (safe, ground (arith, t), rest)
]

keep_last-IsClean :
    (quiet : Bool) (c : ℕ) (cs : List ℕ)
    → (Check.is_kept c || c == 45) ≡ true
    → (quiet && c == 45) ≡ false
    → IsClean (c == 45) cs
    → IsClean quiet (Check.keep_last c cs)
unfolding Check.keep_last IsClean
keep_last-IsClean quiet c [] safe first rest = elim (Bool-cases (Check.is_trimmed c)) [
  | inl t ↦ simp t tt
  | inr t ↦ simp t (safe, first, tt)
]
keep_last-IsClean quiet c (d ∷ ds) safe first rest = (safe, first, rest)

pub trim_right-IsClean :
    (quiet : Bool) (cs : List ℕ) → IsClean quiet cs → IsClean quiet (Check.trim_right cs)
unfolding Check.trim_right IsClean
trim_right-IsClean quiet [] h = tt
trim_right-IsClean quiet (c ∷ cs) (safe, first, rest) =
    keep_last-IsClean quiet c (Check.trim_right cs) safe first
      (trim_right-IsClean (c == 45) cs rest)

pub length-trim_left : (cs : List ℕ) → length (Check.trim_left cs) ≤ length cs
unfolding Check.trim_left
length-trim_left [] = omega arith
length-trim_left (c ∷ cs) = ground (arith, length-trim_left cs)

length-keep_last : (c : ℕ) (cs : List ℕ) → length (Check.keep_last c cs) ≤ suc (length cs)
unfolding Check.keep_last
length-keep_last c [] = ground arith
length-keep_last c (d ∷ ds) = omega arith

pub length-trim_right : (cs : List ℕ) → length (Check.trim_right cs) ≤ length cs
unfolding Check.trim_right
length-trim_right [] = omega arith
length-trim_right (c ∷ cs) =
    omega (arith, length-keep_last c (Check.trim_right cs), length-trim_right cs)
