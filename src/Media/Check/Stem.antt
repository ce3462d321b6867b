-- ===== src/Media/Check/Stem.antt =====
-- What a sanitised stem consists of.
use tryxctl.Prelude.{
  ℕ, zero, suc, ◌≡◌, refl, ap, sym, ◌∙◌, Bool, true, false, ◌&&◌, ◌||◌, List, [], ◌∷◌, ◌++◌,
  append-nil, append_assoc, ◌==◌, if◌then◌else◌, take, equal, arith, Bool-cases, inl, inr,
}
use mathlib.Core.List.{foldl}
use tryxctl.Media.Check

-- The loop as a plain recursion: no dash is written after a dash or in front of everything.
pub clean : Bool → List ℕ → List ℕ
unfolding Check.is_kept
clean quiet [] = []
clean quiet (c ∷ cs) =
    let kept = c ∷ clean false cs in
    let dashed = clean true cs in
    if Check.is_kept c then kept else if quiet then dashed else 45 ∷ dashed

equal-snoc : (out : List ℕ) (c : ℕ) → equal (out ++ (c ∷ [])) [] ≡ false
unfolding equal
equal-snoc [] c = refl
equal-snoc (x ∷ out) c = refl

pub foldl-clean :
    (out : List ℕ) (last_dash : Bool) (stem : List ℕ)
    → (foldl Check.sanitize_step (out, last_dash) stem).0
      ≡ out ++ clean (last_dash || equal out []) stem
unfolding Check.sanitize_step clean
foldl-clean out last_dash [] = sym (append-nil out)
foldl-clean out last_dash (c ∷ cs) =
    let kept = foldl-clean (out ++ (c ∷ [])) false cs ∙ append_assoc out (c ∷ []) _ in
    let dashed = foldl-clean (out ++ (45 ∷ [])) true cs ∙ append_assoc out (45 ∷ []) _ in
    elim (Bool-cases (Check.is_kept c)) [
      | inl k ↦ simp k (kept ∙ rw (equal-snoc out c) refl)
      | inr k ↦ elim (Bool-cases last_dash) [
        | inl l ↦ simp (k, l) (foldl-clean out true cs)
        | inr l ↦ elim (Bool-cases (equal out [])) [
          | inl e ↦
              simp (k, l, e) (foldl-clean out false cs ∙ ap (λ (q : Bool). out ++ clean q cs) e)
          | inr e ↦ simp (k, l, e) dashed
        ]
      ]
    ]

-- Safe characters, with no dash behind a dash, and none in front if `quiet`.
unfoldable pub IsClean : Bool → List ℕ → Type 0
IsClean quiet [] = Unit
IsClean quiet (c ∷ cs) =
    ((Check.is_kept c || c == 45) ≡ true) × ((quiet && c == 45) ≡ false) × IsClean (c == 45) cs

pub dash_kept : Check.is_kept 45 ≡ false
unfolding Check.is_kept Check.is_alphanumeric
dash_kept = refl

pub kept_dash : (c : ℕ) → Check.is_kept c ≡ true → (c == 45) ≡ false
unfolding Check.is_kept Check.is_alphanumeric
kept_dash c h = ground (arith, h)

pub clean-IsClean : (quiet : Bool) (cs : List ℕ) → IsClean quiet (clean quiet cs)
unfolding clean IsClean
clean-IsClean quiet [] = tt
clean-IsClean quiet (c ∷ cs) = elim (Bool-cases (Check.is_kept c)) [
  | inl k ↦ simp (k, kept_dash c k) (refl, ground arith, clean-IsClean false cs)
  | inr k ↦ elim (Bool-cases quiet) [
    | inl q ↦ simp (k, q) (clean-IsClean true cs)
    | inr q ↦ simp (k, q) (ground arith, refl, clean-IsClean true cs)
  ]
]

pub clean-fixed : (quiet : Bool) (cs : List ℕ) → IsClean quiet cs → clean quiet cs ≡ cs
unfolding clean IsClean
clean-fixed quiet [] h = refl
clean-fixed quiet (c ∷ cs) (safe, first, rest) = elim (Bool-cases (Check.is_kept c)) [
  | inl k ↦ simp k (ap (◌∷◌ c) (clean-fixed false cs (rw (← kept_dash c k) rest)))
  | inr k ↦
      let dash : c ≡ 45 = ground (arith, k, safe) in
      let loud : quiet ≡ false = ground (arith, first, dash) in
      let test : (c == 45) ≡ true = ground (arith, dash) in
      let more : clean true cs ≡ cs = clean-fixed true cs (rw (← test) rest) in
      simp (k, loud, more) (ap (λ (d : ℕ). d ∷ cs) (sym dash))
]

pub take-IsClean :
    (n : ℕ) (quiet : Bool) (cs : List ℕ) → IsClean quiet cs → IsClean quiet (take n cs)
unfolding IsClean
take-IsClean zero quiet cs h = tt
take-IsClean (suc n) quiet [] h = tt
take-IsClean (suc n) quiet (c ∷ cs) (safe, first, rest) =
    (safe, first, take-IsClean n (c == 45) cs rest)
