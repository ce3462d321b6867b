-- ===== src/Prelude/Sorting.antt =====
-- `sort_by` on a text that each element has: stable, in the order of the bytes.
use mathlib.Core.Path.{◌≡◌, refl}
use mathlib.Core.Bool.{Bool, true, false, ◌&&◌, ◌||◌}
use mathlib.Core.List.{List, [], ◌∷◌}
use native.Mathlib.Omega.{arith}
use tryxctl.Prelude.Tests.{◌==◌, ltb, if◌then◌else◌, Bool-cases}
use tryxctl.Prelude.Lists.{All, Member, here, there}
use tryxctl.Prelude.Words.{Bytes}
use mathlib.Core.Logic.{inl, inr}

-- `a <= b` for texts.
pub text_le : Bytes → Bytes → Bool
text_le [] b = true
text_le (x ∷ a) [] = false
text_le (x ∷ a) (y ∷ b) = ltb x y || (x == y && text_le a b)

insert_by {ℓ} : {A : Type ℓ} → (A → Bytes) → A → List A → List A
insert_by key x [] = x ∷ []
insert_by key x (y ∷ ys) =
    let rest = y ∷ insert_by key x ys in if text_le (key x) (key y) then x ∷ y ∷ ys else rest

pub sort_by {ℓ} : {A : Type ℓ} → (A → Bytes) → List A → List A
unfolding insert_by
sort_by key [] = []
sort_by key (x ∷ xs) = insert_by key x (sort_by key xs)

pub text_le_total : (a b : Bytes) → text_le a b ≡ false → text_le b a ≡ true
unfolding text_le
text_le_total [] b h = absurd (ground (arith, h))
text_le_total (x ∷ a) [] h = refl
text_le_total (x ∷ a) (y ∷ b) h = ground (arith, h, text_le_total a b)

-- Each neighbour stands in order.
pub IsSortedBy {ℓ} : {A : Type ℓ} → (A → Bytes) → List A → Type 0
IsSortedBy key [] = Unit
IsSortedBy key (x ∷ []) = Unit
IsSortedBy key (x ∷ y ∷ ys) = (text_le (key x) (key y) ≡ true) × IsSortedBy key (y ∷ ys)

insert_by_behind {ℓ} :
    {A : Type ℓ} (key : A → Bytes) (x y : A) (ys : List A)
    → text_le (key y) (key x) ≡ true
    → IsSortedBy key (y ∷ ys)
    → IsSortedBy key (insert_by key x ys)
    → IsSortedBy key (y ∷ insert_by key x ys)
unfolding insert_by IsSortedBy
insert_by_behind key x y [] le h k = (le, k)
insert_by_behind key x y (z ∷ zs) le h k = elim (Bool-cases (text_le (key x) (key z))) [
  | inl first ↦ simp first (le, simp first at k)
  | inr later ↦ simp later (h.0, simp later at k)
]

insert_by-IsSortedBy {ℓ} :
    {A : Type ℓ} (key : A → Bytes) (x : A) (ys : List A)
    → IsSortedBy key ys
    → IsSortedBy key (insert_by key x ys)
unfolding IsSortedBy insert_by
insert_by-IsSortedBy key x [] h = tt
insert_by-IsSortedBy key x (y ∷ []) h = elim (Bool-cases (text_le (key x) (key y))) [
  | inl first ↦ simp first (refl, tt)
  | inr later ↦ simp later (text_le_total (key x) (key y) later, tt)
]
insert_by-IsSortedBy key x (y ∷ z ∷ zs) h = elim (Bool-cases (text_le (key x) (key y))) [
  | inl first ↦ simp first (refl, h)
  | inr later ↦ simp later (
      insert_by_behind key x y (z ∷ zs) (text_le_total (key x) (key y) later) h
        (insert_by-IsSortedBy key x (z ∷ zs) h.1))
]

pub sort_by-IsSortedBy {ℓ} :
    {A : Type ℓ} (key : A → Bytes) (xs : List A) → IsSortedBy key (sort_by key xs)
unfolding sort_by IsSortedBy
sort_by-IsSortedBy key [] = tt
sort_by-IsSortedBy key (x ∷ xs) =
    insert_by-IsSortedBy key x (sort_by key xs) (sort_by-IsSortedBy key xs)

insert_by-here {ℓ} :
    {A : Type ℓ} (key : A → Bytes) (x : A) (ys : List A) → Member x (insert_by key x ys)
unfolding insert_by
insert_by-here key x [] = here
insert_by-here key x (y ∷ ys) = elim (Bool-cases (text_le (key x) (key y))) [
  | inl first ↦ simp first here
  | inr later ↦ simp later (there (insert_by-here key x ys))
]

insert_by-there {ℓ} :
    {A : Type ℓ} (key : A → Bytes) (x z : A) (ys : List A)
    → Member z ys
    → Member z (insert_by key x ys)
unfolding insert_by
insert_by-there key x z [] m = elim m [ ]
insert_by-there key x z (y ∷ ys) here = elim (Bool-cases (text_le (key x) (key y))) [
  | inl first ↦ simp first (there here)
  | inr later ↦ simp later here
]
insert_by-there key x z (y ∷ ys) (there m) = elim (Bool-cases (text_le (key x) (key y))) [
  | inl first ↦ simp first (there (there m))
  | inr later ↦ simp later (there (insert_by-there key x z ys m))
]

pub sort_by-Member {ℓ} :
    {A : Type ℓ} (key : A → Bytes) (x : A) (xs : List A) → Member x xs → Member x (sort_by key xs)
unfolding sort_by
sort_by-Member key x [] m = elim m [ ]
sort_by-Member key x (y ∷ xs) here = insert_by-here key y (sort_by key xs)
sort_by-Member key x (y ∷ xs) (there m) =
    insert_by-there key y x (sort_by key xs) (sort_by-Member key x xs m)

insert_by-All {ℓ κ} :
    {A : Type ℓ} (P : A → Type κ) (key : A → Bytes) (x : A) (ys : List A)
    → P x
    → All P ys
    → All P (insert_by key x ys)
unfolding insert_by
insert_by-All P key x [] p h = (p, h)
insert_by-All P key x (y ∷ ys) p h = elim (Bool-cases (text_le (key x) (key y))) [
  | inl first ↦ simp first (p, h)
  | inr later ↦ simp later (h.0, insert_by-All P key x ys p h.1)
]

pub sort_by-All {ℓ κ} :
    {A : Type ℓ} (P : A → Type κ) (key : A → Bytes) (xs : List A)
    → All P xs
    → All P (sort_by key xs)
unfolding sort_by
sort_by-All P key [] h = h
sort_by-All P key (x ∷ xs) h = insert_by-All P key x (sort_by key xs) h.0 (sort_by-All P key xs h.1)
