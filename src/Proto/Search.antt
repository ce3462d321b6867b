-- ===== src/Proto/Search.antt =====
-- Lemmas on the slice tests that the resynchronisation searches with.
use tryxctl.Prelude.{
  ℕ, zero, suc, ◌≤◌, ◌<◌, ◌≡◌, refl, true, false, none, some, [], ◌∷◌, ◌++◌, arith, length, drop,
  Bytes, starts_with,
}
use tryxctl.Proto.{find}

pub starts_with-append : (ys zs : Bytes) → starts_with (ys ++ zs) ys ≡ true
unfolding starts_with
starts_with-append [] zs = refl
starts_with-append (y ∷ ys) zs = ground (arith, starts_with-append ys zs)

-- More bytes behind a slice do not undo a match.
pub starts_with-append_left :
    (xs more ys : Bytes) → starts_with xs ys ≡ true → starts_with (xs ++ more) ys ≡ true
unfolding starts_with
starts_with-append_left xs more [] h = refl
starts_with-append_left [] more (y ∷ ys) h = cc
starts_with-append_left (x ∷ xs) more (y ∷ ys) h =
    ground (arith, starts_with-append_left xs more ys)

-- A match that lies within the slice does not need what follows it.
pub starts_with-append_back :
    (xs more ys : Bytes)
    → length ys ≤ length xs
    → starts_with (xs ++ more) ys ≡ true
    → starts_with xs ys ≡ true
unfolding starts_with
starts_with-append_back xs more [] l h = refl
starts_with-append_back [] more (y ∷ ys) l h = absurd (omega arith)
starts_with-append_back (x ∷ xs) more (y ∷ ys) l h =
    ground (arith, starts_with-append_back xs more ys (omega arith))

pub starts_with→append : (xs ys : Bytes) → starts_with xs ys ≡ true → xs ≡ ys ++ drop (length ys) xs
unfolding starts_with
starts_with→append xs [] h = refl
starts_with→append [] (y ∷ ys) h = cc
starts_with→append (x ∷ xs) (y ∷ ys) h = ground (arith, starts_with→append xs ys)

pub find-match :
    (xs n : Bytes) (i : ℕ)
    → find xs n ≡ some i
    → (starts_with (drop i xs) n ≡ true) × (i < length xs)
unfolding find
find-match [] n i h = cc
find-match (x ∷ xs) n zero h = ground arith
find-match (x ∷ xs) n (suc i) h = ground (arith, find-match xs n i)

-- Nothing matches before the index found.
pub find-first :
    (xs n : Bytes) (i j : ℕ) → find xs n ≡ some i → j < i → starts_with (drop j xs) n ≡ false
unfolding find
find-first [] n i j h l = cc
find-first (x ∷ xs) n zero j h l = absurd (omega arith)
find-first (x ∷ xs) n (suc i) zero h l = ground arith
find-first (x ∷ xs) n (suc i) (suc j) h l = ground (arith, find-first xs n i j)

pub find-none :
    (xs n : Bytes) (j : ℕ) → find xs n ≡ none → j < length xs → starts_with (drop j xs) n ≡ false
unfolding find
find-none [] n j h l = absurd (omega arith)
find-none (x ∷ xs) n zero h l = ground arith
find-none (x ∷ xs) n (suc j) h l = ground (arith, find-none xs n j)

pub starts_with→le : (xs ys : Bytes) → starts_with xs ys ≡ true → length ys ≤ length xs
unfolding starts_with
starts_with→le xs [] h = omega arith
starts_with→le [] (y ∷ ys) h = cc
starts_with→le (x ∷ xs) (y ∷ ys) h = ground (arith, starts_with→le xs ys)
