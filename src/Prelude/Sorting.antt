-- ===== src/Prelude/Sorting.antt =====
-- `sort_by`, a stable sort, as insertion sort: the result is the one that any stable sort gives.
use mathlib.Core.Path.{◌≡◌}
use mathlib.Core.Bool.{Bool, true, false}
use mathlib.Core.Logic.{inl, inr}
use mathlib.Core.List.{List, [], ◌∷◌, Perm}
use mathlib.Core.List.Perm
use native.Mathlib.Omega.{arith}
use lmkd_linux.Prelude.Tests.{if◌then◌else◌, Bool-cases}
use lmkd_linux.Prelude.Lists.{All}

-- `le a b`: `a` may stay in front of `b`.
module _ {ℓ} {A : Type ℓ} (le : A → A → Bool) where
  unfoldable pub place : A → List A → List A
  place a [] = a ∷ []
  place a (x ∷ xs) = if le a x then a ∷ x ∷ xs else x ∷ place a xs

  unfoldable pub sort : List A → List A
  unfolding place
  sort [] = []
  sort (x ∷ xs) = place x (sort xs)

  pub place-All {κ} : (P : A → Type κ) (a : A) (xs : List A) → P a → All P xs → All P (place a xs)
  unfolding place
  place-All P a [] h hs = (h, tt)
  place-All P a (x ∷ xs) h hs = ground (arith, place-All P a xs h hs.1)

  pub sort-All {κ} : (P : A → Type κ) (xs : List A) → All P xs → All P (sort xs)
  unfolding sort
  sort-All P [] h = tt
  sort-All P (x ∷ xs) h = place-All P x (sort xs) h.0 (sort-All P xs h.1)

  place-perm : (a : A) (xs : List A) → Perm (place a xs) (a ∷ xs)
  unfolding place
  place-perm a [] = Perm.refl (a ∷ [])
  place-perm a (x ∷ xs) = elim (Bool-cases (le a x)) [
    | inl h ↦ rw (h, place) (Perm.refl (a ∷ x ∷ xs))
    | inr h ↦ rw (h, place) (Perm.trans (Perm.cons x (place-perm a xs)) (Perm.swap a x xs))
  ]

  pub sort-perm : (xs : List A) → Perm (sort xs) xs
  unfolding sort
  sort-perm [] = Perm.refl []
  sort-perm (x ∷ xs) = Perm.trans (place-perm x (sort xs)) (Perm.cons x (sort-perm xs))

  -- Every entry may stand in front of all that follow it.
  abbrev pub Sorted : List A → Type ℓ
  Sorted [] = Unit
  Sorted (x ∷ xs) = All (λ y. le x y ≡ true) xs × Sorted xs

module _ {ℓ} {A : Type ℓ} (le : A → A → Bool) (total : (a b : A) → le a b ≡ false → le b a ≡ true)
    (trans : (a b c : A) → le a b ≡ true → le b c ≡ true → le a c ≡ true) where
  All-le_of_le :
      (a x : A) (xs : List A)
      → le a x ≡ true
      → All (λ y. le x y ≡ true) xs
      → All (λ y. le a y ≡ true) xs
  All-le_of_le a x [] h hs = tt
  All-le_of_le a x (y ∷ ys) h hs = (trans a x y h hs.0, All-le_of_le a x ys h hs.1)

  place-Sorted : (a : A) (xs : List A) → Sorted le xs → Sorted le (place le a xs)
  unfolding place
  place-Sorted a [] h = (tt, tt)
  place-Sorted a (x ∷ xs) h = elim (Bool-cases (le a x)) [
    | inl p ↦ rw (p, place) ((p, All-le_of_le a x xs p h.0), h)
    | inr p ↦
        rw (p, place)
          (place-All le (λ y. le x y ≡ true) a xs (total a x p) h.0, place-Sorted a xs h.1)
  ]

  -- Sorting by a total preorder gives a sorted list.
  pub sort-Sorted : (xs : List A) → Sorted le (sort le xs)
  unfolding sort
  sort-Sorted [] = tt
  sort-Sorted (x ∷ xs) = place-Sorted x (sort le xs) (sort-Sorted xs)
