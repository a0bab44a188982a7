-- ===== src/Base/Sort.antt =====
-- Sorting by a number, as `sort.Slice` and `sort.SliceStable` do it: in the order of a key, equal
-- keys in the order in which they came.
use mathlib.Core.Path.{◌≡◌, refl}
use mathlib.Core.Logic.{inl, inr}
use mathlib.Core.Bool.{Bool, true, ◌||◌}
use mathlib.Core.List.{List, [], ◌∷◌}
use native.Mathlib.Omega.{arith}
use statesman.Base.Tests.{if◌then◌else◌, Bool-cases}
use statesman.Base.Lists.{any, All}

module _ {ℓ} {A : Type ℓ} (le : A → A → Bool) where
  abbrev pub place : A → List A → List A
  place a [] = a ∷ []
  place a (x ∷ xs) = let rest = place a xs in if le a x then a ∷ x ∷ xs else x ∷ rest

  abbrev pub sort_by : List A → List A
  sort_by [] = []
  sort_by (x ∷ xs) = place x (sort_by xs)

  -- Each element is in order with all that follow it.
  abbrev pub IsSorted : List A → Type 0
  IsSorted [] = Unit
  IsSorted (x ∷ xs) = All (λ y. le x y ≡ true) xs × IsSorted xs

module _ {ℓ} {A : Type ℓ} (le : A → A → Bool) where
  pub any-place : (p : A → Bool) (a : A) (xs : List A) → any p (place le a xs) ≡ p a || any p xs
  any-place p a [] = refl
  any-place p a (x ∷ xs) = ground (arith, any-place p a xs)

  pub any-sort_by : (p : A → Bool) (xs : List A) → any p (sort_by le xs) ≡ any p xs
  any-sort_by p [] = refl
  any-sort_by p (x ∷ xs) = ground (arith, any-place p x (sort_by le xs), any-sort_by p xs)

  All-place {κ} : (P : A → Type κ) (a : A) (xs : List A) → P a → All P xs → All P (place le a xs)
  All-place P a [] pa h = (pa, tt)
  All-place P a (x ∷ xs) pa h = elim (Bool-cases (le a x)) [
    | inl e ↦ rw e (pa, h)
    | inr e ↦ rw e (h.0, All-place P a xs pa h.1)
  ]

  pub All-sort_by {κ} : (P : A → Type κ) (xs : List A) → All P xs → All P (sort_by le xs)
  All-sort_by P [] h = tt
  All-sort_by P (x ∷ xs) h = All-place P x (sort_by le xs) h.0 (All-sort_by P xs h.1)
