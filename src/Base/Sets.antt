-- ===== src/Base/Sets.antt =====
-- Finite sets of numbers as lists: membership, insertion without repetition, removal.
use Prim.Native.Nat.{ℕ}
use mathlib.Core.Path.{◌≡◌, refl}
use mathlib.Core.Logic.{inl, inr}
use mathlib.Core.Bool.{Bool, true, false, not, ◌&&◌, ◌||◌}
use mathlib.Core.List.{List, [], ◌∷◌, ◌++◌}
use native.Mathlib.Omega.{arith}
use statesman.Base.Tests.{if◌then◌else◌, Bool-cases, ◌==◌, ==_iff}
use statesman.Base.Lists.{any, keep, All}

abbrev pub mem : ℕ → List ℕ → Bool
mem a [] = false
mem a (x ∷ xs) = (a == x) || mem a xs

abbrev pub insert : ℕ → List ℕ → List ℕ
insert a xs = if mem a xs then xs else a ∷ xs

abbrev pub insert_all : List ℕ → List ℕ → List ℕ
insert_all [] xs = xs
insert_all (a ∷ as') xs = insert_all as' (insert a xs)

abbrev pub erase : ℕ → List ℕ → List ℕ
erase a [] = []
erase a (x ∷ xs) = let rest = erase a xs in if a == x then rest else x ∷ rest

-- No element stands twice.
abbrev pub IsDistinct : List ℕ → Type 0
IsDistinct [] = Unit
IsDistinct (x ∷ xs) = (mem x xs ≡ false) × IsDistinct xs

pub mem-append : (a : ℕ) (xs ys : List ℕ) → mem a (xs ++ ys) ≡ mem a xs || mem a ys
mem-append a [] ys = refl
mem-append a (x ∷ xs) ys = ground (arith, mem-append a xs ys)

pub mem-insert : (a b : ℕ) (xs : List ℕ) → mem a (insert b xs) ≡ (a == b) || mem a xs
mem-insert a b xs = elim (Bool-cases (mem b xs)) [
  | inl e ↦ elim (Bool-cases (a == b)) [
    | inl f ↦ rw (e, f) (rw ((==_iff a b).0 f) e)
    | inr f ↦ rw (e, f)
  ]
  | inr e ↦ rw e
]

pub mem-insert_all : (a : ℕ) (xs ys : List ℕ) → mem a (insert_all xs ys) ≡ mem a xs || mem a ys
mem-insert_all a [] ys = refl
mem-insert_all a (x ∷ xs) ys = ground (arith, mem-insert_all a xs (insert x ys), mem-insert a x ys)

pub mem-erase : (a b : ℕ) (xs : List ℕ) → mem a (erase b xs) ≡ not (a == b) && mem a xs
mem-erase a b [] = ground arith
mem-erase a b (x ∷ xs) = ground (arith, mem-erase a b xs)

-- A test that passes at a member passes somewhere, and the other way round.
pub mem-keep : (a : ℕ) (p : ℕ → Bool) (xs : List ℕ) → mem a (keep p xs) ≡ mem a xs && p a
mem-keep a p [] = refl
mem-keep a p (x ∷ xs) = elim (Bool-cases (a == x)) [
  | inl e ↦ rw ((==_iff a x).0 e) (ground (arith, mem-keep x p xs))
  | inr e ↦ ground (arith, mem-keep a p xs)
]

pub any_of_mem :
    (p : ℕ → Bool) (a : ℕ) (xs : List ℕ) → mem a xs ≡ true → p a ≡ true → any p xs ≡ true
any_of_mem p a [] m h = cc
any_of_mem p a (x ∷ xs) m h = elim (Bool-cases (a == x)) [
  | inl e ↦ rw (← (==_iff a x).0 e, h)
  | inr e ↦ ground (arith, any_of_mem p a xs)
]

pub mem_of_any :
    (p : ℕ → Bool) (xs : List ℕ) → any p xs ≡ true → (a : ℕ) × (mem a xs ≡ true) × (p a ≡ true)
mem_of_any p [] h = cc
mem_of_any p (x ∷ xs) h = elim (Bool-cases (p x)) [
  | inl e ↦ (x, ground arith, e)
  | inr e ↦ let (a, m, pa) = mem_of_any p xs (rw e at h) in (a, ground arith, pa)
]

pub All_mem {ℓ} : (P : ℕ → Type ℓ) (a : ℕ) (xs : List ℕ) → All P xs → mem a xs ≡ true → P a
All_mem P a [] h m = cc
All_mem P a (x ∷ xs) h m = elim (Bool-cases (a == x)) [
  | inl e ↦ rw ((==_iff a x).0 e) h.0
  | inr e ↦ All_mem P a xs h.1 (ground arith)
]

pub insert-IsDistinct : (a : ℕ) (xs : List ℕ) → IsDistinct xs → IsDistinct (insert a xs)
insert-IsDistinct a xs d = elim (Bool-cases (mem a xs)) [ inl e ↦ rw e d | inr e ↦ rw e (e, d) ]

pub erase-IsDistinct : (a : ℕ) (xs : List ℕ) → IsDistinct xs → IsDistinct (erase a xs)
erase-IsDistinct a [] d = tt
erase-IsDistinct a (x ∷ xs) d = ground (arith, mem-erase x a xs, erase-IsDistinct a xs d.1)

pub All-of_mem {ℓ} : (P : ℕ → Type ℓ) (xs : List ℕ) → ((a : ℕ) → mem a xs ≡ true → P a) → All P xs
All-of_mem P [] h = tt
All-of_mem P (x ∷ xs) h = (h x (ground arith), All-of_mem P xs (λ a m. h a (rw m (or_true _))))
  where
    or_true : (b : Bool) → (b || true) ≡ true
    or_true true = refl
    or_true false = refl
