-- ===== src/Base/Lists.antt =====
-- Lists measured and indexed by native numbers, under the library's names.
use Prim.Native.Nat.{ℕ, zero, suc, ◌+◌}
use mathlib.Core.Path.{◌≡◌, refl, ap}
use mathlib.Core.Logic.{◌↔◌, ◌⊎◌, inl, inr}
use mathlib.Core.Bool.{Bool, true, false, ◌&&◌, ◌||◌}
use mathlib.Core.List.{List, [], ◌∷◌, ◌++◌}
use mathlib.Core.Option.{Option, none, some}
use native.Mathlib.Omega.{arith}
use statesman.Base.Tests.{if◌then◌else◌, Bool-cases}

module _ {ℓ} {A : Type ℓ} where
  abbrev pub length : List A → ℕ
  length [] = 0
  length (x ∷ xs) = suc (length xs)

  abbrev pub get_or : List A → ℕ → A → A
  get_or [] i d = d
  get_or (x ∷ xs) zero d = x
  get_or (x ∷ xs) (suc i) d = get_or xs i d

  -- A write out of bounds changes nothing.
  abbrev pub set : List A → ℕ → A → List A
  set [] i v = []
  set (x ∷ xs) zero v = v ∷ xs
  set (x ∷ xs) (suc i) v = x ∷ set xs i v

  abbrev pub any : (A → Bool) → List A → Bool
  any p [] = false
  any p (x ∷ xs) = p x || any p xs

  abbrev pub all : (A → Bool) → List A → Bool
  all p [] = true
  all p (x ∷ xs) = p x && all p xs

  -- The elements that pass a Boolean test.
  abbrev pub keep : (A → Bool) → List A → List A
  keep p [] = []
  keep p (x ∷ xs) = let rest = keep p xs in if p x then x ∷ rest else rest

  -- The first element that passes.
  abbrev pub find : (A → Bool) → List A → Option A
  find p [] = none
  find p (x ∷ xs) = let rest = find p xs in if p x then some x else rest

  -- A predicate on every element, as a tuple.
  abbrev pub All {κ} : (A → Type κ) → List A → Type κ
  All P [] = Unit
  All P (x ∷ xs) = P x × All P xs

  pub length-append : (xs ys : List A) → length (xs ++ ys) ≡ length xs + length ys
  length-append [] ys = omega arith
  length-append (x ∷ xs) ys = omega (arith, length-append xs ys)

  -- A found element passes the test.
  pub find_passes : (p : A → Bool) (xs : List A) {x : A} → find p xs ≡ some x → p x ≡ true
  find_passes p [] h = cc
  find_passes p (y ∷ ys) {x} h = elim (Bool-cases (p y)) [
    | inl e ↦ ground arith
    | inr e ↦ find_passes p ys (rw e at h)
  ]

module _ {ℓ} {A : Type ℓ} where
  pub any-append : (p : A → Bool) (xs ys : List A) → any p (xs ++ ys) ≡ any p xs || any p ys
  any-append p [] ys = refl
  any-append p (x ∷ xs) ys = ground (arith, any-append p xs ys)

  -- Where no element passes, none is found, and where one does, some element is.
  pub find-none : (p : A → Bool) (xs : List A) → any p xs ≡ false → find p xs ≡ none
  find-none p [] h = refl
  find-none p (x ∷ xs) h = ground (arith, find-none p xs)

  pub find-any : (p : A → Bool) (xs : List A) → find p xs ≡ none → any p xs ≡ false
  find-any p [] h = refl
  find-any p (x ∷ xs) h = ground (arith, find-any p xs)

  -- The element found, with what stands before it: nothing there passes.
  pub find_split :
      (p : A → Bool) (xs : List A) {x : A}
      → find p xs ≡ some x
      → (before after : List A) × (xs ≡ before ++ (x ∷ after)) × (any p before ≡ false)
  find_split p [] h = cc
  find_split p (y ∷ ys) {x} h = elim (Bool-cases (p y)) [
    | inl e ↦ ([], ys, ground arith, refl)
    | inr e ↦
        let (before, after, split, none_before) = find_split p ys (rw e at h) in
        (y ∷ before, after, ap (◌∷◌ y) split, rw e none_before)
  ]

-- A predicate on some element.
abbrev pub Any {ℓ} : {A : Type ℓ} → (A → Type 0) → List A → Type 0
Any P [] = ⊥
Any P (x ∷ xs) = P x ⊎ Any P xs

pub any_iff {ℓ} :
    {A : Type ℓ} (p : A → Bool) (P : A → Type 0) (xs : List A)
    → ((x : A) → (p x ≡ true) ↔ P x)
    → (any p xs ≡ true) ↔ Any P xs
any_iff p P [] h = (λ e. cc, λ e. absurd e)
any_iff p P (x ∷ xs) h =
    let rest = any_iff p P xs h in
    (
      λ e. elim (Bool-cases (p x)) [
        | inl here ↦ inl ((h x).0 here)
        | inr away ↦ inr (rest.0 (rw away at e))
      ],
      elim [ inl here ↦ rw ((h x).1 here) | inr there ↦ ground (arith, rest.1 there) ],
    )

pub All-keep {ℓ κ} :
    {A : Type ℓ} (P : A → Type κ) (p : A → Bool) (ts : List A) → All P ts → All P (keep p ts)
All-keep P p [] a = tt
All-keep P p (t ∷ ts) a = elim (Bool-cases (p t)) [
  | inl e ↦ rw e (a.0, All-keep P p ts a.1)
  | inr e ↦ rw e (All-keep P p ts a.1)
]

pub All-concat {ℓ κ} :
    {A : Type ℓ} (P : A → Type κ) (ts : List A) (t : A) → All P ts → P t → All P (ts ++ t ∷ [])
All-concat P [] t a pt = (pt, tt)
All-concat P (u ∷ ts) t a pt = (a.0, All-concat P ts t a.1 pt)
