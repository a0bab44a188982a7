-- ===== src/Configuration/Order.antt =====
-- The listings of a configuration hold its members, each once, in document order.
use statesman.Base.{
  ℕ, ◌<◌, ◌≤◌, ◌≡◌, refl, sym, Bool, true, false, List, [], ◌∷◌, mem, ◌==◌, place, sort_by, leb,
  any, any-sort_by, All-sort_by, All, arith, IsDistinct, ◌&&◌, mem-keep, length, Bool-cases, inl,
  inr,
}
use statesman.Definition.{Addr, Heap, is_atomic}
use statesman.Definition.Ancestors.{IsTree}
use statesman.Configuration.{
  before, after, Configuration, by_doc_order, by_reverse_doc_order, all_active, atomic,
}

-- Every address of the list is one of the heap.
abbrev pub Fits : Heap → List Addr → Type 0
Fits h = All (λ n. n < length h)

-- Strictly ascending, and strictly descending.
abbrev pub Ascending : List ℕ → Type 0
Ascending [] = Unit
Ascending (x ∷ xs) = All (λ y. x < y) xs × Ascending xs

abbrev pub Descending : List ℕ → Type 0
Descending [] = Unit
Descending (x ∷ xs) = All (λ y. y < x) xs × Descending xs

mem-any : (a : ℕ) (xs : List ℕ) → mem a xs ≡ any (λ x. a == x) xs
mem-any a [] = refl
mem-any a (x ∷ xs) = ground (arith, mem-any a xs)

pub mem-sort_by : (le : ℕ → ℕ → Bool) (a : ℕ) (xs : List ℕ) → mem a (sort_by le xs) ≡ mem a xs
mem-sort_by le a xs =
    rw (mem-any a (sort_by le xs), any-sort_by le (λ x. a == x) xs) (rw (mem-any a xs))

pub mem-by_doc_order : (h : Heap) (a : Addr) (xs : List Addr) → mem a (by_doc_order h xs) ≡ mem a xs
unfolding by_doc_order
mem-by_doc_order h a xs = mem-sort_by (before h) a xs

pub mem-by_reverse_doc_order :
    (h : Heap) (a : Addr) (xs : List Addr) → mem a (by_reverse_doc_order h xs) ≡ mem a xs
unfolding by_reverse_doc_order
mem-by_reverse_doc_order h a xs = mem-sort_by (after h) a xs

All-lt_trans : (a b : ℕ) (xs : List ℕ) → a < b → All (λ y. b < y) xs → All (λ y. a < y) xs
All-lt_trans a b [] l h = tt
All-lt_trans a b (x ∷ xs) l h = (omega arith, All-lt_trans a b xs l h.1)

All-gt_trans : (a b : ℕ) (xs : List ℕ) → b < a → All (λ y. y < b) xs → All (λ y. y < a) xs
All-gt_trans a b [] l h = tt
All-gt_trans a b (x ∷ xs) l h = (omega arith, All-gt_trans a b xs l h.1)

All-place :
    (le : ℕ → ℕ → Bool) (P : ℕ → Type 0) (a : ℕ) (xs : List ℕ)
    → P a
    → All P xs
    → All P (place le a xs)
All-place le P a [] pa h = (pa, tt)
All-place le P a (x ∷ xs) pa h = elim (Bool-cases (le a x)) [
  | inl e ↦ rw e (pa, h)
  | inr e ↦ rw e (h.0, All-place le P a xs pa h.1)
]

lt-absent : (x : ℕ) (xs : List ℕ) → All (λ y. x < y) xs → mem x xs ≡ false
lt-absent x [] h = refl
lt-absent x (y ∷ ys) h = ground (arith, lt-absent x ys)

module _ (h : Heap) (tree : IsTree h) where
  place-Ascending :
      (n : Addr) (xs : List Addr)
      → n < length h
      → Fits h xs
      → mem n xs ≡ false
      → Ascending xs
      → Ascending (place (before h) n xs)
  place-Ascending n [] l fits new asc = (tt, tt)
  place-Ascending n (x ∷ xs) l fits new asc =
      rw (tree.doc_order_eq n l, tree.doc_order_eq x fits.0)
        (elim (Bool-cases (leb n x)) [
          | inl e ↦ let lt : n < x = ground arith in rw e ((lt, All-lt_trans n x xs lt asc.0), asc)
          | inr e ↦
              let lt : x < n = ground arith in
              rw e (
                All-place (before h) (λ y. x < y) n xs lt asc.0,
                place-Ascending n xs l fits.1 (ground arith) asc.1,
              )
        ])

  place-Descending :
      (n : Addr) (xs : List Addr)
      → n < length h
      → Fits h xs
      → mem n xs ≡ false
      → Descending xs
      → Descending (place (after h) n xs)
  place-Descending n [] l fits new desc = (tt, tt)
  place-Descending n (x ∷ xs) l fits new desc =
      rw (tree.doc_order_eq n l, tree.doc_order_eq x fits.0)
        (elim (Bool-cases (leb x n)) [
          | inl e ↦
              let lt : x < n = ground arith in rw e ((lt, All-gt_trans n x xs lt desc.0), desc)
          | inr e ↦
              let lt : n < x = ground arith in
              rw e (
                All-place (after h) (λ y. y < x) n xs lt desc.0,
                place-Descending n xs l fits.1 (ground arith) desc.1,
              )
        ])

  -- A listing by document order ascends strictly, so it holds each node once.
  pub by_doc_order-Ascending :
      (xs : List Addr) → Fits h xs → IsDistinct xs → Ascending (by_doc_order h xs)
  unfolding by_doc_order
  by_doc_order-Ascending [] fits d = tt
  by_doc_order-Ascending (x ∷ xs) fits d =
      place-Ascending x (by_doc_order h xs) fits.0 (All-sort_by (before h) _ xs fits.1)
        (rw (mem-by_doc_order h x xs) d.0) (by_doc_order-Ascending xs fits.1 d.1)

  pub by_reverse_doc_order-Descending :
      (xs : List Addr) → Fits h xs → IsDistinct xs → Descending (by_reverse_doc_order h xs)
  unfolding by_reverse_doc_order
  by_reverse_doc_order-Descending [] fits d = tt
  by_reverse_doc_order-Descending (x ∷ xs) fits d =
      place-Descending x (by_reverse_doc_order h xs) fits.0 (All-sort_by (after h) _ xs fits.1)
        (rw (mem-by_reverse_doc_order h x xs) d.0) (by_reverse_doc_order-Descending xs fits.1 d.1)

-- A list in strict order holds each element once.
pub Ascending-IsDistinct : (xs : List ℕ) → Ascending xs → IsDistinct xs
Ascending-IsDistinct [] a = tt
Ascending-IsDistinct (x ∷ xs) a = (lt-absent x xs a.0, Ascending-IsDistinct xs a.1)

-- A list in strict order is told by its members.
lt-head : (x y : ℕ) (ys : List ℕ) → Ascending (y ∷ ys) → x < y → mem x (y ∷ ys) ≡ false
lt-head x y ys asc l = lt-absent x (y ∷ ys) (l, All-lt_trans x y ys l asc.0)

mem-head : (x : ℕ) (xs : List ℕ) → mem x (x ∷ xs) ≡ true
mem-head x xs = ground arith

heads_meet :
    (x y : ℕ) (xs ys : List ℕ) → Ascending (y ∷ ys) → mem x (x ∷ xs) ≡ mem x (y ∷ ys) → y ≤ x
heads_meet x y xs ys b same = elim (Bool-cases (leb y x)) [
  | inl e ↦ ground (arith, e)
  | inr e ↦ let l : x < y = ground (arith, e) in cc (lt-head x y ys b l, mem-head x xs, same)
]

tails_meet :
    (x n : ℕ) (xs ys : List ℕ)
    → Ascending (x ∷ xs)
    → Ascending (x ∷ ys)
    → mem n (x ∷ xs) ≡ mem n (x ∷ ys)
    → mem n xs ≡ mem n ys
tails_meet x n xs ys a b same = elim (Bool-cases (n == x)) [
  | inl e ↦ ground (arith, e, lt-absent x xs a.0, lt-absent x ys b.0)
  | inr e ↦ rw e at same
]

pub Ascending-eq :
    (xs ys : List ℕ) → Ascending xs → Ascending ys → ((n : ℕ) → mem n xs ≡ mem n ys) → xs ≡ ys
Ascending-eq [] [] a b same = refl
Ascending-eq [] (y ∷ ys) a b same = cc (same y, mem-head y ys)
Ascending-eq (x ∷ xs) [] a b same = cc (same x, mem-head x xs)
Ascending-eq (x ∷ xs) (y ∷ ys) a b same =
    let one : y ≡ x =
      omega (arith, heads_meet x y xs ys b (same x), heads_meet y x ys xs a (sym (same y))) in
    let asc : Ascending (x ∷ ys) = rw (← one) b in
    let rest : xs ≡ ys =
      Ascending-eq xs ys a.1 b.1 (λ n. tails_meet x n xs ys a asc (rw one at (same n))) in
    λ i. sym one i ∷ rest i

-- The active nodes of a kind that is a leaf.
pub mem-atomic :
    (h : Heap) (cfg : Configuration) (n : Addr) → mem n (atomic h cfg) ≡ mem n cfg && is_atomic h n
unfolding atomic all_active
mem-atomic h cfg n = rw (mem-keep n (is_atomic h) (by_doc_order h cfg), mem-by_doc_order h n cfg)
