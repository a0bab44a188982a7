-- ===== src/Definition/Ancestors.antt =====
-- The two climbs of definition.go, `ProperAncestors` and `IsDescendant`, on a tree: they agree,
-- they decide the ancestor relation, and the fuel they are given is enough.
use statesman.Base.{
  Bool-cases, ltb, ltb_iff, ◌≤◌, ℕ, zero, suc, ◌<◌, ◌≡◌, refl, ap, true, Option, none, some, List,
  [], ◌∷◌, ◌++◌, ◌==◌, ◌||◌, mem, length, arith, ◌⊎◌, inl, inr, Option-cases, ==_iff, ||_iff,
}
use statesman.Definition.{Addr, Heap, node, climb, proper_ancestors, climbs_to, is_descendant}

-- The heap holds a tree laid out parents first, as the builder lays it out: `DocOrder` is the
-- pre-order index, and the address.
pub record IsTree (h : Heap) : Type 0 where
  pub parent_lt : (n p : Addr) → n < length h → (node h n).parent ≡ some p → p < n
  pub doc_order_eq : (n : Addr) → n < length h → (node h n).doc_order ≡ n
  pub child_lt : (n c : Addr) → n < length h → mem c (node h n).children ≡ true → c < length h
  pub child_parent :
      (n c : Addr) → n < length h → mem c (node h n).children ≡ true → (node h c).parent ≡ some n
  pub parent_child :
      (n p : Addr) → n < length h → (node h n).parent ≡ some p → mem n (node h p).children ≡ true
  pub root_only : (n : Addr) → n < length h → (node h n).parent ≡ none → n ≡ 0

-- `IsDescendant` is membership in `ProperAncestors`.
pub climbs_to-mem :
    (h : Heap) (fuel : ℕ) (p : Option Addr) (a : Addr)
    → climbs_to h fuel p a ≡ mem a (climb h fuel p)
unfolding climbs_to climb
climbs_to-mem h zero p a = refl
climbs_to-mem h (suc fuel) none a = refl
climbs_to-mem h (suc fuel) (some p) a =
    ap (◌||◌ (a == p)) (climbs_to-mem h fuel (node h p).parent a)

pub is_descendant-mem :
    (h : Heap) (n a : Addr) → is_descendant h n (some a) ≡ mem a (proper_ancestors h n)
unfolding is_descendant proper_ancestors
is_descendant-mem h n a = climbs_to-mem h (length h) (node h n).parent a

-- The proper ancestors, as a relation.
pub data Below (h : Heap) : Addr → Addr → Type 0 where
  child : {n p : Addr} → (node h n).parent ≡ some p → Below h n p
  up : {n p a : Addr} → (node h n).parent ≡ some p → Below h p a → Below h n a

pub Below-trans : (h : Heap) {n a b : Addr} → Below h n a → Below h a b → Below h n b
Below-trans h (child e) c = up e c
Below-trans h (up e b) c = up e (Below-trans h b c)

climb-none : (h : Heap) (f : ℕ) → climb h f none ≡ []
unfolding climb
climb-none h zero = refl
climb-none h (suc f) = refl

module _ (h : Heap) (tree : IsTree h) where
  -- Fuel beyond the address of the first node climbed to changes nothing.
  pub climb_enough :
      (f g : ℕ) (p : Addr) → p < length h → p < f → p < g → climb h f (some p) ≡ climb h g (some p)
  unfolding climb
  climb_enough zero g p l i j = absurd (omega arith)
  climb_enough (suc f) zero p l i j = absurd (omega arith)
  climb_enough (suc f) (suc g) p l i j = elim (Option-cases (node h p).parent) [
    | inl e ↦ ap (◌∷◌ p) (rw (e, climb-none h f, climb-none h g))
    | inr (q, e) ↦
        let below = tree.parent_lt p q l e in
        ap (◌∷◌ p) (rw e (climb_enough f g q (omega arith) (omega arith) (omega arith)))
  ]

  -- The chain of a node is its parent and the parent's chain.
  pub proper_ancestors-parent :
      (n p : Addr)
      → n < length h
      → (node h n).parent ≡ some p
      → proper_ancestors h n ≡ p ∷ proper_ancestors h p
  unfolding proper_ancestors climb
  proper_ancestors-parent n p l e =
      let below = tree.parent_lt n p l e in
      rw e (climb_enough (length h) (suc (length h)) p (omega arith) (omega arith) (omega arith))

  pub proper_ancestors-root : (n : Addr) → (node h n).parent ≡ none → proper_ancestors h n ≡ []
  unfolding proper_ancestors
  proper_ancestors-root n e = rw e (climb-none h (length h))

  induction_to {ℓ} :
      (P : Addr → Type ℓ)
      → ((n : Addr) → n < length h → (node h n).parent ≡ none → P n)
      → ((n p : Addr) → n < length h → (node h n).parent ≡ some p → P p → P n)
      → (f : ℕ) (n : Addr) → n < f
      → n < length h
      → P n
  induction_to P at_root at_child zero n i l = absurd (omega arith)
  induction_to P at_root at_child (suc f) n i l = elim (Option-cases (node h n).parent) [
    | inl e ↦ at_root n l e
    | inr (p, e) ↦
        let below = tree.parent_lt n p l e in
        at_child n p l e (induction_to P at_root at_child f p (omega arith) (omega arith))
  ]

  -- Induction down the tree: what holds of the root and passes from a parent to its children.
  pub tree_induction {ℓ} :
      (P : Addr → Type ℓ)
      → ((n : Addr) → n < length h → (node h n).parent ≡ none → P n)
      → ((n p : Addr) → n < length h → (node h n).parent ≡ some p → P p → P n)
      → (n : Addr) → n < length h
      → P n
  tree_induction P at_root at_child n l = induction_to P at_root at_child (suc n) n (omega arith) l

  -- A proper ancestor stands before the node in the heap, and is related to it.
  pub mem-proper_ancestors :
      (a n : Addr) → n < length h → mem a (proper_ancestors h n) ≡ true → Below h n a × (a < n)
  mem-proper_ancestors a =
      tree_induction (λ n. mem a (proper_ancestors h n) ≡ true → Below h n a × (a < n))
        (λ n l e m. cc (rw (proper_ancestors-root n e) at m))
        (λ n p l e ih m.
          step n p l e ih ((||_iff _ _).0 (rw (proper_ancestors-parent n p l e) at m)))
    where
      step :
          (n p : Addr)
          → n < length h
          → (node h n).parent ≡ some p
          → (mem a (proper_ancestors h p) ≡ true → Below h p a × (a < p))
          → ((a == p) ≡ true) ⊎ (mem a (proper_ancestors h p) ≡ true)
          → Below h n a × (a < n)
      step n p l e ih (inl here) = rw ((==_iff a p).0 here) (child e, tree.parent_lt n p l e)
      step n p l e ih (inr above) =
          let (below, lt) = ih above in
          let lt' = tree.parent_lt n p l e in (up e below, omega arith)

  pub Below-mem : {n a : Addr} → Below h n a → n < length h → mem a (proper_ancestors h n) ≡ true
  Below-mem (child {n} {p} e) l = rw (proper_ancestors-parent n p l e) (ground arith)
  Below-mem (up {n} {p} {a} e b) l =
      let lt = tree.parent_lt n p l e in
      let rest = Below-mem b (omega arith) in rw (proper_ancestors-parent n p l e) (ground arith)

  -- What follows an ancestor in the chain is the ancestor's own chain.
  pub proper_ancestors_split :
      (a : Addr) (after : List Addr) (n : Addr)
      → n < length h
      → (before : List Addr) → proper_ancestors h n ≡ before ++ (a ∷ after)
      → after ≡ proper_ancestors h a
  proper_ancestors_split a after =
      tree_induction
        (λ n.
          (before : List Addr)
          → proper_ancestors h n ≡ before ++ (a ∷ after)
          → after ≡ proper_ancestors h a)
        (λ n l e before split. absurd (at_root before (rw (proper_ancestors-root n e) at split)))
        (λ n p l e ih before split.
          step p ih before (rw (proper_ancestors-parent n p l e) at split))
    where
      at_root : (before : List Addr) → [] ≡ before ++ (a ∷ after) → ⊥
      at_root [] s = cc
      at_root (b ∷ bs) s = cc

      step :
          (p : Addr)
          → ((before : List Addr)
              → proper_ancestors h p ≡ before ++ (a ∷ after)
              → after ≡ proper_ancestors h a)
          → (before : List Addr) → p ∷ proper_ancestors h p ≡ before ++ (a ∷ after)
          → after ≡ proper_ancestors h a
      step p ih [] s = let same : p ≡ a = cc in rw (← same) (cc)
      step p ih (b ∷ bs) s = ih bs (cc)

  -- The root is an ancestor of every other node.
  pub root-mem : (n : Addr) → n < length h → 0 < n → mem 0 (proper_ancestors h n) ≡ true
  root-mem =
      tree_induction (λ n. 0 < n → mem 0 (proper_ancestors h n) ≡ true)
        (λ n l e pos. absurd (omega (arith, tree.root_only n l e)))
        (λ n p l e ih pos. rw (proper_ancestors-parent n p l e) (ground (arith, ih)))

  pub Below-lt : {n a : Addr} → n < length h → Below h n a → a < n
  Below-lt {n} l (child {p = p} e) = tree.parent_lt n p l e
  Below-lt {n} l (up {p = p} e b) =
      let p_lt = tree.parent_lt n p l e in let a_lt = Below-lt (omega arith) b in omega arith

node_outside : (h : Heap) (n : Addr) → length h ≤ n → (node h n).parent ≡ none
unfolding node
node_outside [] n l = refl
node_outside (v ∷ h) zero l = absurd (omega arith)
node_outside (v ∷ h) (suc n) l = node_outside h n (omega arith)

-- What has a parent is in the heap.
pub parent_inside : (h : Heap) (n p : Addr) → (node h n).parent ≡ some p → n < length h
parent_inside h n p e = elim (Bool-cases (ltb n (length h))) [
  | inl inside ↦ (ltb_iff n (length h)).0 inside
  | inr outside ↦ cc (node_outside h n (ground arith), e)
]

pub Below-inside : (h : Heap) {n a : Addr} → Below h n a → n < length h
Below-inside h {n} (child {p = p} e) = parent_inside h n p e
Below-inside h {n} (up {p = p} e b) = parent_inside h n p e
