-- ===== src/Legality/Subtrees.antt =====
-- Subtrees of a chart, and what it means for a set of states to agree on one.
use statesman.Base.{
  ◌≡◌, ◌≢◌, refl, ap, sym, ◌∙◌, ◌<◌, false, some, ◌⊎◌, inl, inr, length, arith, Bool-cases, ==_iff,
  ◌==◌,
}
use statesman.Definition.{Addr, Heap, node, is_descendant}
use statesman.Definition.Ancestors.{
  IsTree, Below, child, up, Below-lt, Below-inside, Below-trans, parent_inside, root-mem,
  mem-proper_ancestors,
}
use statesman.Domain.Lcca.{is_descendant_iff}
use statesman.Legality.{Within, IsChild}

module _ (h : Heap) where
  -- One step up from a state below `a`.
  pub Below-parent :
      {n a : Addr} (p : Addr) → Below h n a → (node h n).parent ≡ some p → Within h a p
  Below-parent p (child e) f = inl cc
  Below-parent {a = a} p (up {p = q} e b) f = (let same : q ≡ p = cc in inr (rw (← same) b))

  pub Within-up : {n p a : Addr} → (node h n).parent ≡ some p → Within h a p → Below h n a
  Within-up e (inl same) = child (e ∙ ap (λ x. some x) same)
  Within-up e (inr b) = up e b

  pub Within-trans : {n a b : Addr} → Within h a n → Within h b a → Within h b n
  Within-trans (inl same) w = rw same w
  Within-trans (inr below) (inl same) = inr (rw (← same) below)
  Within-trans (inr below) (inr above) = inr (Below-trans h below above)

  pub Below-of_child : {n c p : Addr} → (node h c).parent ≡ some p → Within h c n → Below h n p
  Below-of_child e (inl same) = rw same (child e)
  Below-of_child e (inr b) = Below-trans h b (child e)

  -- The child of `a` on the way to a state below it.
  pub Below-top :
      {n a : Addr} → Below h n a → (c : Addr) × ((node h c).parent ≡ some a) × Within h c n
  Below-top {n} (child e) = (n, e, inl refl)
  Below-top (up e b) = (let (c, f, w) = Below-top b in (c, f, inr (Within-up e w)))

  -- The ancestors of a state lie on one path.
  pub Below-linear : {n a b : Addr} → Below h n a → Below h n b → Within h a b ⊎ Within h b a
  Below-linear {b = b} (child {p = p} e) g = inr (Below-parent p g e)
  Below-linear {b = b} (up {p = p} e f) g = elim (Below-parent p g e) [
    | inl same ↦ inl (inr (rw (← same) f))
    | inr g' ↦ Below-linear f g'
  ]

  pub Within-linear : {n a b : Addr} → Within h a n → Within h b n → Within h a b ⊎ Within h b a
  Within-linear (inl same) w = inr (rw (← same) w)
  Within-linear (inr f) (inl same) = inl (inr (rw (← same) f))
  Within-linear (inr f) (inr g) = Below-linear f g

module _ (h : Heap) (tree : IsTree h) where
  pub Within-lt : {n a : Addr} → Below h n a → a < n
  Within-lt b = Below-lt h tree (Below-inside h b) b

  -- Every state but the root lies below the root.
  pub Below-root : (n : Addr) → n < length h → 0 < n → Below h n 0
  Below-root n l pos = (mem-proper_ancestors h tree 0 n l (root-mem h tree n l pos)).0

  -- A child does not hold its parent.
  pub not-Within_parent : {c p : Addr} → (node h c).parent ≡ some p → Within h c p → ⊥
  not-Within_parent {c} {p} e (inl same) =
      let lt : p < c = tree.parent_lt c p (parent_inside h c p e) e in omega arith
  not-Within_parent {c} {p} e (inr b) =
      let lt : p < c = tree.parent_lt c p (parent_inside h c p e) e in
      let gt = Within-lt b in omega arith

  -- The subtrees of two children of one state share nothing.
  pub siblings_apart :
      {n c d p : Addr}
      → (node h c).parent ≡ some p
      → (node h d).parent ≡ some p
      → c ≢ d
      → Within h c n
      → Within h d n
      → ⊥
  siblings_apart {n} {c} {d} {p} e f ne v w = elim (Within-linear h v w) [
    | inl (inl same) ↦ ne (sym same)
    | inl (inr b) ↦ not-Within_parent e (Below-parent h p b f)
    | inr (inl same) ↦ ne same
    | inr (inr b) ↦ not-Within_parent f (Below-parent h p b e)
  ]

  pub parent-IsChild : (c p : Addr) → (node h c).parent ≡ some p → IsChild h p c
  parent-IsChild c p e = tree.parent_child c p (parent_inside h c p e) e

  pub Within-cases : (a n : Addr) → n < length h → Within h a n ⊎ (Within h a n → ⊥)
  Within-cases a n l = elim (Bool-cases (n == a)) [
    | inl same ↦ inl (inl ((==_iff n a).0 same))
    | inr other ↦ elim (Bool-cases (is_descendant h n (some a))) [
      | inl below ↦ inl (inr ((is_descendant_iff h tree n a l).0 below))
      | inr not_below ↦ inr (λ w. (let f = w in by_cases other not_below f))
    ]
  ]
    where
      by_cases : (n == a) ≡ false → is_descendant h n (some a) ≡ false → Within h a n → ⊥
      by_cases e f (inl same) = ground (arith)
      by_cases e f (inr b) = cc ((is_descendant_iff h tree n a l).1 b)
