-- ===== src/Legality/Climb.antt =====
-- Up the tree: `addAncestorStatesToEnter` takes a full subtree up to a domain, below which nothing
-- else is in the set, and leaves one child of the domain full.
use statesman.Base.{
  ◌≡◌, ◌≢◌, refl, sym, ◌∙◌, ◌<◌, true, false, some, List, ◌∷◌, inl, inr, mem, insert, length, arith,
  Bool-cases, ==_iff, ◌==◌, ◌>>=◌, >>=-eq-some, if◌then◌else◌,
}
use statesman.Definition.{Addr, Heap, StateKind, node, proper_ancestors}
use statesman.Definition.Ancestors.{
  Below, Below-trans, child, up, proper_ancestors-parent, parent_inside,
}
use statesman.Entry.{EntrySet, Descend, enter, is_parallel, same, add_regions, add_ancestors}
use statesman.Legality.{Within, IsChild, IsFull, IsPlain}
use statesman.Legality.Subtrees.{
  Below-of_child, siblings_apart, not-Within_parent, Within-lt, parent-IsChild,
}
use statesman.Legality.Sets.{IsClear, IsSettled, IsFull-Agree, IsFull-node}
use statesman.Legality.Regions.{SameOutside, SameAbove, Descends, regions-Served}
use statesman.Legality.Descend.{mem-insert_self, mem-insert_other}

-- Below `d` the set holds the subtree of one child, full, and nothing else.
pub record IsFilled (h : Heap) (d : Addr) (e : List Addr) : Type 0 where
  pub via : Addr
  pub via_parent : (node h via).parent ≡ some d
  pub full : IsFull h via e
  pub rest_clear : (n : Addr) → Below h n d → (Within h via n → ⊥) → mem n e ≡ false

-- Apart from the subtree of `y`, nothing below `d` is in the set.
abbrev pub OnlyVia : Heap → Addr → Addr → List Addr → Type 0
OnlyVia h y d e = (n : Addr) → Below h n d → (Within h y n → ⊥) → mem n e ≡ false

module _ (h : Heap) (plain : IsPlain h) where
  -- With `p` entered above the full subtree of `y`, the other children of `p` are empty.
  module _ (y p : Addr) (e : EntrySet) (f : (node h y).parent ≡ some p)
      (full : IsFull h y e.to_enter) (only : OnlyVia h y p e.to_enter) where
    p_inside : p < length h
    p_inside =
        let y_in = parent_inside h y p f in let lt = plain.tree.parent_lt y p y_in f in omega arith

    entered-IsClear :
        (c : Addr) → IsChild h p c → (c == y) ≡ false → IsClear h c (insert p e.to_enter)
    entered-IsClear c m other n w =
        let g = plain.tree.child_parent p c p_inside m in
        mem-insert_other n p e.to_enter (λ x. not-Within_parent h plain.tree g (rw (← x) w))
        ∙ only n (Below-of_child h g w) (λ v. siblings_apart h plain.tree g f ne w v)
      where
        ne : c ≢ y
        ne x = ground arith

    entered-IsSettled : (c : Addr) → IsChild h p c → IsSettled h c (insert p e.to_enter)
    entered-IsSettled c m = elim (Bool-cases (c == y)) [
      | inl one ↦ rw ((==_iff c y).0 one) (
          inl (
            IsFull-Agree h plain.tree y e.to_enter (insert p e.to_enter) (parent_inside h y p f)
              (λ n w.
                mem-insert_other n p e.to_enter
                  (λ g. not-Within_parent h plain.tree f (rw (← g) w)))
              full))
      | inr other ↦ inr (entered-IsClear c m other)
    ]

    entered_other : (n : Addr) → (Within h p n → ⊥) → mem n (insert p e.to_enter) ≡ mem n e.to_enter
    entered_other n w = mem-insert_other n p e.to_enter (λ g. w (inl g))

    pass_parallel :
        (descend : Descend)
        → Descends h descend
        → (e' : EntrySet) → (node h p).kind ≡ StateKind.parallel
        → add_regions h descend (node h p).children (enter p e) ≡ some e'
        → IsFull h p e'.to_enter × SameOutside h p e.to_enter e'.to_enter
    pass_parallel descend spec e' is eq =
        let served =
          regions-Served h plain.tree p p_inside descend spec (node h p).children (enter p e) e'
            (λ c m. m) entered-IsSettled eq in
        (
          IsFull-node h plain.tree p e'.to_enter p_inside
              (served.same p not_self ∙ mem-insert_self p e.to_enter)
              (rw is (λ c m. (served.full c m).here)) (λ c m. inl (served.full c m)),
          λ n w. served.same n (λ b. w (inr b)) ∙ entered_other n w,
        )
      where
        not_self : Below h p p → ⊥
        not_self b = (let lt = Within-lt h plain.tree b in omega arith)

    pass_compound :
        (node h p).kind ≡ StateKind.compound
        → IsFull h p (insert p e.to_enter) × SameOutside h p e.to_enter (insert p e.to_enter)
    pass_compound is = (
      IsFull-node h plain.tree p (insert p e.to_enter) p_inside (mem-insert_self p e.to_enter)
          (rw is (record {
            chosen = y;
            is_child = parent-IsChild h plain.tree y p f;
            present = mem-insert_other y p e.to_enter not_own ∙ full.here;
            only = λ c m i. elim (Bool-cases (c == y)) [
              | inl one ↦ (==_iff c y).0 one
              | inr other ↦ cc (entered-IsClear c m other c (inl refl))
            ];
          }))
          entered-IsSettled,
      entered_other,
    )
      where
        not_own : y ≢ p
        not_own g = not-Within_parent h plain.tree f (inl (sym g))

    pass_parent :
        (descend : Descend)
        → Descends h descend
        → (e' : EntrySet)
        → (if is_parallel (node h p).kind
            then add_regions h descend (node h p).children (enter p e)
            else some (enter p e))
          ≡ some e'
        → IsFull h p e'.to_enter × SameOutside h p e.to_enter e'.to_enter
    pass_parent descend spec e' eq =
        elim (plain.holder p y p_inside (parent-IsChild h plain.tree y p f)) [
          | inl compound ↦
              let one : enter p e ≡ e' = cc (rw compound at eq) in
              rw (← one) (pass_compound compound)
          | inr parallel ↦ pass_parallel descend spec e' parallel (rw parallel at eq)
        ]

  -- One round of the climb, at an ancestor that is not its end, and its end.
  climb_on :
      (descend : Descend) (p d : Addr) (chain : List Addr) (e : EntrySet)
      → (p == d) ≡ false
      → add_ancestors h descend (p ∷ chain) (some d) e ≡ (
          (if is_parallel (node h p).kind
            then add_regions h descend (node h p).children (enter p e)
            else some (enter p e))
          >>= λ e'. add_ancestors h descend chain (some d) e')
  unfolding add_ancestors
  climb_on descend p d chain e other = rw other

  climb_stop :
      (descend : Descend) (d : Addr) (chain : List Addr) (e : EntrySet)
      → add_ancestors h descend (d ∷ chain) (some d) e ≡ some e
  unfolding add_ancestors
  climb_stop descend d chain e = (let hit : (d == d) ≡ true = (==_iff d d).1 refl in rw hit)

  -- What the round does for a state outside of the parent.
  onward :
      (y p d : Addr) (e e₁ : List Addr)
      → (node h y).parent ≡ some p
      → Below h p d
      → OnlyVia h y d e
      → SameOutside h p e e₁
      → OnlyVia h p d e₁
  onward y p d e e₁ f b only same n below out =
      same n out ∙ only n below (λ w. out (inr (Below-of_child h f w)))

  pub climb-IsFilled :
      (descend : Descend)
      → Descends h descend
      → (y d : Addr) (b : Below h y d) (e e' : EntrySet) → IsFull h y e.to_enter
      → OnlyVia h y d e.to_enter
      → add_ancestors h descend (proper_ancestors h y) (some d) e ≡ some e'
      → IsFilled h d e'.to_enter × SameAbove h d e.to_enter e'.to_enter
  climb-IsFilled descend spec y d (child f) e e' full only eq =
      let chain = proper_ancestors-parent h plain.tree y d (parent_inside h y d f) f in
      let one : e ≡ e' = cc (climb_stop descend d (proper_ancestors h d) e, rw chain at eq) in
      rw (← one) (record { via = y; via_parent = f; full = full; rest_clear = only }, λ n w. refl)
  climb-IsFilled descend spec y d (up {p = p} f b) e e' full only eq =
      let chain = proper_ancestors-parent h plain.tree y p (parent_inside h y p f) f in
      let (e₁, first, later) =
        >>=-eq-some _ _
          (sym (climb_on descend p d (proper_ancestors h p) e other) ∙ (rw chain at eq)) in
      let (full₁, same) = pass_parent y p e f full only_p descend spec e₁ first in
      let (filled, above) =
        climb-IsFilled descend spec p d b e₁ e' full₁
          (onward y p d e.to_enter e₁.to_enter f b only same) later in
      (filled, λ n w. above n w ∙ same n (λ v. w (Within-below v)))
    where
      other : (p == d) ≡ false
      other = (let lt = Within-lt h plain.tree b in ground arith)

      only_p : OnlyVia h y p e.to_enter
      only_p n below out = only n (Below-trans h below b) out

      Within-below : {n : Addr} → Within h p n → Below h n d
      Within-below (inl same) = rw same b
      Within-below (inr below) = Below-trans h below b
