-- ===== src/Legality/Descend.antt =====
-- Down the tree: `addDescendantStatesToEnter` makes an empty subtree full, and changes nothing else.
use statesman.Base.{
  ◌≡◌, ◌≢◌, refl, sym, ◌∙◌, ℕ, zero, suc, ◌<◌, true, false, some, List, inl, inr, mem, insert,
  length, arith, Bool-cases, ==_iff, ◌==◌, >>=-eq-some, mem-insert,
}
use statesman.Definition.{Addr, Heap, StateKind, node}
use statesman.Definition.Ancestors.{IsTree, Below, proper_ancestors-parent, parent_inside}
use statesman.Entry.{
  History, EntrySet, Descend, enter, mark_default, add_regions, add_initial, add_ancestors,
  add_ancestor_states_to_enter, descend_kind, add_descendant_states_to_enter,
}
use statesman.Legality.{IsChild, LocalAs, IsFull, IsPlain}
use statesman.Legality.Subtrees.{Below-of_child, siblings_apart, not-Within_parent, Within-lt}
use statesman.Legality.Sets.{IsClear, IsFull-node}
use statesman.Legality.Regions.{SameOutside, Descends, regions-Served}

pub mem-insert_self : (a : Addr) (e : List Addr) → mem a (insert a e) ≡ true
mem-insert_self a e = rw (mem-insert a a e) (ground arith)

pub mem-insert_other : (n a : Addr) (e : List Addr) → n ≢ a → mem n (insert a e) ≡ mem n e
mem-insert_other n a e ne = rw (mem-insert n a e) (ground arith)

module _ (h : Heap) (tree : IsTree h) where
  -- The climb from a child to its parent adds nothing.
  pub ancestors_stop :
      (descend : Descend) (c s : Addr) (e : EntrySet)
      → (node h c).parent ≡ some s
      → add_ancestor_states_to_enter h descend c (some s) e ≡ some e
  unfolding add_ancestor_states_to_enter
  ancestors_stop descend c s e f =
      rw (proper_ancestors-parent h tree c s (parent_inside h c s f) f)
        (let hit : (s == s) ≡ true = (==_iff s s).1 refl in rw (hit, add_ancestors) refl)

  -- The default entry of a compound state is that of its default child.
  only_child :
      (descend : Descend) (s c : Addr) (e e' : EntrySet)
      → (node h c).parent ≡ some s
      → add_initial h descend s (some c) (mark_default s (enter s e)) ≡ some e'
      → descend c (mark_default s (enter s e)) ≡ some e'
  unfolding add_initial
  only_child descend s c e e' f eq =
      let (e₁, first, later) = >>=-eq-some (descend c (mark_default s (enter s e))) _ eq in
      first ∙ sym (ancestors_stop descend c s e₁ f) ∙ later

  -- Entered alone, a state leaves the subtrees of its children empty.
  children-IsClear :
      (s : Addr) (e : List Addr)
      → s < length h
      → IsClear h s e
      → (c : Addr) → IsChild h s c
      → IsClear h c (insert s e)
  children-IsClear s e l clear c m n w =
      let f = tree.child_parent s c l m in
      let b = Below-of_child h f w in
      let ne : n ≢ s = λ same. not-Within_parent h tree f (rw (← same) w) in
      mem-insert_other n s e ne ∙ clear n (inr b)

module _ (h : Heap) (plain : IsPlain h) where
  -- A leaf has no children to serve.
  leaf_full :
      (s : Addr) (e : EntrySet) (k : StateKind)
      → (node h s).kind ≡ k
      → k ≢ StateKind.compound
      → k ≢ StateKind.parallel
      → s < length h
      → LocalAs h (node h s).kind s (enter s e).to_enter
      → IsFull h s (enter s e).to_enter × SameOutside h s e.to_enter (enter s e).to_enter
  leaf_full s e k is not_compound not_parallel l served = (
    IsFull-node h plain.tree s (insert s e.to_enter) l (mem-insert_self s e.to_enter) served (λ c m.
        elim (plain.holder s c l m) [
          | inl compound ↦ absurd (not_compound (sym is ∙ compound))
          | inr parallel ↦ absurd (not_parallel (sym is ∙ parallel))
        ]),
    λ n w. mem-insert_other n s e.to_enter (λ same. w (inl same)),
  )

  parallel_full :
      (descend : Descend)
      → Descends h descend
      → (s : Addr) (e e' : EntrySet) → (node h s).kind ≡ StateKind.parallel
      → s < length h
      → IsClear h s e.to_enter
      → add_regions h descend (node h s).children (enter s e) ≡ some e'
      → IsFull h s e'.to_enter × SameOutside h s e.to_enter e'.to_enter
  parallel_full descend spec s e e' is l clear eq =
      let served =
        regions-Served h plain.tree s l descend spec (node h s).children (enter s e) e' (λ c m. m)
          (λ c m. inr (children-IsClear h plain.tree s e.to_enter l clear c m)) eq in
      (
        IsFull-node h plain.tree s e'.to_enter l
            (served.same s (λ b. not_self b) ∙ mem-insert_self s e.to_enter)
            (rw is (λ c m. (served.full c m).here)) (λ c m. inl (served.full c m)),
        λ n w.
            served.same n (λ b. w (inr b)) ∙ mem-insert_other n s e.to_enter (λ same. w (inl same)),
      )
    where
      not_self : Below h s s → ⊥
      not_self b = (let lt = Within-lt h plain.tree b in omega arith)

  compound_full :
      (descend : Descend)
      → Descends h descend
      → (s c : Addr) (e e' : EntrySet) → (node h s).kind ≡ StateKind.compound
      → IsChild h s c
      → s < length h
      → IsClear h s e.to_enter
      → descend c (mark_default s (enter s e)) ≡ some e'
      → IsFull h s e'.to_enter × SameOutside h s e.to_enter e'.to_enter
  compound_full descend spec s c e e' is m l clear eq =
      let c_in = plain.tree.child_lt s c l m in
      let up_c = plain.tree.child_parent s c l m in
      let clear_at = children-IsClear h plain.tree s e.to_enter l clear in
      let (full, same) = spec c (mark_default s (enter s e)) e' c_in (clear_at c m) eq in
      let others : (d : Addr) → IsChild h s d → d ≢ c → IsClear h d e'.to_enter = λ d m' ne n w.
        same n (λ v. siblings_apart h plain.tree (plain.tree.child_parent s d l m') up_c ne w v)
        ∙ clear_at d m' n w in
      (
        IsFull-node h plain.tree s e'.to_enter l
            (same s (λ w. not-Within_parent h plain.tree up_c w) ∙ mem-insert_self s e.to_enter)
            (rw is (record {
              chosen = c;
              is_child = m;
              present = full.here;
              only = λ d m' p. elim (Bool-cases (d == c)) [
                | inl one ↦ (==_iff d c).0 one
                | inr other ↦ cc (others d m' (λ f. (let x = f in ne_of d c other x)) d (inl refl))
              ];
            }))
            (λ d m'. elim (Bool-cases (d == c)) [
              | inl one ↦ inl (rw ((==_iff d c).0 one) full)
              | inr other ↦ inr (others d m' (λ f. ne_of d c other f))
            ]),
        λ n w.
            same n (λ v. w (inr (Below-of_child h up_c v)))
            ∙ mem-insert_other n s e.to_enter (λ f. w (inl f)),
      )
    where
      ne_of : (d c' : Addr) → (d == c') ≡ false → d ≡ c' → ⊥
      ne_of d c' other f = ground arith

  kind_full :
      (hist : History) (descend : Descend)
      → Descends h descend
      → (k : StateKind) (s : Addr) (e e' : EntrySet) → (node h s).kind ≡ k
      → s < length h
      → IsClear h s e.to_enter
      → descend_kind h hist descend k s e ≡ some e'
      → IsFull h s e'.to_enter × SameOutside h s e.to_enter e'.to_enter
  unfolding descend_kind
  kind_full hist descend spec StateKind.history s e e' is l clear eq =
      absurd (plain.no_history s l is)
  kind_full hist descend spec StateKind.atomic s e e' is l clear eq =
      let one : enter s e ≡ e' = cc in
      rw (← one) (leaf_full s e StateKind.atomic is (λ f. cc) (λ f. cc) l (rw is tt))
  kind_full hist descend spec StateKind.final s e e' is l clear eq =
      let one : enter s e ≡ e' = cc in
      rw (← one) (leaf_full s e StateKind.final is (λ f. cc) (λ f. cc) l (rw is tt))
  kind_full hist descend spec StateKind.parallel s e e' is l clear eq =
      parallel_full descend spec s e e' is l clear eq
  kind_full hist descend spec StateKind.compound s e e' is l clear eq =
      let (c, default, m) = plain.default s l is in
      compound_full descend spec s c e e' is m l clear (
        only_child h plain.tree descend s c e e' (plain.tree.child_parent s c l m)
          (rw (default, descend_kind) at eq))

  pub add_descendants-Descends :
      (hist : History) (fuel : ℕ) → Descends h (add_descendant_states_to_enter h hist fuel)
  unfolding add_descendant_states_to_enter
  add_descendants-Descends hist zero s e e' l clear eq = cc
  add_descendants-Descends hist (suc fuel) s e e' l clear eq =
      kind_full hist (add_descendant_states_to_enter h hist fuel)
        (add_descendants-Descends hist fuel) (node h s).kind s e e' refl l clear eq
