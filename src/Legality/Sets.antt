-- ===== src/Legality/Sets.antt =====
-- Full and empty subtrees of a set of states, as the set grows elsewhere.
use statesman.Base.{◌≡◌, refl, sym, ◌∙◌, ◌<◌, true, false, some, List, ◌⊎◌, inl, inr, mem, length}
use statesman.Definition.{Addr, Heap, StateKind, node}
use statesman.Definition.Ancestors.{IsTree, Below, child, Below-inside}
use statesman.Legality.{Within, IsChild, LocalAs, IsFull}
use statesman.Legality.Subtrees.{Below-parent, Within-up, Below-top}

-- Nothing of the subtree is in the set.
abbrev pub IsClear : Heap → Addr → List Addr → Type 0
IsClear h a e = (n : Addr) → Within h a n → mem n e ≡ false

-- Two sets agree on the subtree.
abbrev pub Agree : Heap → Addr → List Addr → List Addr → Type 0
Agree h a e e' = (n : Addr) → Within h a n → mem n e' ≡ mem n e

-- A subtree is full or empty.
abbrev pub IsSettled : Heap → Addr → List Addr → Type 0
IsSettled h a e = IsFull h a e ⊎ IsClear h a e

module _ (h : Heap) (tree : IsTree h) where
  Within-inside : (a n : Addr) → a < length h → Within h a n → n < length h
  Within-inside a n l (inl same) = rw same l
  Within-inside a n l (inr b) = Below-inside h b

  Within-child : (a n c : Addr) → a < length h → Within h a n → IsChild h n c → Within h a c
  Within-child a n c l w m = inr (Within-up h (tree.child_parent n c (Within-inside a n l w) m) w)

  -- What the children of a state are asked for depends on them alone.
  pub LocalAs-children :
      (n : Addr) (e e' : List Addr) (k : StateKind)
      → ((c : Addr) → IsChild h n c → mem c e' ≡ mem c e)
      → LocalAs h k n e
      → LocalAs h k n e'
  LocalAs-children n e e' StateKind.compound agree one = record {
    chosen = one.chosen;
    is_child = one.is_child;
    present = agree one.chosen one.is_child ∙ one.present;
    only = λ c m p. one.only c m (sym (agree c m) ∙ p);
  }
  LocalAs-children n e e' StateKind.parallel agree all = λ c m. agree c m ∙ all c m
  LocalAs-children n e e' StateKind.atomic agree all = tt
  LocalAs-children n e e' StateKind.final agree all = tt
  LocalAs-children n e e' StateKind.history agree all = tt

  pub IsFull-Agree :
      (a : Addr) (e e' : List Addr) → a < length h → Agree h a e e' → IsFull h a e → IsFull h a e'
  IsFull-Agree a e e' l agree full = record {
    here = agree a (inl refl) ∙ full.here;
    local = λ n w m.
        LocalAs-children n e e' (node h n).kind (λ c i. agree c (Within-child a n c l w i))
          (full.local n w (sym (agree n w) ∙ m));
    closed = λ n p b f m.
        agree p (Below-parent h p b f) ∙ full.closed n p b f (sym (agree n (inr b)) ∙ m);
  }

  pub IsClear-Agree :
      (a : Addr) (e e' : List Addr) → Agree h a e e' → IsClear h a e → IsClear h a e'
  IsClear-Agree a e e' agree clear = λ n w. agree n w ∙ clear n w

  pub IsSettled-Agree :
      (a : Addr) (e e' : List Addr)
      → a < length h
      → Agree h a e e'
      → IsSettled h a e
      → IsSettled h a e'
  IsSettled-Agree a e e' l agree (inl full) = inl (IsFull-Agree a e e' l agree full)
  IsSettled-Agree a e e' l agree (inr clear) = inr (IsClear-Agree a e e' agree clear)

  -- A member of a settled subtree lies in a full one.
  settled_full :
      (a n : Addr) (e : List Addr) → Within h a n → mem n e ≡ true → IsSettled h a e → IsFull h a e
  settled_full a n e w m (inl full) = full
  settled_full a n e w m (inr clear) = cc (clear n w)

  -- The subtree of a state in the set is full where those of its children are settled, and the kind
  -- of the state is served.
  pub IsFull-node :
      (a : Addr) (e : List Addr)
      → a < length h
      → mem a e ≡ true
      → LocalAs h (node h a).kind a e
      → ((c : Addr) → IsChild h a c → IsSettled h c e)
      → IsFull h a e
  IsFull-node a e l m served settled = record {
    here = m;
    local = λ n w p. local_at n w p;
    closed = λ n p b f q. closed_at n p b f q;
  }
    where
      below_full :
          (n : Addr)
          → Below h n a
          → mem n e ≡ true
          → (c : Addr) × ((node h c).parent ≡ some a) × Within h c n × IsFull h c e
      below_full n b p =
          let (c, f, w) = Below-top h b in
          let inside = Within-inside a c l (inr (child f)) in
          (c, f, w, settled_full c n e w p (settled c (tree.parent_child c a inside f)))

      local_at : (n : Addr) → Within h a n → mem n e ≡ true → LocalAs h (node h n).kind n e
      local_at n (inl same) p = rw same served
      local_at n (inr b) p = (let (c, f, w, full) = below_full n b p in full.local n w p)

      closed_from :
          (n p c : Addr)
          → (node h n).parent ≡ some p
          → mem n e ≡ true
          → (node h c).parent ≡ some a
          → Within h c n
          → IsFull h c e
          → mem p e ≡ true
      closed_from n p c f q g (inl same) full = (let one : p ≡ a = cc in rw one m)
      closed_from n p c f q g (inr b) full = full.closed n p b f q

      closed_at :
          (n p : Addr) → Below h n a → (node h n).parent ≡ some p → mem n e ≡ true → mem p e ≡ true
      closed_at n p b f q =
          (let (c, g, w, full) = below_full n b q in closed_from n p c f q g w full)
