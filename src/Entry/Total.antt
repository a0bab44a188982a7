-- ===== src/Entry/Total.antt =====
-- The recursion of the entry set (transition.go, `addDescendantStatesToEnter`) comes back, where a
-- history node restores nothing but states below its parent.
use statesman.Base.{
  ◌≡◌, ◌≢◌, refl, ℕ, zero, suc, ◌*◌, ◌-◌, ◌<◌, ◌≤◌, true, Option, none, some, List, [], ◌∷◌, ◌⊎◌,
  inl, inr, mem, length, ◌>>=◌, Bool-cases, Option-cases, List-cases, arith, ==_iff, All,
}
use statesman.Definition.{Addr, Heap, StateKind, Transition, node, climb, proper_ancestors}
use statesman.Definition.Ancestors.{Below-lt, IsTree, Below, child, up, proper_ancestors-parent}
use statesman.Domain.{get_transition_domain}
use statesman.Entry.{
  History, EntrySet, Descend, no_entry, has_descendant_in_set, restore, enter, mark_default,
  add_regions, is_parallel, same, add_ancestors, add_ancestor_states_to_enter, add_restored,
  add_initial, descend_kind, add_descendant_states_to_enter, entry_fuel, descend_from, add_targets,
  add_target_ancestors, collect_entries, compute_entry_set,
}

abbrev pub Returns {ℓ} : {A : Type ℓ} → Option A → Type ℓ
Returns {A = A} o = (a : A) × (o ≡ some a)

Returns->>= {ℓ κ} :
    {A : Type ℓ} {B : Type κ} (o : Option A) (f : A → Option B)
    → Returns o
    → ((a : A) → Returns (f a))
    → Returns (o >>= f)
Returns->>= o f (a, e) r = rw (e, ◌>>=◌) (r a)

-- What the builder and the engine give: the default child of a state is a child of it, and a
-- history node restores states below its parent that are no history nodes.
pub record Restorable (h : Heap) (hist : History) : Type 0 where
  pub tree : IsTree h
  pub initial_child :
      (n c : Addr) → n < length h → (node h n).initial ≡ some c → mem c (node h n).children ≡ true
  pub restored :
      (n s : Addr)
      → n < length h
      → (node h n).kind ≡ StateKind.history
      → mem s (restore h hist n) ≡ true
      → (p : Addr) × ((node h n).parent ≡ some p)
        × (s < length h)
        × ((node h s).kind ≢ StateKind.history)
        × Below h s p

-- A call goes down in the tree, or up from a history node to what lies below its parent.
abbrev or_zero : Option Addr → Addr
or_zero none = 0
or_zero (some p) = p

abbrev rank_as : Heap → StateKind → Addr → ℕ
rank_as h StateKind.history n = 2 * (length h - or_zero (node h n).parent) - 1
rank_as h _ n = 2 * (length h - n)

abbrev rank : Heap → Addr → ℕ
rank h n = rank_as h (node h n).kind n

module _ (h : Heap) (tree : IsTree h) where
  rank_child :
      (n c : Addr)
      → n < length h
      → mem c (node h n).children ≡ true
      → (c < length h) × (n < c) × (rank h c < 2 * (length h - n))
  rank_child n c l m =
      let c_lt = tree.child_lt n c l m in
      let e = tree.child_parent n c l m in
      let n_lt = tree.parent_lt c n c_lt e in (c_lt, n_lt, by_kind (node h c).kind c_lt e n_lt)
    where
      by_kind :
          (k : StateKind)
          → c < length h
          → (node h c).parent ≡ some n
          → n < c
          → rank_as h k c < 2 * (length h - n)
      by_kind StateKind.history c_lt e n_lt = rw e (omega arith)
      by_kind StateKind.atomic c_lt e n_lt = omega arith
      by_kind StateKind.compound c_lt e n_lt = omega arith
      by_kind StateKind.parallel c_lt e n_lt = omega arith
      by_kind StateKind.final c_lt e n_lt = omega arith

  rank_plain :
      (n : Addr) (k : StateKind) → k ≢ StateKind.history → rank_as h k n ≡ 2 * (length h - n)
  rank_plain n StateKind.history plain = absurd (plain refl)
  rank_plain n StateKind.atomic plain = refl
  rank_plain n StateKind.compound plain = refl
  rank_plain n StateKind.parallel plain = refl
  rank_plain n StateKind.final plain = refl

  rank_le : (n : Addr) (k : StateKind) → rank_as h k n ≤ 2 * length h
  rank_le n StateKind.history = omega arith
  rank_le n StateKind.atomic = omega arith
  rank_le n StateKind.compound = omega arith
  rank_le n StateKind.parallel = omega arith
  rank_le n StateKind.final = omega arith

  -- The calls on states of a lower rank return.
  abbrev Good : Descend → ℕ → Type 0
  Good descend r = (c : Addr) (e : EntrySet) → c < length h → rank h c < r → Returns (descend c e)

  module _ (descend : Descend) (r : ℕ) (good : Good descend r) where
    abbrev Callable : Addr → Type 0
    Callable c = (c < length h) × (rank h c < r)

    add_regions-Returns :
        (cs : List Addr) (e : EntrySet)
        → ((c : Addr) → mem c cs ≡ true → Callable c)
        → Returns (add_regions h descend cs e)
    unfolding add_regions
    add_regions-Returns [] e callable = (e, refl)
    add_regions-Returns (c ∷ cs) e callable =
        let later : (d : Addr) → mem d cs ≡ true → Callable d = λ d m. callable d (ground arith) in
        Returns->>= _ _
          (elim (Bool-cases (has_descendant_in_set h (length h) c e.to_enter)) [
            | inl entered ↦ rw entered (e, refl)
            | inr free ↦ let (lt, low) = callable c (ground arith) in rw free (good c e lt low)
          ])
          (λ e'. add_regions-Returns cs e' later)

    -- The climb stops at `ancestor`, or the regions of what it passes may be called.
    abbrev Covered : Option Addr → List Addr → Type 0
    Covered ancestor [] = Unit
    Covered ancestor (a ∷ chain) =
        (same a ancestor ≡ true)
        ⊎ (((c : Addr) → mem c (node h a).children ≡ true → Callable c) × Covered ancestor chain)

    add_ancestors-Returns :
        (chain : List Addr) (ancestor : Option Addr) (e : EntrySet)
        → Covered ancestor chain
        → Returns (add_ancestors h descend chain ancestor e)
    unfolding add_ancestors
    add_ancestors-Returns [] ancestor e covered = (e, refl)
    add_ancestors-Returns (a ∷ chain) ancestor e (inl stop) = rw (stop, add_ancestors) (e, refl)
    add_ancestors-Returns (a ∷ chain) ancestor e (inr (callable, covered)) =
        elim (Bool-cases (same a ancestor)) [
          | inl stop ↦ rw (stop, add_ancestors) (e, refl)
          | inr on ↦
              rw (on, add_ancestors)
                (Returns->>= _ _
                  (elim (Bool-cases (is_parallel (node h a).kind)) [
                    | inl par ↦
                        rw par (add_regions-Returns (node h a).children (enter a e) callable)
                    | inr other ↦ rw other (enter a e, refl)
                  ])
                  (λ e'. add_ancestors-Returns chain ancestor e' covered))
        ]

    -- From a state below `p` the climb comes to `p`, and what it passes lies below `p`.
    Covered-Below :
        (s p : Addr)
        → s < length h
        → Below h s p
        → 2 * (length h - p) ≤ suc r
        → Covered (some p) (proper_ancestors h s)
    Covered-Below s p l (child e) room =
        rw (proper_ancestors-parent h tree s p l e) (inl ((==_iff p p).1 refl))
    Covered-Below s p l (up {p = q} e b) room =
        let q_lt = tree.parent_lt s q l e in
        let q_in : q < length h = omega arith in
        let p_lt = Below-lt h tree q_in b in
        rw (proper_ancestors-parent h tree s q l e) (
          inr (
            λ c m. (let (c_lt, after_q, low) = rank_child q c q_in m in (c_lt, omega arith)),
            Covered-Below q p q_in b room,
          ))

    -- With room for every state, the whole chain may be passed.
    Covered-climb :
        (ancestor : Option Addr) (f : ℕ) (p : Option Addr)
        → 2 * length h < r
        → ((q : Addr) → p ≡ some q → q < length h)
        → Covered ancestor (climb h f p)
    unfolding climb
    Covered-climb ancestor zero p room inside = tt
    Covered-climb ancestor (suc f) none room inside = tt
    Covered-climb ancestor (suc f) (some q) room inside =
        let q_in = inside q refl in
        inr (
          λ c m. (let (c_lt, after_q, low) = rank_child q c q_in m in (c_lt, omega arith)),
          Covered-climb ancestor f (node h q).parent room
              (λ q' e. (let lt = tree.parent_lt q q' q_in e in omega arith)),
        )

-- The targets of every transition are states.
abbrev pub Targeted : Heap → List Transition → Type 0
Targeted h ts = All (λ t. All (λ a. a < length h) t.targets) ts

module _ (h : Heap) (hist : History) (ok : Restorable h hist) where
  restored_list :
      (descend : Descend) (r : ℕ)
      → Good h ok.tree descend r
      → (p : Addr) → 2 * (length h - p) ≤ suc r
      → p < length h
      → (ss : List Addr) (e : EntrySet)
      → ((s : Addr)
          → mem s ss ≡ true
          → (s < length h) × ((node h s).kind ≢ StateKind.history) × Below h s p)
      → Returns (add_restored h descend ss (some p) e)
  unfolding add_restored add_ancestor_states_to_enter
  restored_list descend r good p room p_in [] e below = (e, refl)
  restored_list descend r good p room p_in (s ∷ ss) e below =
      let (s_in, plain, b) = below s (ground arith) in
      let p_lt = Below-lt h ok.tree s_in b in
      Returns->>= _ _
        (good s e s_in (rw (rank_plain h ok.tree s (node h s).kind plain) (omega arith)))
        (λ e'.
          Returns->>= _ _
            (add_ancestors-Returns h ok.tree descend r good (proper_ancestors h s) (some p) e'
              (Covered-Below h ok.tree descend r good s p s_in b room))
            (λ e''.
              restored_list descend r good p room p_in ss e'' (λ s' m. below s' (ground arith))))

  -- The parent of a history node is one.
  Below-parent :
      (n p : Addr)
      → (node h n).parent ≡ some p
      → (s : Addr)
      → (q : Addr) × ((node h n).parent ≡ some q)
        × (s < length h)
        × ((node h s).kind ≢ StateKind.history)
        × Below h s q
      → (s < length h) × ((node h s).kind ≢ StateKind.history) × Below h s p
  Below-parent n p e s (q, e', inside, plain, b) = let one : p ≡ q = cc in (inside, plain, rw one b)

  descend_kind-Returns :
      (descend : Descend) (r : ℕ)
      → Good h ok.tree descend r
      → (k : StateKind) (s : Addr) (e : EntrySet) → (node h s).kind ≡ k
      → s < length h
      → rank_as h k s ≤ r
      → Returns (descend_kind h hist descend k s e)
  unfolding descend_kind add_initial add_ancestor_states_to_enter
  descend_kind-Returns descend r good StateKind.atomic s e is s_in low = (enter s e, refl)
  descend_kind-Returns descend r good StateKind.final s e is s_in low = (enter s e, refl)
  descend_kind-Returns descend r good StateKind.parallel s e is s_in low =
      add_regions-Returns h ok.tree descend r good (node h s).children (enter s e)
        (λ c m. (let (c_in, after_s, l) = rank_child h ok.tree s c s_in m in (c_in, omega arith)))
  descend_kind-Returns descend r good StateKind.compound s e is s_in low =
      elim (Option-cases (node h s).initial) [
        | inl e' ↦ rw (e', descend_kind, add_initial) (mark_default s (enter s e), refl)
        | inr (c, e') ↦
            let m = ok.initial_child s c s_in e' in
            let (c_in, after_s, l) = rank_child h ok.tree s c s_in m in
            rw (e', descend_kind, add_initial)
              (Returns->>= _ _ (good c (mark_default s (enter s e)) c_in (omega arith)) (λ e''.
                add_ancestors-Returns h ok.tree descend r good (proper_ancestors h c) (some s) e'' (
                  Covered-Below h ok.tree descend r good c s c_in
                    (child (ok.tree.child_parent s c s_in m)) (omega arith))))
      ]
  descend_kind-Returns descend r good StateKind.history s e is s_in low =
      elim (List-cases (restore h hist s)) [
        | inl none? ↦ rw (none?, descend_kind, add_restored) (e, refl)
        | inr (x, xs, f) ↦
            let (p, parent, _, _, _) = ok.restored s x s_in is (rw f (ground arith)) in
            let p_lt = ok.tree.parent_lt s p s_in parent in
            let low' : 2 * (length h - p) - 1 ≤ r = rw parent at low in
            rw (parent, descend_kind)
              (restored_list descend r good p (omega arith) (omega arith) (restore h hist s) e
                (λ s' m. Below-parent s p parent s' (ok.restored s s' s_in is m)))
      ]

  descend-Good : (f : ℕ) → Good h ok.tree (add_descendant_states_to_enter h hist f) f
  unfolding add_descendant_states_to_enter
  descend-Good zero c e c_in low = absurd (omega arith)
  descend-Good (suc f) c e c_in low =
      descend_kind-Returns (add_descendant_states_to_enter h hist f) f (descend-Good f)
        (node h c).kind c e refl c_in (omega arith)

  descend_from-Good : Good h ok.tree (descend_from h hist) (entry_fuel h)
  descend_from-Good = descend-Good (entry_fuel h)

  target_ancestors-Returns :
      (ancestor : Option Addr) (tgts : List Addr) (e : EntrySet)
      → All (λ a. a < length h) tgts
      → Returns (add_target_ancestors h (descend_from h hist) tgts ancestor e)
  unfolding add_target_ancestors add_ancestor_states_to_enter proper_ancestors
  target_ancestors-Returns ancestor [] e inside = (e, refl)
  target_ancestors-Returns ancestor (a ∷ tgts) e (a_in, inside) =
      Returns->>= _ _
        (add_ancestors-Returns h ok.tree (descend_from h hist) (entry_fuel h) descend_from-Good
          (proper_ancestors h a) ancestor e
          (Covered-climb h ok.tree (descend_from h hist) (entry_fuel h) descend_from-Good ancestor
            (length h) (node h a).parent (omega arith)
            (λ q e'. (let lt = ok.tree.parent_lt a q a_in e' in omega arith))))
        (λ e'. target_ancestors-Returns ancestor tgts e' inside)

  targets-Returns :
      (tgts : List Addr) (e : EntrySet)
      → All (λ a. a < length h) tgts
      → Returns (add_targets (descend_from h hist) tgts e)
  unfolding add_targets
  targets-Returns [] e inside = (e, refl)
  targets-Returns (a ∷ tgts) e (a_in, inside) =
      let low = rank_le h ok.tree a (node h a).kind in
      Returns->>= _ _ (descend_from-Good a e a_in (omega arith))
        (λ e'. targets-Returns tgts e' inside)

  collect-Returns :
      (ts : List Transition) (e : EntrySet)
      → Targeted h ts
      → Returns (collect_entries h (descend_from h hist) ts e)
  unfolding collect_entries
  collect-Returns [] e inside = (e, refl)
  collect-Returns (t ∷ ts) e (t_in, inside) =
      Returns->>= _ _ (targets-Returns t.targets e t_in) (λ e'.
        Returns->>= _ _ (target_ancestors-Returns (get_transition_domain h t) t.targets e' t_in)
          (λ e''. collect-Returns ts e'' inside))

  -- Where the chart is a tree, default children are children, and what history states restore are
  -- states below their parents that are no history states, the recursion of the entry set of
  -- transitions with existing targets, and that of the initial entry, come back within their fuel.
  pub compute_entry_set-Returns :
      (ts : List Transition) (root : Addr)
      → Targeted h ts
      → root < length h
      → Returns (compute_entry_set h hist ts) × Returns (descend_from h hist root no_entry)
  unfolding compute_entry_set
  compute_entry_set-Returns ts root inside root_in =
      let low = rank_le h ok.tree root (node h root).kind in
      (collect-Returns ts no_entry inside, descend_from-Good root no_entry root_in (omega arith))
