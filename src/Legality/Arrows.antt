-- ===== src/Legality/Arrows.antt =====
-- The entry set of a list of transitions (transition.go, `computeEntrySet`), each with one target
-- and a domain of its own: below each domain one child is entered, full, and nothing else anywhere.
use statesman.Base.{
  ◌≡◌, refl, ap, sym, ◌∙◌, ◌<◌, true, false, Option, some, none, List, [], ◌∷◌, ◌⊎◌, inl, inr, mem,
  length, arith, >>=-eq-some, All, Any, Option-cases,
}
use statesman.Definition.{Addr, Heap, StateKind, Transition, node, internal}
use statesman.Definition.Ancestors.{Below, Below-inside, Below-trans}
use statesman.Domain.{get_transition_domain, find_lcca}
use statesman.Domain.Lcca.{Qualified, find_lcca-IsLcca, find_lcca-eq-none}
use statesman.Domain.Exits.{Leaves}
use statesman.Entry.{
  EntrySet, Descend, add_targets, add_target_ancestors, add_ancestor_states_to_enter,
  collect_entries,
}
use statesman.Legality.{Within, IsPlain, IsEdge}
use statesman.Legality.Subtrees.{Below-of_child, Within-lt}
use statesman.Legality.Sets.{IsFull-Agree}
use statesman.Legality.Regions.{SameAbove, Descends}
use statesman.Legality.Climb.{IsFilled, climb-IsFilled}

-- A transition from below its domain, a compound state, to one state below it.
pub record Crosses (h : Heap) (t : Transition) : Type 0 where
  pub target : Addr
  pub domain : Addr
  pub targets_eq : t.targets ≡ target ∷ []
  pub domain_eq : get_transition_domain h t ≡ some domain
  pub target_below : Below h target domain
  pub source_below : Below h t.source domain
  pub compound : (node h domain).kind ≡ StateKind.compound

-- A transition with no targets, or one that crosses.
abbrev pub Arrow : Heap → Transition → Type 0
Arrow h t = ((t.targets ≡ []) × (get_transition_domain h t ≡ none)) ⊎ Crosses h t

-- No state leaves by both.
abbrev pub Disjoint : Heap → Transition → Transition → Type 0
Disjoint h t u = (n : Addr) → Leaves h n t → Leaves h n u → ⊥

abbrev pub PairwiseDisjoint : Heap → List Transition → Type 0
PairwiseDisjoint h [] = Unit
PairwiseDisjoint h (t ∷ ts) = All (Disjoint h t) ts × PairwiseDisjoint h ts

-- What the entry set holds for one of the transitions.
abbrev pub Entered : Heap → List Addr → Transition → Type 0
Entered h e t = (d : Addr) → get_transition_domain h t ≡ some d → IsFilled h d e

module _ (h : Heap) (plain : IsPlain h) where
  edge-Crosses :
      (t : Transition) (x : Addr)
      → t.targets ≡ x ∷ []
      → x < length h
      → 0 < x
      → t.source < length h
      → 0 < t.source
      → Crosses h t
  unfolding get_transition_domain internal
  edge-Crosses t x targets x_in x_pos s_in s_pos =
      elim (Option-cases (find_lcca h (t.source ∷ x ∷ []))) [
        | inl e ↦
            let root = (find_lcca-eq-none h plain.tree t.source (x ∷ []) (s_in, (x_in, tt))).0 e in
            absurd (no_root root)
        | inr (d, e) ↦
            let lcca = find_lcca-IsLcca h plain.tree t.source (x ∷ []) d (s_in, (x_in, tt)) e in
            record {
              target = x;
              domain = d;
              targets_eq = targets;
              domain_eq = rw targets e;
              target_below = lcca.above.1.0;
              source_below = lcca.above.0;
              compound = by_kind d lcca.above.0 lcca.qualified;
            }
      ]
    where
      no_root : mem 0 (t.source ∷ x ∷ []) ≡ true → ⊥
      no_root m = ground arith

      by_kind :
          (d : Addr) → Below h t.source d → Qualified h d → (node h d).kind ≡ StateKind.compound
      by_kind d b (inl compound) = compound
      by_kind d b (inr top) =
          let lt = Within-lt h plain.tree b in
          let is_root : d ≡ 0 = plain.tree.root_only d (omega arith) top in
          rw is_root plain.root_kind

  -- A transition of a state of the chart is internal or crosses.
  pub edge-Arrow : (n : Addr) (t : Transition) → n < length h → IsEdge h n t → Arrow h t
  unfolding get_transition_domain internal
  edge-Arrow n t l edge = by_targets edge.target_one
    where
      no_domain : t.targets ≡ [] → get_transition_domain h t ≡ none
      no_domain e = rw e

      by_targets :
          (t.targets ≡ [])
            ⊎ ((x : Addr) × (t.targets ≡ x ∷ []) × (x < length h) × (0 < x) × (0 < n))
          → Arrow h t
      by_targets (inl e) = inl (e, no_domain e)
      by_targets (inr (x, e, x_in, x_pos, n_pos)) =
          let source = edge.source_eq in
          inr (edge-Crosses t x e x_in x_pos (rw source l) (rw source n_pos))

  IsFilled-Agree :
      (d : Addr) (e e' : List Addr)
      → ((n : Addr) → Below h n d → mem n e' ≡ mem n e)
      → IsFilled h d e
      → IsFilled h d e'
  IsFilled-Agree d e e' agree filled = record {
    via = filled.via;
    via_parent = filled.via_parent;
    full =
        IsFull-Agree h plain.tree filled.via e e'
          (Below-inside h (Below-of_child h filled.via_parent (inl refl)))
          (λ n w. agree n (Below-of_child h filled.via_parent w)) filled.full;
    rest_clear = λ n b out. agree n b ∙ filled.rest_clear n b out;
  }

  module _ (descend : Descend) (spec : Descends h descend) where
    one_target :
        (x : Addr) (e e' : EntrySet)
        → add_targets descend (x ∷ []) e ≡ some e'
        → descend x e ≡ some e'
    unfolding add_targets
    one_target x e e' eq = (let (e₁, first, later) = >>=-eq-some _ _ eq in first ∙ later)

    one_climb :
        (x : Addr) (d : Option Addr) (e e' : EntrySet)
        → add_target_ancestors h descend (x ∷ []) d e ≡ some e'
        → add_ancestor_states_to_enter h descend x d e ≡ some e'
    unfolding add_target_ancestors
    one_climb x d e e' eq = (let (e₁, first, later) = >>=-eq-some _ _ eq in first ∙ later)

    crossing-Entered :
        (t : Transition) (c : Crosses h t) (e e₁ e' : EntrySet)
        → ((n : Addr) → Below h n c.domain → mem n e.to_enter ≡ false)
        → add_targets descend (c.target ∷ []) e ≡ some e₁
        → add_target_ancestors h descend (c.target ∷ []) (some c.domain) e₁ ≡ some e'
        → IsFilled h c.domain e'.to_enter × SameAbove h c.domain e.to_enter e'.to_enter
    unfolding add_ancestor_states_to_enter
    crossing-Entered t c e e₁ e' clear eq eq' =
        let target_clear = λ (n : Addr) (w : Within h c.target n). clear n (under n w) in
        let (full, same) =
          spec c.target e e₁ (Below-inside h c.target_below) target_clear
            (one_target c.target e e₁ eq) in
        let (filled, above) =
          climb-IsFilled h plain descend spec c.target c.domain c.target_below e₁ e' full
            (λ n b out. same n out ∙ clear n b) (one_climb c.target (some c.domain) e₁ e' eq') in
        (filled, λ n out. above n out ∙ same n (λ w. out (under n w)))
      where
        under : (n : Addr) → Within h c.target n → Below h n c.domain
        under n (inl same) = rw same c.target_below
        under n (inr b) = Below-trans h b c.target_below

    -- One round of `computeEntrySet`.
    round-Entered :
        (t : Transition)
        → Arrow h t
        → (e e₁ e' : EntrySet) → ((n : Addr) → Leaves h n t → mem n e.to_enter ≡ false)
        → add_targets descend t.targets e ≡ some e₁
        → add_target_ancestors h descend t.targets (get_transition_domain h t) e₁ ≡ some e'
        → Entered h e'.to_enter t
          × ((n : Addr) → (Leaves h n t → ⊥) → mem n e'.to_enter ≡ mem n e.to_enter)
    unfolding add_targets add_target_ancestors
    round-Entered t (inl (none_at, no_domain)) e e₁ e' clear eq eq' =
        let one : e ≡ e₁ = cc (rw none_at at eq) in
        let two : e₁ ≡ e' = cc (rw none_at at eq') in
        (λ d f. cc, λ n out. ap (λ s. mem n s.to_enter) (sym (one ∙ two)))
    round-Entered t (inr c) e e₁ e' clear eq eq' =
        let (filled, above) =
          crossing-Entered t c e e₁ e' (λ n b. clear n (c.domain, c.domain_eq, b))
            (rw c.targets_eq at eq) (rw c.targets_eq at (rw c.domain_eq at eq')) in
        (
          λ d f. (let same : c.domain ≡ d = cc (c.domain_eq, f) in rw (← same) filled),
          λ n out. above n (λ b. out (c.domain, c.domain_eq, b)),
        )

    Entered-Agree :
        (t : Transition) (e e' : List Addr)
        → ((n : Addr) → Leaves h n t → mem n e' ≡ mem n e)
        → Entered h e t
        → Entered h e' t
    Entered-Agree t e e' agree entered =
        λ d f. IsFilled-Agree d e e' (λ n b. agree n (d, f, b)) (entered d f)

    not-Any :
        (t : Transition) (ts : List Transition) (n : Addr)
        → All (Disjoint h t) ts
        → Leaves h n t
        → Any (Leaves h n) ts
        → ⊥
    not-Any t [] n apart l m = absurd m
    not-Any t (u ∷ us) n apart l (inl m) = apart.0 n l m
    not-Any t (u ∷ us) n apart l (inr m) = not-Any t us n apart.1 l m

    pub collect-Entered :
        (ts : List Transition) (e e' : EntrySet)
        → All (Arrow h) ts
        → PairwiseDisjoint h ts
        → ((n : Addr) → Any (Leaves h n) ts → mem n e.to_enter ≡ false)
        → collect_entries h descend ts e ≡ some e'
        → All (Entered h e'.to_enter) ts
          × ((n : Addr) → (Any (Leaves h n) ts → ⊥) → mem n e'.to_enter ≡ mem n e.to_enter)
    unfolding collect_entries
    collect-Entered [] e e' arrows apart clear eq =
        let one : e ≡ e' = cc in (tt, λ n out. ap (λ s. mem n s.to_enter) (sym one))
    collect-Entered (t ∷ ts) e e' arrows apart clear eq =
        let (e₁, first, onward) = >>=-eq-some _ _ eq in
        let (e₂, second, later) = >>=-eq-some _ _ onward in
        let (entered, same) =
          round-Entered t arrows.0 e e₁ e₂ (λ n l. clear n (inl l)) first second in
        let (rest, same') =
          collect-Entered ts e₂ e' arrows.1 apart.1
            (λ n l. same n (λ m. not-Any t ts n apart.0 m l) ∙ clear n (inr l)) later in
        (
          (
            Entered-Agree t e₂.to_enter e'.to_enter
                (λ n l. same' n (λ m. not-Any t ts n apart.0 l m)) entered,
            rest,
          ),
          λ n out. same' n (λ m. out (inr m)) ∙ same n (λ m. out (inl m)),
        )
