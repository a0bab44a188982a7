-- ===== src/Legality/Zones.antt =====
-- What lies below the domains of the transitions that one microstep takes together: the domains
-- share nothing, stand outside of one another, and are active.
use statesman.Base.{
  ◌≡◌, true, some, List, [], ◌∷◌, ◌⊎◌, inl, inr, mem, arith, All, Any, All_mem, &&_iff,
}
use statesman.Definition.{Addr, Heap, StateKind, Transition, node}
use statesman.Definition.Ancestors.{Below, child, up, Below-trans, parent_inside}
use statesman.Configuration.{Configuration}
use statesman.Domain.{get_transition_domain, exit_set_of}
use statesman.Domain.Exits.{Leaves, exits_iff, mem-exit_set_of}
use statesman.Select.{intersects}
use statesman.Select.Conflicts.{intersects_iff, intersects_comm, Apart, PairwiseApart}
use statesman.Legality.{Within, IsPlain, IsLegal}
use statesman.Legality.Subtrees.{Within-lt, Below-linear, Below-root}
use statesman.Legality.Climb.{IsFilled}
use statesman.Legality.Arrows.{Crosses, Arrow, Disjoint, PairwiseDisjoint, Entered}

-- The source of the transition is active.
abbrev pub IsActive : Configuration → Transition → Type 0
IsActive cfg t = mem t.source cfg ≡ true

-- A domain of one of the transitions, with what the entry set holds below it.
pub record Zone (h : Heap) (cfg : Configuration) (ts : List Transition) (e : List Addr) (d : Addr)
    : Type 0 where
  pub filled : IsFilled h d e
  pub outside : Any (Leaves h d) ts → ⊥
  pub active : mem d cfg ≡ true
  pub compound : (node h d).kind ≡ StateKind.compound

abbrev pub ZoneOf : Heap → Configuration → List Transition → List Addr → Transition → Type 0
ZoneOf h cfg ts e t = (d : Addr) → get_transition_domain h t ≡ some d → Zone h cfg ts e d

module _ (h : Heap) (plain : IsPlain h) (cfg : Configuration) (legal : IsLegal h cfg) where
  pub parent_active :
      (n p : Addr) → (node h n).parent ≡ some p → mem n cfg ≡ true → mem p cfg ≡ true
  parent_active n p f m =
      let inside = parent_inside h n p f in
      let lt = plain.tree.parent_lt n p inside f in
      legal.1.closed n p (Below-root h plain.tree n inside (omega arith)) f m

  -- The ancestors of an active state are active.
  pub ancestor_active : {n a : Addr} → Below h n a → mem n cfg ≡ true → mem a cfg ≡ true
  ancestor_active (child {n = n} {p = p} f) m = parent_active n p f m
  ancestor_active (up {n = n} {p = p} f b) m = ancestor_active b (parent_active n p f m)

  exited :
      (t : Transition) (n d : Addr)
      → mem n cfg ≡ true
      → get_transition_domain h t ≡ some d
      → Below h n d
      → mem n (exit_set_of h cfg t) ≡ true
  exited t n d m f b =
      let inside = All_mem _ n cfg legal.0 m in
      let out = (exits_iff h plain.tree cfg n t inside).1 (d, f, b) in
      rw (mem-exit_set_of h cfg t n) ((&&_iff _ _).1 (m, out))

  -- A source in both exit sets contradicts conflict resolution.
  nested_meet :
      (t u : Transition) (c : Crosses h t) (c' : Crosses h u)
      → IsActive cfg t
      → Within h c'.domain c.domain
      → intersects (exit_set_of h cfg t) (exit_set_of h cfg u) ≡ true
  nested_meet t u c c' active w = (intersects_iff _ _).1 (
    t.source,
    exited t t.source c.domain active c.domain_eq c.source_below,
    exited u t.source c'.domain active c'.domain_eq (deeper w),
  )
    where
      deeper : Within h c'.domain c.domain → Below h t.source c'.domain
      deeper (inl same) = rw (← same) c.source_below
      deeper (inr b) = Below-trans h c.source_below b

  crossing-Disjoint :
      (t u : Transition)
      → Crosses h t
      → Crosses h u
      → IsActive cfg t
      → IsActive cfg u
      → Apart h cfg t u
      → Disjoint h t u
  crossing-Disjoint t u c c' at_t at_u apart n (d, f, b) (d', f', b') =
      by_order (Below-linear h {n = n} {a = c.domain} {b = c'.domain} (rw one at b) (rw two at b'))
    where
      one : d ≡ c.domain
      one = cc (c.domain_eq, f)

      two : d' ≡ c'.domain
      two = cc (c'.domain_eq, f')

      by_order : Within h c.domain c'.domain ⊎ Within h c'.domain c.domain → ⊥
      by_order (inl w) = cc (
        apart,
        nested_meet u t c' c at_u w,
        intersects_comm (exit_set_of h cfg t) (exit_set_of h cfg u),
      )
      by_order (inr w) = cc (apart, nested_meet t u c c' at_t w)

  Apart-Disjoint :
      (t u : Transition)
      → Arrow h t
      → Arrow h u
      → IsActive cfg t
      → IsActive cfg u
      → Apart h cfg t u
      → Disjoint h t u
  Apart-Disjoint t u (inl (e, none_at)) b at_t at_u apart = λ n (d, f, x) y. cc (none_at, f)
  Apart-Disjoint t u (inr c) (inl (e, none_at)) at_t at_u apart = λ n x (d, f, y). cc (none_at, f)
  Apart-Disjoint t u (inr c) (inr c') at_t at_u apart = crossing-Disjoint t u c c' at_t at_u apart

  All-Apart-Disjoint :
      (t : Transition) (us : List Transition)
      → Arrow h t
      → All (Arrow h) us
      → IsActive cfg t
      → All (IsActive cfg) us
      → All (Apart h cfg t) us
      → All (Disjoint h t) us
  All-Apart-Disjoint t [] a as' at_t active apart = tt
  All-Apart-Disjoint t (u ∷ us) a as' at_t active apart = (
    Apart-Disjoint t u a as'.0 at_t active.0 apart.0,
    All-Apart-Disjoint t us a as'.1 at_t active.1 apart.1,
  )

  -- Conflict resolution leaves transitions whose domains share nothing.
  pub PairwiseApart-PairwiseDisjoint :
      (ts : List Transition)
      → All (Arrow h) ts
      → All (IsActive cfg) ts
      → PairwiseApart h cfg ts
      → PairwiseDisjoint h ts
  PairwiseApart-PairwiseDisjoint [] a active apart = tt
  PairwiseApart-PairwiseDisjoint (t ∷ ts) a active apart = (
    All-Apart-Disjoint t ts a.0 a.1 active.0 active.1 apart.0,
    PairwiseApart-PairwiseDisjoint ts a.1 active.1 apart.1,
  )

  not_own : (d : Addr) → Below h d d → ⊥
  not_own d b = (let lt = Within-lt h plain.tree b in omega arith)

  -- The domain of a crossing transition lies below that of no other.
  crossing_outside :
      (t u : Transition)
      → Crosses h t
      → (d : Addr) → get_transition_domain h t ≡ some d
      → Leaves h d u
      → (n : Addr) × Leaves h n t × Leaves h n u
  crossing_outside t u c d f (d', f', b) =
      let same : c.domain ≡ d = cc (c.domain_eq, f) in
      (
        t.source,
        (d, f, rw (← same) c.source_below),
        (d', f', Below-trans h (rw (← same) c.source_below) b),
      )

  Arrow-outside :
      (t u : Transition)
      → Arrow h t
      → Disjoint h t u
      → (d : Addr) → get_transition_domain h t ≡ some d
      → Leaves h d u
      → ⊥
  Arrow-outside t u (inl (e, none_at)) apart d f l = cc (none_at, f)
  Arrow-outside t u (inr c) apart d f l =
      (let (n, m, m') = crossing_outside t u c d f l in apart n m m')

  All-outside :
      (t : Transition) (us : List Transition)
      → Arrow h t
      → All (Disjoint h t) us
      → (d : Addr) → get_transition_domain h t ≡ some d
      → Any (Leaves h d) us
      → ⊥
  All-outside t [] a apart d f l = absurd l
  All-outside t (u ∷ us) a apart d f (inl l) = Arrow-outside t u a apart.0 d f l
  All-outside t (u ∷ us) a apart d f (inr l) = All-outside t us a apart.1 d f l

  -- The domain does not lie below one of the transitions'.
  abbrev Outside : List Transition → Transition → Type 0
  Outside ts t = (d : Addr) → get_transition_domain h t ≡ some d → Any (Leaves h d) ts → ⊥

  Outside-cons :
      (t : Transition) (us ts : List Transition)
      → Arrow h t
      → All (Arrow h) us
      → All (Disjoint h t) us
      → All (Outside ts) us
      → All (Outside (t ∷ ts)) us
  Outside-cons t [] ts a as' apart out = tt
  Outside-cons t (u ∷ us) ts a as' apart out =
      (by_place, Outside-cons t us ts a as'.1 apart.1 out.1)
    where
      by_place : Outside (t ∷ ts) u
      by_place d f (inl l) = Arrow-outside u t as'.0 (λ n x y. apart.0 n y x) d f l
      by_place d f (inr l) = out.0 d f l

  domains-Outside :
      (ts : List Transition) → All (Arrow h) ts → PairwiseDisjoint h ts → All (Outside ts) ts
  domains-Outside [] a apart = tt
  domains-Outside (t ∷ ts) a apart =
      (by_place, Outside-cons t ts ts a.0 a.1 apart.0 (domains-Outside ts a.1 apart.1))
    where
      own : (d : Addr) → get_transition_domain h t ≡ some d → Leaves h d t → ⊥
      own d f (d', f', b) = (let same : d' ≡ d = cc in not_own d (rw same at b))

      by_place : Outside (t ∷ ts) t
      by_place d f (inl l) = own d f l
      by_place d f (inr l) = All-outside t ts a.0 apart.0 d f l

  zones_from :
      (ts us : List Transition) (e : List Addr)
      → All (Arrow h) us
      → All (IsActive cfg) us
      → All (Outside ts) us
      → All (Entered h e) us
      → All (ZoneOf h cfg ts e) us
  zones_from ts [] e a active out entered = tt
  zones_from ts (u ∷ us) e a active out entered =
      (λ d f. zone d f a.0, zones_from ts us e a.1 active.1 out.1 entered.1)
    where
      zone : (d : Addr) → get_transition_domain h u ≡ some d → Arrow h u → Zone h cfg ts e d
      zone d f (inl (empty, none_at)) = cc (none_at, f)
      zone d f (inr c) =
          let same : c.domain ≡ d = cc (c.domain_eq, f) in
          record {
            filled = entered.0 d f;
            outside = out.0 d f;
            active = ancestor_active (rw (← same) c.source_below) active.0;
            compound = rw (← same) c.compound;
          }

  pub zones_of :
      (ts : List Transition) (e : List Addr)
      → All (Arrow h) ts
      → All (IsActive cfg) ts
      → PairwiseApart h cfg ts
      → All (Entered h e) ts
      → All (ZoneOf h cfg ts e) ts
  zones_of ts e a active apart entered =
      zones_from ts ts e a active
        (domains-Outside ts a (PairwiseApart-PairwiseDisjoint ts a active apart)) entered
