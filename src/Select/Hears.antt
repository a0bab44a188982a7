-- ===== src/Select/Hears.antt =====
-- Selection does not come back empty where some active state has a transition to take.
use statesman.Base.{
  ◌≡◌, ◌≢◌, refl, true, Bool, String, Option, none, some, List, [], ◌∷◌, ◌++◌, mem, any, arith, ◌⊎◌,
  inl, inr, Bool-cases, Option-cases, ==_iff, ◌==◌,
}
use statesman.Definition.{Addr, Heap, Transition, StateNode, is_atomic, node, proper_ancestors}
use statesman.Configuration.{Configuration, atomic}
use statesman.Configuration.Order.{mem-atomic}
use statesman.Select.{
  GuardPredicate, node_evented_transitions, fires_on, match_at_node, first_match, collect_enabled,
  select_by, select_transitions,
}
use statesman.Select.Conflicts.{remove_conflicting_some}
use statesman.Select.Match.{
  FiresExactly, fires_on_iff, Matches, nothing, match_at_node-Matches, collect_nothing, collect_new,
}

-- An atomic active state, or an ancestor of one, has a transition on the event or on `*` whose
-- guard passes.
pub record Hears (h : Heap) (cfg : Configuration) (event : String) (pass : GuardPredicate)
    : Type 0 where
  pub leaf : Addr
  pub active : mem leaf cfg ≡ true
  pub is_leaf : is_atomic h leaf ≡ true
  pub owner : Addr
  pub on_chain : mem owner (leaf ∷ proper_ancestors h leaf) ≡ true
  pub edge : Transition
  pub before : List Transition
  pub after : List Transition
  pub split : node_evented_transitions (node h owner) ≡ before ++ (edge ∷ after)
  pub fires : FiresExactly event pass edge ⊎ FiresExactly "*" pass edge

any-split :
    (p : Transition → Bool) (before after : List Transition) (t : Transition)
    → p t ≡ true
    → any p (before ++ (t ∷ after)) ≡ true
any-split p [] after t e = ground arith
any-split p (x ∷ before) after t e = ground (arith, any-split p before after t e)

match_at_node-some :
    (s : StateNode) (event : String) (pass : GuardPredicate) (t : Transition)
    (before after : List Transition)
    → node_evented_transitions s ≡ before ++ (t ∷ after)
    → FiresExactly event pass t ⊎ FiresExactly "*" pass t
    → match_at_node s event pass ≢ none
match_at_node-some s event pass t before after split fires silent =
    refuted (rw silent at (match_at_node-Matches s event pass)) fires
  where
    fired :
        (w : String)
        → FiresExactly w pass t
        → any (fires_on w pass) (node_evented_transitions s) ≡ true
    fired w f = rw split (any-split (fires_on w pass) before after t ((fires_on_iff w pass t).1 f))

    refuted :
        Matches event pass (node_evented_transitions s) none
        → FiresExactly event pass t ⊎ FiresExactly "*" pass t
        → ⊥
    refuted (nothing quiet still) (inl f) = cc (quiet, fired event f)
    refuted (nothing quiet still) (inr f) = cc (still, fired "*" f)

first_match-some :
    (at : Addr → Option Transition) (n : Addr) (ss : List Addr)
    → mem n ss ≡ true
    → at n ≢ none
    → (t : Transition) × (first_match at ss ≡ some t)
unfolding first_match
first_match-some at n [] m found = cc
first_match-some at n (s ∷ ss) m found = elim (Option-cases (at s)) [
  | inr (t, e) ↦ (t, rw e)
  | inl e ↦ elim (Bool-cases (n == s)) [
    | inl same ↦ absurd (found (rw ((==_iff n s).0 same) e))
    | inr other ↦
        let (t, later) = first_match-some at n ss (ground arith) found in (t, rw (e, later))
  ]
]

module _ (h : Heap) (at : Addr → Option Transition) where
  collect_keeps :
      (sts : List Addr) (seen : List Addr) (t : Transition) (enabled : List Transition)
      → (u : Transition) × (us : List Transition) × (collect_enabled h at sts seen (t ∷ enabled)
          ≡ u ∷ us)
  unfolding collect_enabled
  collect_keeps [] seen t enabled = (t, enabled, refl)
  collect_keeps (st ∷ sts) seen t enabled =
      elim (Option-cases (first_match at (st ∷ proper_ancestors h st))) [
        | inl e ↦ rw (e, collect_enabled) (collect_keeps sts seen t enabled)
        | inr (v, e) ↦ elim (Bool-cases (mem v.addr seen)) [
          | inl m ↦ rw (e, collect_enabled) (rw m (collect_keeps sts seen t enabled))
          | inr m ↦
              rw (e, collect_enabled)
                (rw m (collect_keeps sts (v.addr ∷ seen) t (enabled ++ v ∷ [])))
        ]
      ]

  collect_enabled-some :
      (sts : List Addr) (st : Addr) (t : Transition)
      → mem st sts ≡ true
      → first_match at (st ∷ proper_ancestors h st) ≡ some t
      → (u : Transition) × (us : List Transition) × (collect_enabled h at sts [] [] ≡ u ∷ us)
  collect_enabled-some [] st t m e = cc
  collect_enabled-some (s ∷ sts) st t m e =
      elim (Option-cases (first_match at (s ∷ proper_ancestors h s))) [
        | inr (v, f) ↦
            rw (collect_new h at s sts [] [] v f refl) (collect_keeps sts (v.addr ∷ []) v [])
        | inl f ↦ elim (Bool-cases (st == s)) [
          | inl same ↦ let one : st ≡ s = (==_iff st s).0 same in cc (rw one at e)
          | inr other ↦
              rw (collect_nothing h at s sts [] [] f)
                (collect_enabled-some sts st t (ground arith) e)
        ]
      ]

pub select_transitions-some :
    (h : Heap) (cfg : Configuration) (event : String) (pass : GuardPredicate)
    → Hears h cfg event pass
    → select_transitions h cfg event pass ≢ []
unfolding select_transitions select_by
select_transitions-some h cfg event pass hears none_selected =
    let at = λ (s : Addr). match_at_node (node h s) event pass in
    let answered =
      match_at_node-some (node h hears.owner) event pass hears.edge hears.before hears.after
        hears.split hears.fires in
    let (t, found) =
      first_match-some at hears.owner (hears.leaf ∷ proper_ancestors h hears.leaf) hears.on_chain
        answered in
    let listed : mem hears.leaf (atomic h cfg) ≡ true =
      rw (mem-atomic h cfg hears.leaf, hears.active, hears.is_leaf) in
    let (u, us, collected) = collect_enabled-some h at (atomic h cfg) hears.leaf t listed found in
    remove_conflicting_some h cfg u us (rw collected at none_selected)
