-- ===== src/Select/Match.antt =====
-- What selection picks: at a node, up the chain of ancestors, and for the whole configuration.
use statesman.Base.{
  ◌≡◌, refl, true, false, String, Option, none, some, List, [], ◌∷◌, ◌++◌, mem, arith, inl, inr,
  ◌↔◌, All, any, find, find_passes, find_split, find-any, All-concat, Bool-cases, Option-cases, ℕ,
  eq_iff,
}
use statesman.Definition.{Addr, Heap, Transition, StateNode, eventless, proper_ancestors}
use statesman.Configuration.{Configuration, atomic}
use statesman.Select.{
  GuardPredicate, node_evented_transitions, fires_on, match_at_node, or_else, first_match,
  collect_enabled, select_by,
}
use statesman.Select.Conflicts.{
  PairwiseApart, remove_conflicting-PairwiseApart, remove_conflicting-All,
}

-- A transition fires on the exact event.
abbrev pub FiresExactly : String → GuardPredicate → Transition → Type 0
FiresExactly event pass t = (eventless t ≡ false) × (t.event ≡ event) × (pass t ≡ true)

pub fires_on_iff :
    (event : String) (pass : GuardPredicate) (t : Transition)
    → (fires_on event pass t ≡ true) ↔ FiresExactly event pass t
fires_on_iff event pass t = ground (arith, eq_iff t.event event)

-- What `matchAtNode` answers: the first exact match; with no exact match, the first wildcard; and
-- nothing only where neither is there.
pub data Matches (event : String) (pass : GuardPredicate) (ts : List Transition)
    : Option Transition → Type 0 where
  exact :
      {t : Transition} (before after : List Transition)
      → ts ≡ before ++ (t ∷ after)
      → any (fires_on event pass) before ≡ false
      → FiresExactly event pass t
      → Matches event pass ts (some t)
  wildcard :
      {t : Transition} (before after : List Transition)
      → any (fires_on event pass) ts ≡ false
      → ts ≡ before ++ (t ∷ after)
      → any (fires_on "*" pass) before ≡ false
      → FiresExactly "*" pass t
      → Matches event pass ts (some t)
  nothing :
      any (fires_on event pass) ts ≡ false
      → any (fires_on "*" pass) ts ≡ false
      → Matches event pass ts none

-- `matchAtNode` answers the first transition on the exact event whose guard passes; with none, the
-- first on `*` whose guard passes; else nothing.
pub match_at_node-Matches :
    (s : StateNode) (event : String) (pass : GuardPredicate)
    → Matches event pass (node_evented_transitions s) (match_at_node s event pass)
unfolding match_at_node
match_at_node-Matches s event pass = by_exact (find (fires_on event pass) ts) refl
  where
    ts : List Transition
    ts = node_evented_transitions s

    by_wildcard :
        (w : Option Transition)
        → find (fires_on "*" pass) ts ≡ w
        → any (fires_on event pass) ts ≡ false
        → Matches event pass ts w
    by_wildcard none e absent = nothing absent (find-any (fires_on "*" pass) ts e)
    by_wildcard (some t) e absent =
        let (before, after, split, none_before) = find_split (fires_on "*" pass) ts e in
        wildcard before after absent split none_before
          ((fires_on_iff "*" pass t).0 (find_passes (fires_on "*" pass) ts e))

    by_exact :
        (o : Option Transition)
        → find (fires_on event pass) ts ≡ o
        → Matches event pass ts (or_else o (find (fires_on "*" pass) ts))
    by_exact none e =
        by_wildcard (find (fires_on "*" pass) ts) refl (find-any (fires_on event pass) ts e)
    by_exact (some t) e =
        let (before, after, split, none_before) = find_split (fires_on event pass) ts e in
        exact before after split none_before
          ((fires_on_iff event pass t).0 (find_passes (fires_on event pass) ts e))

-- A transition that the search up one chain finds is found at some node of the chain, and no node
-- below that one has any.
pub data Innermost (at : Addr → Option Transition) (t : Transition) : List Addr → Type 0 where
  here : {s : Addr} {ss : List Addr} → at s ≡ some t → Innermost at t (s ∷ ss)
  above : {s : Addr} {ss : List Addr} → at s ≡ none → Innermost at t ss → Innermost at t (s ∷ ss)

pub first_match-Innermost :
    (at : Addr → Option Transition) (ss : List Addr) (t : Transition)
    → first_match at ss ≡ some t
    → Innermost at t ss
unfolding first_match
first_match-Innermost at [] t e = cc
first_match-Innermost at (s ∷ ss) t e = elim (Option-cases (at s)) [
  | inl f ↦ above f (first_match-Innermost at ss t (rw f at e))
  | inr (u, f) ↦ here (ground arith)
]

-- The transition is the one that some atomic active state is searched for and finds.
abbrev pub Enabled : Heap → Configuration → (Addr → Option Transition) → Transition → Type 0
Enabled h cfg at t =
    (st : Addr) × (mem st (atomic h cfg) ≡ true) × Innermost at t (st ∷ proper_ancestors h st)

module _ (h : Heap) (at : Addr → Option Transition) where
  abbrev collects : List Addr → List ℕ → List Transition → List Transition
  collects = collect_enabled h at

  module _ (st : Addr) (sts : List Addr) (seen : List ℕ) (enabled : List Transition) where
    pub collect_nothing :
        first_match at (st ∷ proper_ancestors h st) ≡ none
        → collects (st ∷ sts) seen enabled ≡ collects sts seen enabled
    unfolding collect_enabled
    collect_nothing e = rw (e, collect_enabled)

    collect_again :
        (t : Transition)
        → first_match at (st ∷ proper_ancestors h st) ≡ some t
        → mem t.addr seen ≡ true
        → collects (st ∷ sts) seen enabled ≡ collects sts seen enabled
    unfolding collect_enabled
    collect_again t e m = rw (e, collect_enabled) (rw m)

    pub collect_new :
        (t : Transition)
        → first_match at (st ∷ proper_ancestors h st) ≡ some t
        → mem t.addr seen ≡ false
        → collects (st ∷ sts) seen enabled ≡ collects sts (t.addr ∷ seen) (enabled ++ t ∷ [])
    unfolding collect_enabled
    collect_new t e m = rw (e, collect_enabled) (rw m)

  -- What holds of each transition that some search finds holds of all that are collected.
  collect_enabled-All :
      (P : Transition → Type 0) (sts : List Addr) (seen : List ℕ) (enabled : List Transition)
      → ((st : Addr) (t : Transition)
          → mem st sts ≡ true
          → first_match at (st ∷ proper_ancestors h st) ≡ some t
          → P t)
      → All P enabled
      → All P (collects sts seen enabled)
  collect_enabled-All P [] seen enabled found p = unfold collect_enabled in p
  collect_enabled-All P (st ∷ sts) seen enabled found p =
      let later = λ (s : Addr) (t : Transition) (m : mem s sts ≡ true). found s t (later_mem s m) in
      elim (Option-cases (first_match at (st ∷ proper_ancestors h st))) [
        | inl e ↦
            rw (collect_nothing st sts seen enabled e)
              (collect_enabled-All P sts seen enabled later p)
        | inr (t, e) ↦ elim (Bool-cases (mem t.addr seen)) [
          | inl m ↦
              rw (collect_again st sts seen enabled t e m)
                (collect_enabled-All P sts seen enabled later p)
          | inr m ↦ rw (collect_new st sts seen enabled t e m) (
              collect_enabled-All P sts (t.addr ∷ seen) (enabled ++ t ∷ []) later
                (All-concat P enabled t p (found st t (ground arith) e)))
        ]
      ]
    where
      later_mem : (s : Addr) → mem s sts ≡ true → mem s (st ∷ sts) ≡ true
      later_mem s m = ground arith

-- Every selected transition is found innermost from an atomic active state, and no two selected
-- transitions exit a state in common.
pub select_by_lem :
    (h : Heap) (cfg : Configuration) (at : Addr → Option Transition)
    → All (Enabled h cfg at) (select_by h cfg at) × PairwiseApart h cfg (select_by h cfg at)
unfolding select_by
select_by_lem h cfg at =
    let enabled = collect_enabled h at (atomic h cfg) [] [] in
    (
      remove_conflicting-All h cfg (Enabled h cfg at) enabled (
          collect_enabled-All h at (Enabled h cfg at) (atomic h cfg) [] []
            (λ st t m e. (st, m, first_match-Innermost at (st ∷ proper_ancestors h st) t e)) tt),
      remove_conflicting-PairwiseApart h cfg enabled,
    )
