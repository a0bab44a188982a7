-- ===== src/Legality/Selected.antt =====
-- The transitions that selection answers, in a legal configuration: their sources are active, and
-- each is internal or crosses below its domain.
use statesman.Base.{
  ◌≡◌, refl, sym, ◌∙◌, ◌<◌, true, String, Option, some, List, [], ◌∷◌, inl, inr, mem, length, arith,
  All, All_mem, ◌&&◌, ◌==◌, ==_iff, ||_iff, find, mem-keep, &&_iff,
}
use statesman.Definition.{Addr, Heap, Transition, node, eventless, is_atomic, proper_ancestors}
use statesman.Definition.Ancestors.{mem-proper_ancestors}
use statesman.Configuration.{Configuration, atomic, all_active}
use statesman.Configuration.Order.{mem-by_doc_order}
use statesman.Select.{
  GuardPredicate, node_evented_transitions, fires_on, match_at_node, select_by, select_transitions,
  select_eventless_transitions,
}
use statesman.Select.Match.{Innermost, here, above, Enabled, select_by_lem}
use statesman.Select.Conflicts.{PairwiseApart}
use statesman.Engine.Progress.{find-All, or_else-holds, All-mono}
use statesman.Legality.{IsEdge, IsPlain, IsLegal}
use statesman.Legality.Arrows.{Arrow, edge-Arrow}
use statesman.Legality.Zones.{IsActive, ancestor_active}

-- Every transition of every state, those of its invokes included, is an edge from that state.
pub record HasEdges (h : Heap) : Type 0 where
  pub evented : (n : Addr) → n < length h → All (IsEdge h n) (node_evented_transitions (node h n))
  pub direct : (n : Addr) → n < length h → All (IsEdge h n) (node h n).transitions

-- What a microstep can be taken with: transitions that cross, from active states, apart.
pub record IsRunnable (h : Heap) (cfg : Configuration) (ts : List Transition) : Type 0 where
  pub arrows : All (Arrow h) ts
  pub active : All (IsActive cfg) ts
  pub apart : PairwiseApart h cfg ts

All-both :
    (P Q : Transition → Type 0) (ts : List Transition)
    → All (λ t. P t × Q t) ts
    → All P ts × All Q ts
All-both P Q [] a = (tt, tt)
All-both P Q (t ∷ ts) ((p, q), a) = (let (ps, qs) = All-both P Q ts a in ((p, ps), (q, qs)))

Innermost-at :
    (at : Addr → Option Transition) (t : Transition) (ss : List Addr)
    → Innermost at t ss
    → (s : Addr) × (mem s ss ≡ true) × (at s ≡ some t)
Innermost-at at t _ (here {s = s} {ss = ss} e) =
    (let hit : (s == s) ≡ true = (==_iff s s).1 refl in (s, ground arith, e))
Innermost-at at t _ (above {s = s'} {ss = ss} e i) =
    (let (s, m, f) = Innermost-at at t ss i in (s, ground arith, f))

module _ (h : Heap) (plain : IsPlain h) (edges : HasEdges h) (cfg : Configuration)
    (legal : IsLegal h cfg) where
  atomic_active : (st : Addr) → mem st (atomic h cfg) ≡ true → mem st cfg ≡ true
  unfolding atomic all_active
  atomic_active st m =
      sym (mem-by_doc_order h st cfg)
      ∙ ((&&_iff _ _).0 (sym (mem-keep st (is_atomic h) (all_active h cfg)) ∙ m)).0

  chain_active :
      (st s : Addr)
      → mem st cfg ≡ true
      → mem s (st ∷ proper_ancestors h st) ≡ true
      → mem s cfg ≡ true
  chain_active st s active m = elim ((||_iff _ _).0 m) [
    | inl one ↦ rw ((==_iff s st).0 one) active
    | inr higher ↦
        let inside = All_mem _ st cfg legal.0 active in
        ancestor_active h plain cfg legal (mem-proper_ancestors h plain.tree s st inside higher).0
          active
  ]

  select_by-IsRunnable :
      (at : Addr → Option Transition)
      → ((s : Addr) (t : Transition) → s < length h → at s ≡ some t → IsEdge h s t)
      → IsRunnable h cfg (select_by h cfg at)
  select_by-IsRunnable at holds =
      let (enabled, apart) = select_by_lem h cfg at in
      let (arrows, active) = All-both (Arrow h) (IsActive cfg) (select_by h cfg at) (
        All-mono (Enabled h cfg at) (λ t. Arrow h t × IsActive cfg t) (select_by h cfg at) runs
          enabled) in
      record { arrows = arrows; active = active; apart = apart }
    where
      runs : (t : Transition) → Enabled h cfg at t → Arrow h t × IsActive cfg t
      runs t (st, m, i) =
          let (s, in_chain, f) = Innermost-at at t (st ∷ proper_ancestors h st) i in
          let active = chain_active st s (atomic_active st m) in_chain in
          let inside = All_mem _ s cfg legal.0 active in
          let edge = holds s t inside f in
          (edge-Arrow h plain s t inside edge, rw edge.source_eq active)

  pub select_transitions-IsRunnable :
      (event : String) (pass : GuardPredicate)
      → IsRunnable h cfg (select_transitions h cfg event pass)
  unfolding select_transitions match_at_node
  select_transitions-IsRunnable event pass =
      select_by-IsRunnable (λ s. match_at_node (node h s) event pass)
        (λ s t inside e.
          or_else-holds (IsEdge h s)
            (find (fires_on event pass) (node_evented_transitions (node h s)))
            (find (fires_on "*" pass) (node_evented_transitions (node h s))) t
            (λ u f. find-All (IsEdge h s) (fires_on event pass) _ u (edges.evented s inside) f)
            (λ u f. find-All (IsEdge h s) (fires_on "*" pass) _ u (edges.evented s inside) f) e)

  pub select_eventless-IsRunnable :
      (pass : GuardPredicate) → IsRunnable h cfg (select_eventless_transitions h cfg pass)
  unfolding select_eventless_transitions
  select_eventless-IsRunnable pass =
      select_by-IsRunnable (λ s. find (λ t. eventless t && pass t) (node h s).transitions)
        (λ s t inside e.
          find-All (IsEdge h s) (λ u. eventless u && pass u) (node h s).transitions t
            (edges.direct s inside) e)
