-- ===== src/Legality/Steps.antt =====
-- In a chart without history states every engine that is reached goes on: its steps return, and what
-- they stage is legal.
use statesman.Base.{
  ◌≡◌, refl, zero, suc, ◌<◌, ◌≤◌, true, Option, none, some, [], ◌∷◌, ◌⊎◌, inl, inr, length, arith,
  ltb, ltb_iff, Bool-cases,
}
use statesman.Definition.{Addr, Heap, Transition, Definition, node, blank}
use statesman.Configuration.{Configuration}
use statesman.Select.{node_evented_transitions}
use statesman.Entry.{History}
use statesman.Entry.Total.{Returns, Restorable, Targeted}
use statesman.Status.{ActorStatus}
use statesman.Select.Hears.{Hears, select_transitions-some}
use statesman.Engine.{Hooks, Engine, Microstep, guard_pass}
use statesman.Engine.Priority.{
  StepCase, exceeded, eventless, internal, external, quiescent, step-StepCase,
}
use statesman.Engine.Apply.{start, commit}
use statesman.Engine.Step.{step, offer}
use statesman.Engine.Progress.{Linked, InHeap, All-mono, step-Returns}
use statesman.Legality.{IsPlain, IsEdge, IsLegal}
use statesman.Legality.Selected.{HasEdges}
use statesman.Legality.Runs.{Reached-IsLegal, Reached, offered, stepped, committed}

-- Nothing stands behind the end of the heap.
node-blank : (h : Heap) (n : Addr) → length h ≤ n → node h n ≡ blank
unfolding node
node-blank [] n l = refl
node-blank (v ∷ h) zero l = absurd (omega arith)
node-blank (v ∷ h) (suc n) l = node-blank h n (omega arith)

module _ (h : Heap) (plain : IsPlain h) where
  edges-Linked : HasEdges h → Linked h
  edges-Linked edges n = elim (Bool-cases (ltb n (length h))) [
    | inl inside ↦
        let l = (ltb_iff n (length h)).0 inside in
        (
          All-mono (IsEdge h n) (InHeap h) _ edge_targets (edges.evented n l),
          All-mono (IsEdge h n) (InHeap h) _ edge_targets (edges.direct n l),
        )
    | inr outside ↦ rw (node-blank h n (ground arith)) nothing
  ]
    where
      nothing : Targeted h (node_evented_transitions blank) × Targeted h []
      nothing = unfold node_evented_transitions in (tt, tt)

      edge_targets : (t : Transition) → IsEdge h n t → InHeap h t
      edge_targets t edge = by_targets edge.target_one
        where
          by_targets :
              (t.targets ≡ [])
                ⊎ ((x : Addr) × (t.targets ≡ x ∷ []) × (x < length h) × (0 < x) × (0 < n))
              → InHeap h t
          by_targets (inl e) = rw e tt
          by_targets (inr (x, e, l, x_pos, n_pos)) = rw e (l, tt)

  plain-Restorable : (hist : History) → Restorable h hist
  plain-Restorable hist = record {
    tree = plain.tree;
    initial_child = plain.initial_child;
    restored = λ n s l is m. absurd (plain.no_history n l is);
  }

-- The configuration after a step, once what it staged is committed.
abbrev pub cfg_after :
    {Ctx Evt Cmd : Type 0} → Engine Ctx Evt → Option (Microstep Ctx Cmd) → Configuration
cfg_after e none = e.cfg
cfg_after e (some ms) = ms.cfg

-- A microstep is staged, or the limit of eventless microsteps ends the actor.
abbrev pub GoesOn :
    {Ctx Evt Cmd : Type 0} → Engine Ctx Evt → Engine Ctx Evt → Option (Microstep Ctx Cmd) → Type 0
GoesOn {Ctx} {Evt} {Cmd} e e' r =
    ((ms : Microstep Ctx Cmd) × (r ≡ some ms))
    ⊎ ((e.always_limit ≤ e.always_run) × (e'.status ≡ ActorStatus.error))

module _ {Ctx Evt Cmd : Type 0} (hooks : Hooks Ctx Evt Cmd) (d : Definition)
    (plain : IsPlain d.heap) (root : d.root ≡ 0) (edges : HasEdges d.heap) where
  steps_return : (e : Engine Ctx Evt) → Returns (step hooks d e) × Returns (start hooks d e)
  steps_return e =
      step-Returns hooks d (edges-Linked d.heap plain edges) (rw root plain.root_inside) e
        (plain-Restorable d.heap plain e.hist)

  pub IsLegal-after :
      (e e' : Engine Ctx Evt) (r : Option (Microstep Ctx Cmd))
      → Reached hooks d e
      → step hooks d e ≡ some (e', r)
      → IsLegal d.heap (cfg_after e' r)
  unfolding commit
  IsLegal-after e e' none reached eq =
      Reached-IsLegal hooks d plain root edges (stepped none reached eq)
  IsLegal-after e e' (some ms) reached eq =
      Reached-IsLegal hooks d plain root edges (committed ms reached eq)

  -- An event that some active state hears does not leave the engine quiescent.
  step-GoesOn :
      (e e' : Engine Ctx Evt) (r : Option (Microstep Ctx Cmd)) (evt : Evt)
      → Hears d.heap e.cfg (hooks.event_type evt) (guard_pass hooks e evt)
      → StepCase hooks d (offer hooks e evt) e' r
      → GoesOn e e' r
  unfolding offer guard_pass
  step-GoesOn e e' r evt hears (exceeded _ over left gone) = inr (over, rw left refl)
  step-GoesOn e e' r evt hears (eventless ms _ _ same _) = inl (ms, same)
  step-GoesOn e e' r evt hears (internal ms _ _ _ _ _ _ _ same _) = inl (ms, same)
  step-GoesOn e e' r evt hears (external ms _ _ _ _ _ same _) = inl (ms, same)
  step-GoesOn e e' r evt hears (quiescent _ _ unmatched _ _) = absurd (
      select_transitions-some d.heap e.cfg (hooks.event_type evt) (guard_pass hooks e evt) hears (
        unmatched (record { descriptor = hooks.event_type evt; payload = evt; has_payload = true })
          refl))

  -- Offered an event for which an atomic active state or an ancestor of one has a transition, on
  -- this event or on `*`, whose guard passes, an engine that is reached stages a microstep, or has
  -- used up its limit of eventless microsteps and ends with an error. What it leaves, committed
  -- where it staged something, has a legal configuration. The chart is a tree with a compound root
  -- and no history states, its children stand in compound and parallel states, compound states
  -- have a default child, default children are children, and transitions are internal or lead from
  -- below the root to one state below it.
  pub Reached-GoesOn :
      {e : Engine Ctx Evt}
      → Reached hooks d e
      → (evt : Evt) → Hears d.heap e.cfg (hooks.event_type evt) (guard_pass hooks e evt)
      → (e' : Engine Ctx Evt) × (r : Option (Microstep Ctx Cmd)) × (step hooks d (offer hooks e evt)
          ≡ some (e', r))
        × IsLegal d.heap (cfg_after e' r)
        × GoesOn e e' r
  Reached-GoesOn {e} reached evt hears =
      let ((e', r), eq) = (steps_return (offer hooks e evt)).0 in
      (
        e',
        r,
        eq,
        IsLegal-after (offer hooks e evt) e' r (offered evt reached) eq,
        step-GoesOn e e' r evt hears (step-StepCase hooks d (offer hooks e evt) e' r eq),
      )
