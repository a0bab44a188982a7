-- ===== src/Legality/Runs.antt =====
-- The configurations that the engine (microstep.go) reaches, by any sequence of events offered,
-- steps, commits and steps that are not committed: they are legal.
use statesman.Base.{
  ◌≡◌, refl, sym, ap, ◌∙◌, ℕ, ◌<◌, true, false, Bool, String, Option, none, some, List, [], inl,
  inr, mem, length, arith, All, All-of_mem, ltb, ltb_iff, Bool-cases, >>=-eq-some, ◌||◌, ◌&&◌, not,
  Any, suc,
}
use statesman.Definition.{Addr, Transition, Definition}
use statesman.Definition.Ancestors.{Below-inside}
use statesman.Domain.{compute_exit_set}
use statesman.Entry.{EntrySet, no_entry, entry_fuel, descend_from, compute_entry_set}
use statesman.Engine.{Hooks, Engine, Microstep, QueuedEvent, new_engine, guard_pass}
use statesman.Engine.Apply.{apply, start, commit, run_stage}
use statesman.Engine.Step.{step, offer, offer_descriptor, select_for}
use statesman.Engine.Staging.{mem-run_stage}
use statesman.Engine.Priority.{
  StagedFor, StepCase, exceeded, eventless, internal, external, quiescent, step-StepCase,
}
use statesman.Engine.Limits.{step-SameState}
use statesman.Legality.{Within, IsLegal, IsPlain}
use statesman.Legality.Sets.{IsFull-Agree}
use statesman.Legality.Descend.{add_descendants-Descends}
use statesman.Legality.Arrows.{Entered, collect-Entered}
use statesman.Domain.Exits.{Leaves}
use mathlib.Core.Option.{some-injective}
use statesman.Legality.Zones.{PairwiseApart-PairwiseDisjoint, zones_of}
use statesman.Legality.Changes.{next-IsLegal}
use statesman.Legality.Selected.{
  HasEdges, IsRunnable, select_transitions-IsRunnable, select_eventless-IsRunnable,
}

module _ {Ctx Evt Cmd : Type 0} (hooks : Hooks Ctx Evt Cmd) (d : Definition) where
  -- The engines that are reached from a new one, started: by offering events, by steps, committed
  -- or not.
  pub data Reached : Engine Ctx Evt → Type 0 where
    started :
        {e : Engine Ctx Evt} (init : Ctx) (limit : ℕ) (ms : Microstep Ctx Cmd)
        → start hooks d (new_engine hooks init limit) ≡ some (e, ms)
        → Reached (commit hooks e ms)
    offered : {e : Engine Ctx Evt} (evt : Evt) → Reached e → Reached (offer hooks e evt)
    described :
        {e : Engine Ctx Evt} (desc : String) → Reached e → Reached (offer_descriptor hooks e desc)
    stepped :
        {e e' : Engine Ctx Evt} (r : Option (Microstep Ctx Cmd))
        → Reached e
        → step hooks d e ≡ some (e', r)
        → Reached e'
    committed :
        {e e' : Engine Ctx Evt} (ms : Microstep Ctx Cmd)
        → Reached e
        → step hooks d e ≡ some (e', some ms)
        → Reached (commit hooks e' ms)

module _ {Ctx Evt Cmd : Type 0} (hooks : Hooks Ctx Evt Cmd) (d : Definition)
    (plain : IsPlain d.heap) (root : d.root ≡ 0) where
  -- The transitions that are taken leave a legal configuration legal.
  microstep-IsLegal :
      (e e' : Engine Ctx Evt) (ts : List Transition) (evt : Evt) (b : Bool) (ms : Microstep Ctx Cmd)
      → IsLegal d.heap e.cfg
      → IsRunnable d.heap e.cfg ts
      → StagedFor hooks d e ts evt b e' ms
      → IsLegal d.heap ms.cfg
  unfolding apply compute_entry_set
  microstep-IsLegal e e' ts evt b ms legal runs s =
      next-IsLegal d.heap plain e.cfg legal ts s.entries.to_enter ms.cfg (record {
        mem_next = λ n.
            ap (λ c. mem n c) cfg_eq
            ∙ mem-run_stage hooks d e (compute_exit_set d.heap e.cfg ts) ts s.entries.to_enter evt
                n;
        entered_below = collected.1;
        zones =
            zones_of d.heap plain e.cfg legal ts s.entries.to_enter runs.arrows runs.active
              runs.apart collected.0;
      })
    where
      cfg_eq :
          ms.cfg
          ≡ (run_stage hooks d e (compute_exit_set d.heap e.cfg ts) ts s.entries.to_enter evt).cfg
      cfg_eq = ap (λ x. x.1.cfg) (sym s.built)

      collected :
          All (Entered d.heap s.entries.to_enter) ts
          × ((n : Addr) → (Any (Leaves d.heap n) ts → ⊥) → mem n s.entries.to_enter ≡ false)
      collected =
          collect-Entered d.heap plain (descend_from d.heap e.hist)
            (add_descendants-Descends d.heap plain e.hist (entry_fuel d.heap)) ts no_entry s.entries
            runs.arrows
            (PairwiseApart-PairwiseDisjoint d.heap plain e.cfg legal ts runs.arrows runs.active
              runs.apart)
            (λ n l. refl) s.found

  -- The entry of the root from nothing is legal.
  start-IsLegal :
      (e e' : Engine Ctx Evt) (ms : Microstep Ctx Cmd)
      → e.cfg ≡ []
      → start hooks d e ≡ some (e', ms)
      → IsLegal d.heap ms.cfg
  unfolding start apply
  start-IsLegal e e' ms empty eq =
      let (entries, found, built) = >>=-eq-some _ _ eq in
      let (full, outside) =
        add_descendants-Descends d.heap plain e.hist (entry_fuel d.heap) d.root no_entry entries
          (rw root plain.root_inside) (λ n w. refl) found in
      let stage = run_stage hooks d e [] [] entries.to_enter hooks.zero_event in
      let cfg_eq : ms.cfg ≡ stage.cfg = ap (λ x. x.1.cfg) (sym (some-injective _ _ built)) in
      let agree : (n : Addr) → mem n ms.cfg ≡ mem n entries.to_enter = λ n.
        ap (λ c. mem n c) cfg_eq
        ∙ mem-run_stage hooks d e [] [] entries.to_enter hooks.zero_event n
        ∙ or_nothing (mem n entries.to_enter) (mem n e.cfg) (ap (λ c. mem n c) empty) in
      (
        All-of_mem _ ms.cfg (λ n m. inside n entries (sym (agree n) ∙ m) outside),
        IsFull-Agree d.heap plain.tree 0 entries.to_enter ms.cfg plain.root_inside (λ n w. agree n)
            (rw root at full),
      )
    where
      or_nothing : (p q : Bool) → q ≡ false → (p || (not false && q)) ≡ p
      or_nothing p q f = ground arith

      inside :
          (n : Addr) (entries : EntrySet)
          → mem n entries.to_enter ≡ true
          → ((n : Addr) → (Within d.heap d.root n → ⊥) → mem n entries.to_enter ≡ false)
          → n < length d.heap
      inside n entries m outside = elim (Bool-cases (ltb n (length d.heap))) [
        | inl lt ↦ (ltb_iff n (length d.heap)).0 lt
        | inr ge ↦ cc (m, outside n (λ w. beyond ge w))
      ]
        where
          beyond : ltb n (length d.heap) ≡ false → Within d.heap d.root n → ⊥
          beyond ge (inl same) = (let l = plain.root_inside in ground arith)
          beyond ge (inr b) = (let l = Below-inside d.heap b in ground arith)

  module _ (edges : HasEdges d.heap) where
    -- What `step` stages in a legal configuration is legal.
    step-IsLegal :
        (e e' : Engine Ctx Evt) (ms : Microstep Ctx Cmd)
        → IsLegal d.heap e.cfg
        → step hooks d e ≡ some (e', some ms)
        → IsLegal d.heap ms.cfg
    step-IsLegal e e' ms legal eq = by_case (step-StepCase hooks d e e' (some ms) eq)
      where
        by_event : (qe : QueuedEvent Evt) → IsRunnable d.heap e.cfg (select_for hooks d e qe)
        by_event qe =
            select_transitions-IsRunnable d.heap plain edges e.cfg legal qe.descriptor
              (guard_pass hooks e qe.payload)

        by_case : StepCase hooks d e e' (some ms) → IsLegal d.heap ms.cfg
        by_case (exceeded _ _ _ gone) = cc
        by_case (eventless ms' _ _ same s) =
            let one : ms' ≡ ms = sym (some-injective _ _ same) in
            rw (← one) (
              microstep-IsLegal (record e { always_run = suc e.always_run }) e' _ _ _ ms' legal
                (select_eventless-IsRunnable d.heap plain edges e.cfg legal
                  (guard_pass hooks e hooks.zero_event))
                s)
        by_case (internal ms' _ rest qe _ _ _ _ same s) =
            let one : ms' ≡ ms = sym (some-injective _ _ same) in
            rw (← one) (
              microstep-IsLegal (record e { internal_queue = rest }) e' _ _ _ ms' legal
                (by_event qe) s)
        by_case (external ms' qe _ _ _ _ same s) =
            let one : ms' ≡ ms = sym (some-injective _ _ same) in
            rw (← one) (
              microstep-IsLegal (record e { internal_queue = []; pending_external = none }) e' _ _ _
                ms' legal (by_event qe) s)
        by_case (quiescent _ _ _ _ gone) = cc

  -- Every engine reached from a new one, started, by offering events, by steps, committed or not,
  -- has a legal configuration: the root, with each other state its parent, with a compound state
  -- exactly one child, with a parallel state all. The chart is a tree with a compound root and no
  -- history states, its children stand in compound and parallel states, compound states have a
  -- default child, default children are children, and transitions are internal or lead from below
  -- the root to one state below it.
  pub Reached-IsLegal :
      HasEdges d.heap → {e : Engine Ctx Evt} → Reached hooks d e → IsLegal d.heap e.cfg
  unfolding offer offer_descriptor commit new_engine
  Reached-IsLegal edges (started {e} init limit ms eq) =
      start-IsLegal (new_engine hooks init limit) e ms refl eq
  Reached-IsLegal edges (offered evt r) = Reached-IsLegal edges r
  Reached-IsLegal edges (described desc r) = Reached-IsLegal edges r
  Reached-IsLegal edges (stepped {e} {e'} r before eq) =
      let same = (step-SameState hooks d e e' r eq).cfg in rw same (Reached-IsLegal edges before)
  Reached-IsLegal edges (committed {e} {e'} ms before eq) =
      step-IsLegal edges e e' ms (Reached-IsLegal edges before) eq
