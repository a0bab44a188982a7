-- ===== src/Engine/Limits.antt =====
-- Consequences of the cases of `step`: what it leaves of the engine, and how long a chain of eventless
-- microsteps is.
use statesman.Base.{
  ◌≡◌, refl, ap, sym, ◌∙◌, ◌<◌, ◌≤◌, ℕ, suc, ◌+◌, false, Bool, Option, some, List, arith,
  if◌then◌else◌,
}
use statesman.Definition.{Transition, Definition}
use statesman.Engine.{Hooks, Microstep, Engine}
use statesman.Engine.Apply.{apply, commit}
use statesman.Engine.Step.{step}
use statesman.Engine.Priority.{
  StagedFor, StepCase, exceeded, eventless, internal, external, quiescent, step-StepCase,
}

module _ {Ctx Evt Cmd : Type 0} (hooks : Hooks Ctx Evt Cmd) (d : Definition) where
  -- The part of the engine that a microstep is about.
  pub record SameState (e e' : Engine Ctx Evt) : Type 0 where
    pub cfg : e'.cfg ≡ e.cfg
    pub ctx : e'.ctx ≡ e.ctx
    pub hist : e'.hist ≡ e.hist

  -- What the staging leaves of the engine, and what it stages.
  StagedFor-SameState :
      {e : Engine Ctx Evt} {ts : List Transition} {evt : Evt} {b : Bool} {e' : Engine Ctx Evt}
      {ms : Microstep Ctx Cmd}
      → StagedFor hooks d e ts evt b e' ms
      → SameState e e'
        × (e'.always_run ≡ e.always_run)
        × (e'.always_limit ≡ e.always_limit)
        × (ms.triggered_by_event ≡ b)
  unfolding apply
  StagedFor-SameState s = (
    record {
      cfg = ap (λ x. x.0.cfg) (sym s.built);
      ctx = ap (λ x. x.0.ctx) (sym s.built);
      hist = ap (λ x. x.0.hist) (sym s.built);
    },
    ap (λ x. x.0.always_run) (sym s.built),
    ap (λ x. x.0.always_limit) (sym s.built),
    ap (λ x. x.1.triggered_by_event) (sym s.built),
  )

  -- `step` changes neither the configuration nor the context nor the history of the engine.
  pub step-SameState :
      (e e' : Engine Ctx Evt) (r : Option (Microstep Ctx Cmd))
      → step hooks d e ≡ some (e', r)
      → SameState e e'
  step-SameState e e' r eq = by_case (step-StepCase hooks d e e' r eq)
    where
      by_case : StepCase hooks d e e' r → SameState e e'
      by_case (exceeded _ _ left _) = record {
        cfg = ap (λ x. x.cfg) left;
        ctx = ap (λ x. x.ctx) left;
        hist = ap (λ x. x.hist) left;
      }
      by_case (eventless ms _ _ _ s) =
          let same = (StagedFor-SameState s).0 in
          record { cfg = same.cfg; ctx = same.ctx; hist = same.hist }
      by_case (internal ms _ _ _ _ _ _ _ _ s) =
          let same = (StagedFor-SameState s).0 in
          record { cfg = same.cfg; ctx = same.ctx; hist = same.hist }
      by_case (external ms _ _ _ _ _ _ s) =
          let same = (StagedFor-SameState s).0 in
          record { cfg = same.cfg; ctx = same.ctx; hist = same.hist }
      by_case (quiescent _ _ _ left _) = record {
        cfg = ap (λ x. x.cfg) left;
        ctx = ap (λ x. x.ctx) left;
        hist = ap (λ x. x.hist) left;
      }

  -- A number of eventless microsteps in a row, each committed.
  pub data Chain (e : Engine Ctx Evt) : ℕ → Engine Ctx Evt → Type 0 where
    start : Chain e 0 e
    next :
        {n : ℕ} {e' : Engine Ctx Evt} (e'' : Engine Ctx Evt) (ms : Microstep Ctx Cmd)
        → Chain e n e'
        → step hooks d e' ≡ some (e'', some ms)
        → ms.triggered_by_event ≡ false
        → Chain e (suc n) (commit hooks e'' ms)

  -- One eventless microstep uses up one of the limit.
  one_counts :
      (e e' : Engine Ctx Evt) (ms : Microstep Ctx Cmd)
      → step hooks d e ≡ some (e', some ms)
      → ms.triggered_by_event ≡ false
      → ((commit hooks e' ms).always_run ≡ suc e.always_run)
        × ((commit hooks e' ms).always_limit ≡ e.always_limit)
        × (e.always_run < e.always_limit)
  unfolding commit
  one_counts e e' ms eq not_triggered = by_case (step-StepCase hooks d e e' (some ms) eq)
    where
      by_case :
          StepCase hooks d e e' (some ms)
          → ((if ms.triggered_by_event then 0 else e'.always_run) ≡ suc e.always_run)
            × (e'.always_limit ≡ e.always_limit)
            × (e.always_run < e.always_limit)
      by_case (exceeded _ _ _ gone) = cc
      by_case (eventless ms' _ below same s) =
          let (state, run, limit, triggered) = StagedFor-SameState s in
          (rw not_triggered run, limit, below)
      by_case (internal ms' _ _ _ _ _ _ _ same s) =
          let (state, run, limit, triggered) = StagedFor-SameState s in cc
      by_case (external ms' _ _ _ _ _ same s) =
          let (state, run, limit, triggered) = StagedFor-SameState s in cc
      by_case (quiescent _ _ _ _ gone) = cc

  Chain-counts :
      {e e' : Engine Ctx Evt} {n : ℕ}
      → Chain e n e'
      → (e'.always_run ≡ e.always_run + n) × (e'.always_limit ≡ e.always_limit)
  Chain-counts start = (omega arith, refl)
  Chain-counts (next {n} {e'} e'' ms before eq t) =
      let (run, limit) = Chain-counts before in
      let (run', limit', below) = one_counts e' e'' ms eq t in (omega arith, limit' ∙ limit)

  -- One or more eventless microsteps in a row, each committed, number at most the limit, less
  -- those counted before.
  pub Chain-le-limit :
      {e e' : Engine Ctx Evt} (n : ℕ) → Chain e (suc n) e' → e.always_run + suc n ≤ e.always_limit
  Chain-le-limit n (next {e'} e'' ms before eq t) =
      let (run, limit) = Chain-counts before in
      let (run', limit', below) = one_counts e' e'' ms eq t in omega arith
