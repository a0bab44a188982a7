-- ===== src/Engine/Step.antt =====
-- `offer`, `offerDescriptor` and `step` of microstep.go.
use statesman.Base.{suc, String, true, false, Option, none, some, List, [], ◌∷◌, leb, if◌then◌else◌}
use statesman.Definition.{Transition, Definition}
use statesman.Select.{select_transitions, select_eventless_transitions}
use statesman.Status.{ActorStatus, always_loop_exceeded}
use statesman.Engine.{Hooks, QueuedEvent, Microstep, Engine, guard_pass}
use statesman.Engine.Apply.{microstep_for, queued}

module _ {Ctx Evt Cmd : Type 0} (hooks : Hooks Ctx Evt Cmd) where
  unfoldable pub offer : Engine Ctx Evt → Evt → Engine Ctx Evt
  offer e evt = record e {
    pending_external =
        some (record { descriptor = hooks.event_type evt; payload = evt; has_payload = true });
  }

  unfoldable pub offer_descriptor : Engine Ctx Evt → String → Engine Ctx Evt
  offer_descriptor e desc = record e { pending_external = some (queued hooks desc) }

  -- The engine after a call of `step`, with the microstep that it staged, or with `none` where the
  -- macrostep is quiescent.
  abbrev pub Stepped : Type 0
  Stepped = Engine Ctx Evt × Option (Microstep Ctx Cmd)

  abbrev pub staged : Option (Engine Ctx Evt × Microstep Ctx Cmd) → Option Stepped
  staged none = none
  staged (some (e, ms)) = some (e, some ms)

  abbrev pub select_for : Definition → Engine Ctx Evt → QueuedEvent Evt → List Transition
  select_for d e qe = select_transitions d.heap e.cfg qe.descriptor (guard_pass hooks e qe.payload)

  -- The part of `step` after the internal queue: the external event, taken off and handled or
  -- dropped.
  unfoldable pub step_external :
      Definition → Engine Ctx Evt → Option (QueuedEvent Evt) → Option Stepped
  unfolding microstep_for
  step_external d e none = some (e, none)
  step_external d e (some qe) =
      let e' = record e { pending_external = none } in
      elim (select_for d e' qe) [
        | [] ↦ some (e', none)
        | t ∷ ts ↦ staged (microstep_for hooks d e' (t ∷ ts) qe.payload true)
      ]

  -- The loop over the internal queue: an event that nothing matches is discarded.
  unfoldable pub step_internal :
      Definition → Engine Ctx Evt → List (QueuedEvent Evt) → Option Stepped
  unfolding step_external microstep_for
  step_internal d e [] = step_external d (record e { internal_queue = [] }) e.pending_external
  step_internal d e (qe ∷ rest) =
      let e' = record e { internal_queue = rest } in
      let next = step_internal d e rest in
      elim (select_for d e' qe) [
        | [] ↦ next
        | t ∷ ts ↦ staged (microstep_for hooks d e' (t ∷ ts) qe.payload true)
      ]

  -- Eventless transitions come before internal events, and these before the external event.
  unfoldable pub step : Definition → Engine Ctx Evt → Option Stepped
  unfolding step_internal microstep_for
  step d e =
      let exceeded = record e {
        status = ActorStatus.error;
        err_reason = some always_loop_exceeded;
      } in
      let counted = record e { always_run = suc e.always_run } in
      elim (select_eventless_transitions d.heap e.cfg (guard_pass hooks e hooks.zero_event)) [
        | [] ↦ step_internal d e e.internal_queue
        | t ∷ ts ↦
            if leb e.always_limit e.always_run
            then some (exceeded, none)
            else staged (microstep_for hooks d counted (t ∷ ts) hooks.zero_event false)
      ]
