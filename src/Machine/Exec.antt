-- ===== src/Machine/Exec.antt =====
-- `execMicrostep`, `runMacrostep` and what they publish (machine.go).
use statesman.Base.{
  ℕ, zero, suc, ◌+◌, String, Bool, true, false, Option, none, some, List, [], ◌∷◌, if◌then◌else◌,
}
use statesman.Status.{ActorStatus, terminal, Error, observer_error}
use statesman.Snapshot.{Snapshot}
use statesman.Engine.{Microstep}
use statesman.Engine.Apply.{commit}
use statesman.Engine.Step.{step}
use statesman.Machine.{published, notified, Config, Machine, emit, read_clock}
use statesman.Machine.Timers.{planned_pending, arm_after_timers, cancel_after_timers}
use statesman.Machine.Invokes.{restarts, drain_outbox}

module _ {Ctx Evt Cmd : Type 0} (config : Config Ctx Evt Cmd) where
  unfoldable pub notify_subs : List ℕ → Snapshot Ctx → Machine Ctx Evt Cmd → Machine Ctx Evt Cmd
  notify_subs [] s m = m
  notify_subs (sub ∷ subs) s m = notify_subs subs s (emit config (notified sub s) m)

  -- `m.snap.Store(&s)`
  abbrev pub publish : Snapshot Ctx → Machine Ctx Evt Cmd → Machine Ctx Evt Cmd
  publish s m = emit config (published s) (record m { snap = s })

  -- The snapshot of the actor with a new version: the end of `publishObserverAbort`,
  -- `publishTerminalError` and of the first branch of `shutdown`.
  abbrev pub publish_next : Snapshot Ctx → Machine Ctx Evt Cmd → Machine Ctx Evt Cmd
  publish_next s m =
      let s' = record s { version = suc m.version } in
      notify_subs m.local_subs s' (publish s' (record m { version = suc m.version }))

  -- The snapshot after a microstep.
  unfoldable pub next_snapshot : Machine Ctx Evt Cmd → Microstep Ctx Cmd → Snapshot Ctx
  unfolding planned_pending restarts
  next_snapshot m ms = record {
    machine_id = config.definition.id;
    address = m.addr;
    active_states = ms.next_active;
    context = ms.next_context;
    pending_after = planned_pending config m ms;
    children = [];
    status = if ms.reached_final then ActorStatus.done else ActorStatus.running;
    error_reason = none;
    version = m.version + 1;
    invoke_restarts = restarts m.invoke_spawns;
  }

  -- The loop over the observers: the first error.
  unfoldable pub first_error :
      List (Snapshot Ctx → Snapshot Ctx → Evt → Option String)
      → Snapshot Ctx
      → Snapshot Ctx
      → Evt
      → Option String
  first_error [] before after evt = none
  first_error (o ∷ os) before after evt =
      let rest = first_error os before after evt in
      elim (o before after evt) [ none ↦ rest | some err ↦ some err ]

  unfoldable pub publish_observer_abort :
      Snapshot Ctx → String → Machine Ctx Evt Cmd → Machine Ctx Evt Cmd
  unfolding notify_subs
  publish_observer_abort before cause m =
      publish_next
        (record before {
          status = ActorStatus.error;
          error_reason = some (observer_error cause "transition");
        })
        m

  unfoldable pub publish_terminal_error : Option Error → Machine Ctx Evt Cmd → Machine Ctx Evt Cmd
  unfolding notify_subs
  publish_terminal_error reason m =
      publish_next (record m.snap { status = ActorStatus.error; error_reason = reason }) m

  -- What follows when every observer has let the transition pass.
  unfoldable pub commit_microstep :
      Snapshot Ctx → Microstep Ctx Cmd → Machine Ctx Evt Cmd → Machine Ctx Evt Cmd
  unfolding commit cancel_after_timers arm_after_timers drain_outbox notify_subs
  commit_microstep after ms m =
      let committed = record m { eng = commit config.hooks m.eng ms; version = suc m.version } in
      let stored = publish after committed in
      let cancelled = cancel_after_timers config ms.exited stored in
      let armed = arm_after_timers config ms.entered cancelled in
      let drained = drain_outbox config ms armed in notify_subs drained.local_subs after drained

  -- `false` where an observer aborts. The planning of the timers reads the clock once.
  unfoldable pub exec_microstep :
      Microstep Ctx Cmd → Machine Ctx Evt Cmd → Machine Ctx Evt Cmd × Bool
  unfolding next_snapshot first_error publish_observer_abort commit_microstep
  exec_microstep ms m =
      let before = m.snap in
      let after = next_snapshot m ms in
      let m' = read_clock config m in
      elim (first_error config.transition_obs before after m.eng.last_evt) [
        | some err ↦ (publish_observer_abort before err m', false)
        | none ↦ (commit_microstep after ms m', true)
      ]

  abbrev is_error : ActorStatus → Bool
  is_error ActorStatus.error = true
  is_error _ = false

  -- What `runMacrostep` does with a quiescent engine.
  abbrev settle : Machine Ctx Evt Cmd → Machine Ctx Evt Cmd × Bool
  settle m =
      if is_error m.eng.status
      then (publish_terminal_error m.eng.err_reason m, false)
      else (m, true)

  -- `none` where the loop has not ended within its fuel, or a microstep's entry set did not come.
  unfoldable pub run_macrostep : ℕ → Machine Ctx Evt Cmd → Option (Machine Ctx Evt Cmd × Bool)
  unfolding step exec_microstep publish_terminal_error terminal
  run_macrostep zero m = none
  run_macrostep (suc fuel) m =
      let again = λ (m' : Machine Ctx Evt Cmd). run_macrostep fuel m' in
      elim (step config.hooks config.definition m.eng) [
        | none ↦ none
        | some (e, none) ↦ some (settle (record m { eng = e }))
        | some (e, some ms) ↦
            let (m', passed) = exec_microstep ms (record m { eng = e }) in
            if passed
            then (if terminal m'.eng.status then some (m', false) else again m')
            else some (m', false)
      ]
