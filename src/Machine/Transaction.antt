-- ===== src/Machine/Transaction.antt =====
-- `execMicrostep` as a transaction of the actor.
use statesman.Base.{
  refl, Option, Option-cases, inl, inr, ◌+◌, arith, ◌≡◌, ap, ◌∙◌, suc, true, false, String, none,
  some, List, [], ◌∷◌, ◌++◌, map, All,
}
use mathlib.Core.List.{append_assoc}
use statesman.Status.{ActorStatus, observer_error}
use statesman.Snapshot.{Snapshot}
use statesman.Engine.{Microstep}
use statesman.Engine.Apply.{commit}
use statesman.Machine.{
  ArmedTimer, Config, Machine, Output, published, notified, cancelled, now, read_clock, emit,
}
use statesman.Machine.Timers.{timers_for, surviving, arm_after_timers}
use statesman.Machine.Invokes.{drain_effects, drain_outbox}
use statesman.Machine.Exec.{
  notify_subs, next_snapshot, first_error, publish_observer_abort, commit_microstep, exec_microstep,
}
use statesman.Machine.Commit.{
  cancellations, armed_with, armings, deliveries, notify_subs-eq, cancel_after_timers-eq,
  arm_all-eq, drain_effects-eq,
}

append_all {ℓ} :
    {A : Type ℓ} (as' bs cs ds es fs : List A)
    → as' ++ bs ++ cs ++ ds ++ es ++ fs ≡ as' ++ (bs ++ cs ++ ds ++ es ++ fs)
append_all as' bs cs ds es fs =
    ap (λ l. l ++ ds ++ es ++ fs) (append_assoc as' bs cs)
    ∙ ap (λ l. l ++ es ++ fs) (append_assoc as' (bs ++ cs) ds)
    ∙ ap (λ l. l ++ fs) (append_assoc as' (bs ++ cs ++ ds) es)
    ∙ append_assoc as' (bs ++ cs ++ ds ++ es) fs

module _ {Ctx Evt Cmd : Type 0} (config : Config Ctx Evt Cmd) where
  -- What the subscribers get.
  abbrev pub to_subscribers : Snapshot Ctx → Machine Ctx Evt Cmd → List (Output Ctx Cmd)
  to_subscribers s m = map (λ sub. notified sub s) m.local_subs

  -- The snapshot that an observer's error leaves.
  abbrev pub aborted_snapshot : String → Machine Ctx Evt Cmd → Snapshot Ctx
  aborted_snapshot err m = record m.snap {
    status = ActorStatus.error;
    error_reason = some (observer_error err "transition");
    version = suc m.version;
  }

  -- The observer lets the planned snapshot of the microstep pass.
  abbrev pub Passes :
      Machine Ctx Evt Cmd
      → Microstep Ctx Cmd
      → (Snapshot Ctx → Snapshot Ctx → Evt → Option String)
      → Type 0
  Passes m ms o = o m.snap (next_snapshot config m ms) m.eng.last_evt ≡ none

  abbrev verdict : Machine Ctx Evt Cmd → Microstep Ctx Cmd → Option String
  verdict m ms =
      first_error config config.transition_obs m.snap (next_snapshot config m ms) m.eng.last_evt

  module _ (before after : Snapshot Ctx) (evt : Evt) where
    first_error-passes :
        (os : List (Snapshot Ctx → Snapshot Ctx → Evt → Option String))
        → All (λ o. o before after evt ≡ none) os
        → first_error config os before after evt ≡ none
    unfolding first_error
    first_error-passes [] p = refl
    first_error-passes (o ∷ os) p = rw p.0 (first_error-passes os p.1)

    first_error-refuses :
        (os later : List (Snapshot Ctx → Snapshot Ctx → Evt → Option String))
        (o : Snapshot Ctx → Snapshot Ctx → Evt → Option String) (err : String)
        → All (λ x. x before after evt ≡ none) os
        → o before after evt ≡ some err
        → first_error config (os ++ o ∷ later) before after evt ≡ some err
    unfolding first_error
    first_error-refuses [] later o err p refused = rw refused
    first_error-refuses (x ∷ os) later o err p refused =
        rw p.0 (first_error-refuses os later o err p.1 refused)

  exec_microstep_refused :
      (ms : Microstep Ctx Cmd) (m : Machine Ctx Evt Cmd) (err : String)
      → verdict m ms ≡ some err
      → exec_microstep config ms m ≡ (
        record m {
          snap = aborted_snapshot err m;
          version = suc m.version;
          clock_reads = suc m.clock_reads;
          trace =
              (m.trace ++ published (aborted_snapshot err m) ∷ [])
              ++ to_subscribers (aborted_snapshot err m) m;
        },
        false,
      )
  unfolding exec_microstep publish_observer_abort
  exec_microstep_refused ms m err refused =
      rw (refused, exec_microstep)
        (ap (λ m'. (m', false)) (notify_subs-eq config m.local_subs (aborted_snapshot err m) _))

  -- Where an observer answers with an error and those before it without, whatever the later ones
  -- say, `execMicrostep` changes neither the engine nor timers, children and mailbox: it publishes
  -- the last snapshot with the status error, the reason and the next version.
  pub exec_microstep-aborted :
      (ms : Microstep Ctx Cmd) (m : Machine Ctx Evt Cmd)
      (passing later : List (Snapshot Ctx → Snapshot Ctx → Evt → Option String))
      (o : Snapshot Ctx → Snapshot Ctx → Evt → Option String) (err : String)
      → config.transition_obs ≡ passing ++ o ∷ later
      → All (Passes m ms) passing
      → o m.snap (next_snapshot config m ms) m.eng.last_evt ≡ some err
      → exec_microstep config ms m ≡ (
        record m {
          snap = aborted_snapshot err m;
          version = suc m.version;
          clock_reads = suc m.clock_reads;
          trace =
              (m.trace ++ published (aborted_snapshot err m) ∷ [])
              ++ to_subscribers (aborted_snapshot err m) m;
        },
        false,
      )
  exec_microstep-aborted ms m passing later o err split passes refused =
      let after = next_snapshot config m ms in
      exec_microstep_refused ms m err (
        ap (λ os. first_error config os m.snap after m.eng.last_evt) split
        ∙ first_error-refuses m.snap after m.eng.last_evt passing later o err passes refused)

  -- The timers that the states entered by a microstep arm, by the second reading of the clock.
  abbrev pub fresh_timers : Machine Ctx Evt Cmd → Microstep Ctx Cmd → List ArmedTimer
  fresh_timers m ms =
      timers_for config.definition.heap config.delays (config.clock (suc m.clock_reads)) ms.entered

  abbrev armed_next : Machine Ctx Evt Cmd → Microstep Ctx Cmd → List ArmedTimer
  armed_next m ms = timers_for config.definition.heap config.delays (now config m) ms.entered

  -- What a commit shows, in its order.
  abbrev pub commit_outputs : Machine Ctx Evt Cmd → Microstep Ctx Cmd → List (Output Ctx Cmd)
  commit_outputs m ms =
      published (next_snapshot config m ms) ∷ []
      ++ map (λ a. cancelled a) (cancellations ms.exited m.armed)
      ++ armings config.definition.heap (fresh_timers m ms)
      ++ deliveries m.children ms.effects
      ++ to_subscribers (next_snapshot config m ms) m

  commit_microstep-eq :
      (after : Snapshot Ctx) (ms : Microstep Ctx Cmd) (m : Machine Ctx Evt Cmd)
      → commit_microstep config after ms m ≡ record m {
        eng = commit config.hooks m.eng ms;
        snap = after;
        version = suc m.version;
        armed = armed_with (armed_next m ms) (surviving ms.exited m.armed);
        clock_reads = suc m.clock_reads;
        trace =
            m.trace
            ++ (published after ∷ []
                ++ map (λ a. cancelled a) (cancellations ms.exited m.armed)
                ++ armings config.definition.heap (armed_next m ms)
                ++ deliveries m.children ms.effects
                ++ to_subscribers after m);
      }
  unfolding commit_microstep arm_after_timers drain_outbox
  commit_microstep-eq after ms m =
      let h = config.definition.heap in
      let stored =
        emit config (published after) (record m {
          eng = commit config.hooks m.eng ms;
          version = suc m.version;
          snap = after;
        }) in
      let finish = λ (x : Machine Ctx Evt Cmd). notify_subs config x.local_subs after x in
      let stops : List (Output Ctx Cmd) =
        map (λ a. cancelled a) (cancellations ms.exited m.armed) in
      let starts : List (Output Ctx Cmd) = armings h (armed_next m ms) in
      let sent = deliveries m.children ms.effects in
      let told = to_subscribers after m in
      let left = surviving ms.exited m.armed in
      ap (λ x. finish (drain_effects config ms.effects (arm_after_timers config ms.entered x)))
        (cancel_after_timers-eq config ms.exited stored)
      ∙ ap (λ x. finish (drain_effects config ms.effects x)) (arm_all-eq config (armed_next m ms) _)
      ∙ ap finish (drain_effects-eq config ms.effects _)
      ∙ notify_subs-eq config m.local_subs after _
      ∙ ap
          (λ t. record stored {
            armed = armed_with (armed_next m ms) left;
            clock_reads = suc m.clock_reads;
            trace = t;
          })
          (append_all m.trace (published after ∷ []) stops starts sent told)

  exec_microstep_passed :
      (ms : Microstep Ctx Cmd) (m : Machine Ctx Evt Cmd)
      → verdict m ms ≡ none
      → exec_microstep config ms m ≡ (
        record m {
          eng = commit config.hooks m.eng ms;
          snap = next_snapshot config m ms;
          version = suc m.version;
          armed = armed_with (fresh_timers m ms) (surviving ms.exited m.armed);
          clock_reads = suc (suc m.clock_reads);
          trace = m.trace ++ commit_outputs m ms;
        },
        true,
      )
  unfolding exec_microstep commit_microstep
  exec_microstep_passed ms m passes =
      rw (passes, exec_microstep)
        (ap (λ m'. (m', true))
          (commit_microstep-eq (next_snapshot config m ms) ms (read_clock config m)))

  -- Where every observer answers the planned snapshot without an error, `execMicrostep` commits
  -- the engine, stores that snapshot, and after that cancels timers, arms timers, delivers and
  -- notifies, in this order; it leaves everything else as it was.
  pub exec_microstep-committed :
      (ms : Microstep Ctx Cmd) (m : Machine Ctx Evt Cmd)
      → All (Passes m ms) config.transition_obs
      → exec_microstep config ms m ≡ (
        record m {
          eng = commit config.hooks m.eng ms;
          snap = next_snapshot config m ms;
          version = suc m.version;
          armed = armed_with (fresh_timers m ms) (surviving ms.exited m.armed);
          clock_reads = suc (suc m.clock_reads);
          trace = m.trace ++ commit_outputs m ms;
        },
        true,
      )
  exec_microstep-committed ms m passes = exec_microstep_passed ms m (
      first_error-passes m.snap (next_snapshot config m ms) m.eng.last_evt config.transition_obs
        passes)

  -- Committed or refused, a microstep publishes a snapshot with the next version, which is also
  -- the actor's, and leaves the mailbox and the children as they were.
  pub exec_microstep_version :
      (ms : Microstep Ctx Cmd) (m : Machine Ctx Evt Cmd)
      → ((exec_microstep config ms m).0.version ≡ suc m.version)
        × ((exec_microstep config ms m).0.snap.version ≡ suc m.version)
        × ((exec_microstep config ms m).0.mailbox ≡ m.mailbox)
        × ((exec_microstep config ms m).0.children ≡ m.children)
  unfolding next_snapshot
  exec_microstep_version ms m = elim (Option-cases (verdict m ms)) [
    | inl passes ↦
        let next : m.version + 1 ≡ suc m.version = omega arith in
        rw (exec_microstep_passed ms m passes) (refl, next, refl, refl)
    | inr (err, refused) ↦ rw (exec_microstep_refused ms m err refused) (refl, refl, refl, refl)
  ]
