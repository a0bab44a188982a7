-- ===== src/Machine/Pending.antt =====
-- The timers that a snapshot shows, `plannedPending`, against those that `execMicrostep` arms.
use statesman.Base.{◌≡◌, sym, suc, List, [], ◌∷◌, ◌++◌, ◌==◌, map, inl, inr, Bool-cases, All}
use mathlib.Core.List.{
  append_assoc, append-nil, Perm, perm_append_comm, perm-append_left_iff, perm-append_right_iff,
}
use mathlib.Core.List.Perm
use statesman.Definition.{Addr}
use statesman.Engine.{Microstep}
use statesman.Machine.{ArmedTimer, Config, Machine}
use statesman.Machine.Timers.{surviving, timers_in, arm, as_scheduled, planned_pending}
use statesman.Machine.Exec.{next_snapshot, exec_microstep}
use statesman.Machine.Commit.{armed_with}
use statesman.Machine.Transaction.{exec_microstep-committed, fresh_timers, Passes}

timers_in-arm :
    (n : Addr) (a : ArmedTimer) (armed : List (Addr × List ArmedTimer))
    → Perm (timers_in (arm n a armed)) (timers_in armed ++ a ∷ [])
unfolding arm
timers_in-arm n a [] = Perm.refl (a ∷ [])
timers_in-arm n a ((k, arms) ∷ rest) = elim (Bool-cases (k == n)) [
  | inl here ↦
      rw
        (
          here,
          append_assoc arms (a ∷ []) (timers_in rest),
          append_assoc arms (timers_in rest) (a ∷ []),
        )
        ((perm-append_left_iff arms).1 (perm_append_comm (a ∷ []) (timers_in rest)))
  | inr later ↦
      rw (later, append_assoc arms (timers_in rest) (a ∷ []))
        ((perm-append_left_iff arms).1 (timers_in-arm n a rest))
]

timers_in-armed_with :
    (as' : List ArmedTimer) (armed : List (Addr × List ArmedTimer))
    → Perm (timers_in (armed_with as' armed)) (timers_in armed ++ as')
unfolding armed_with
timers_in-armed_with [] armed = rw (append-nil (timers_in armed)) (Perm.refl (timers_in armed))
timers_in-armed_with (a ∷ as') armed = Perm.trans (timers_in-armed_with as' (arm a.state a armed)) (
    rw (sym (append_assoc (timers_in armed) (a ∷ []) as'))
      ((perm-append_right_iff as').1 (timers_in-arm a.state a armed)))

module _ {Ctx Evt Cmd : Type 0} (config : Config Ctx Evt Cmd) where
  -- Where every observer answers without an error and the two readings of the clock in a microstep
  -- agree, the timers that its snapshot shows are the armed timers, up to their order.
  pub exec_microstep_pending :
      (ms : Microstep Ctx Cmd) (m : Machine Ctx Evt Cmd)
      → All (Passes config m ms) config.transition_obs
      → config.clock m.clock_reads ≡ config.clock (suc m.clock_reads)
      → Perm (exec_microstep config ms m).0.snap.pending_after (
          map
            (as_scheduled config.definition.heap)
            (timers_in (exec_microstep config ms m).0.armed))
  unfolding next_snapshot planned_pending
  exec_microstep_pending ms m passes same_time = rw (exec_microstep-committed config ms m passes) (
      Perm.symm (
        Perm.map (as_scheduled config.definition.heap) (
          rw same_time
            (timers_in-armed_with (fresh_timers config m ms) (surviving ms.exited m.armed)))))
