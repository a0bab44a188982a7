-- ===== src/Machine/Commit.antt =====
-- What the loops of `execMicrostep` come to: each one only adds to what the actor does to the
-- outside, the loops over the timers also to the armed timers.
use statesman.Base.{
  ◌≡◌, refl, ap, sym, ◌∙◌, ℕ, none, some, List, [], ◌∷◌, ◌++◌, if◌then◌else◌, map, mem, ◌==◌, inl,
  inr, Bool-cases, Option-cases,
}
use mathlib.Core.List.{append-nil, append_assoc, map-append}
use statesman.Definition.{Addr, Heap}
use statesman.Status.{ActorAddress}
use statesman.Snapshot.{Snapshot}
use statesman.Engine.{AppliedEffect, noop, assign, send, spawn}
use statesman.Machine.{
  ArmedTimer, RunningChild, Config, Machine, Output, notified, cancelled, scheduled, observed_timer,
  delivered, emit,
}
use statesman.Machine.Timers.{
  arm, arm_timer, arm_all, cancel_timers, cancel_after_timers, armed_at, surviving, as_scheduled,
}
use statesman.Machine.Invokes.{target_child, deliver, drain_effects}
use statesman.Machine.Exec.{notify_subs}

-- The timers that `cancelAfterTimers` stops, in its order.
unfoldable pub cancellations : List Addr → List (Addr × List ArmedTimer) → List ArmedTimer
cancellations [] armed = []
cancellations (n ∷ ns) armed = armed_at n armed ++ cancellations ns (surviving (n ∷ []) armed)

unfoldable pub armed_with :
    List ArmedTimer → List (Addr × List ArmedTimer) → List (Addr × List ArmedTimer)
armed_with [] armed = armed
armed_with (a ∷ as') armed = armed_with as' (arm a.state a armed)

module _ {Ctx Cmd : Type 0} where
  -- What the arming of some timers shows outside.
  unfoldable pub armings : Heap → List ArmedTimer → List (Output Ctx Cmd)
  armings h [] = []
  armings h (a ∷ as') = scheduled a ∷ observed_timer (as_scheduled h a) ∷ armings h as'

  unfoldable pub delivery : ActorAddress → Cmd → List RunningChild → List (Output Ctx Cmd)
  delivery target cmd children = elim (target_child target children) [
    | none ↦ []
    | some ch ↦ if ch.sendable then delivered ch.id cmd ∷ [] else []
  ]

  -- The commands that reach a child, in the order of the effects.
  unfoldable pub deliveries :
      List RunningChild → List (AppliedEffect Ctx Cmd) → List (Output Ctx Cmd)
  deliveries children [] = []
  deliveries children (send target cmd ∷ effs) =
      delivery target cmd children ++ deliveries children effs
  deliveries children (_ ∷ effs) = deliveries children effs

surviving-nil : (armed : List (Addr × List ArmedTimer)) → surviving [] armed ≡ armed
unfolding surviving
surviving-nil [] = refl
surviving-nil (a ∷ rest) = ap (λ r. a ∷ r) (surviving-nil rest)

surviving-∷ :
    (n : Addr) (ns : List Addr) (armed : List (Addr × List ArmedTimer))
    → surviving (n ∷ ns) armed ≡ surviving ns (surviving (n ∷ []) armed)
unfolding surviving
surviving-∷ n ns [] = refl
surviving-∷ n ns ((k, arms) ∷ rest) =
    let ih = surviving-∷ n ns rest in
    elim (Bool-cases (k == n)) [
      | inl same ↦ rw same ih
      | inr other ↦ elim (Bool-cases (mem k ns)) [
        | inl gone ↦ rw (other, gone) ih
        | inr stays ↦ rw (other, stays) (ap (λ r. (k, arms) ∷ r) ih)
      ]
    ]

module _ {Ctx Evt Cmd : Type 0} (config : Config Ctx Evt Cmd) where
  -- The actor after it has shown `os` outside.
  abbrev pub shown : List (Output Ctx Cmd) → Machine Ctx Evt Cmd → Machine Ctx Evt Cmd
  shown os m = record m { trace = m.trace ++ os }

  pub shown-nil : (m : Machine Ctx Evt Cmd) → shown [] m ≡ m
  shown-nil m = ap (λ t. record m { trace = t }) (append-nil m.trace)

  pub shown-append :
      (m : Machine Ctx Evt Cmd) (os ps : List (Output Ctx Cmd))
      → shown ps (shown os m) ≡ shown (os ++ ps) m
  shown-append m os ps = ap (λ t. record m { trace = t }) (append_assoc m.trace os ps)

  pub notify_subs-eq :
      (subs : List ℕ) (s : Snapshot Ctx) (m : Machine Ctx Evt Cmd)
      → notify_subs config subs s m ≡ shown (map (λ sub. notified sub s) subs) m
  unfolding notify_subs
  notify_subs-eq [] s m = sym (shown-nil m)
  notify_subs-eq (sub ∷ subs) s m =
      notify_subs-eq subs s (emit config (notified sub s) m)
      ∙ shown-append m (notified sub s ∷ []) (map (λ sub. notified sub s) subs)

  pub cancel_timers-eq :
      (as' : List ArmedTimer) (m : Machine Ctx Evt Cmd)
      → cancel_timers config as' m ≡ shown (map (λ a. cancelled a) as') m
  unfolding cancel_timers
  cancel_timers-eq [] m = sym (shown-nil m)
  cancel_timers-eq (a ∷ as') m =
      cancel_timers-eq as' (emit config (cancelled a) m)
      ∙ shown-append m (cancelled a ∷ []) (map (λ a. cancelled a) as')

  pub cancel_after_timers-eq :
      (ns : List Addr) (m : Machine Ctx Evt Cmd)
      → cancel_after_timers config ns m
        ≡ shown
            (map (λ a. cancelled a) (cancellations ns m.armed))
            (record m { armed = surviving ns m.armed })
  unfolding cancel_after_timers cancellations
  cancel_after_timers-eq [] m = sym (
      shown-nil (record m { armed = surviving [] m.armed })
      ∙ ap (λ a. record m { armed = a }) (surviving-nil m.armed))
  cancel_after_timers-eq (n ∷ ns) m =
      let left = surviving (n ∷ []) m.armed in
      let stopped = map (λ a. cancelled a) (armed_at n m.armed) in
      let later = map (λ a. cancelled a) (cancellations ns left) in
      ap (λ m'. cancel_after_timers config ns (record m' { armed = surviving (n ∷ []) m'.armed }))
        (cancel_timers-eq (armed_at n m.armed) m)
      ∙ cancel_after_timers-eq ns (record m { armed = left; trace = m.trace ++ stopped })
      ∙ ap (λ a. record m { armed = a; trace = (m.trace ++ stopped) ++ later })
          (sym (surviving-∷ n ns m.armed))
      ∙ ap (λ t. record m { armed = surviving (n ∷ ns) m.armed; trace = t })
          (append_assoc m.trace stopped later
            ∙ ap (λ t. m.trace ++ t)
                (sym (map-append (λ a. cancelled a) (armed_at n m.armed) (cancellations ns left))))

  pub arm_all-eq :
      (as' : List ArmedTimer) (m : Machine Ctx Evt Cmd)
      → arm_all config m as'
        ≡ shown (armings config.definition.heap as') (record m { armed = armed_with as' m.armed })
  unfolding arm_all armings armed_with arm_timer
  arm_all-eq [] m = sym (shown-nil m)
  arm_all-eq (a ∷ as') m =
      arm_all-eq as' (arm_timer config m a)
      ∙ ap (λ t. record m { armed = armed_with as' (arm a.state a m.armed); trace = t })
          (append_assoc (m.trace ++ scheduled a ∷ []) (_ ∷ []) (armings config.definition.heap as')
            ∙ append_assoc m.trace (scheduled a ∷ []) (_ ∷ armings config.definition.heap as'))

  deliver-eq :
      (target : ActorAddress) (cmd : Cmd) (m : Machine Ctx Evt Cmd)
      → deliver config target cmd m ≡ shown (delivery target cmd m.children) m
  unfolding deliver delivery
  deliver-eq target cmd m = elim (Option-cases (target_child target m.children)) [
    | inl none? ↦ rw (none?, deliver, delivery) (sym (shown-nil m))
    | inr (ch, some?) ↦ elim (Bool-cases ch.sendable) [
      | inl takes ↦ rw (some?, deliver, delivery, takes) refl
      | inr deaf ↦ rw (some?, deliver, delivery, deaf) (sym (shown-nil m))
    ]
  ]

  pub drain_effects-eq :
      (effs : List (AppliedEffect Ctx Cmd)) (m : Machine Ctx Evt Cmd)
      → drain_effects config effs m ≡ shown (deliveries m.children effs) m
  unfolding drain_effects deliveries
  drain_effects-eq [] m = sym (shown-nil m)
  drain_effects-eq (send target cmd ∷ effs) m =
      ap (drain_effects config effs) (deliver-eq target cmd m)
      ∙ drain_effects-eq effs (shown (delivery target cmd m.children) m)
      ∙ shown-append m (delivery target cmd m.children) (deliveries m.children effs)
  drain_effects-eq (noop ∷ effs) m = drain_effects-eq effs m
  drain_effects-eq (assign x ∷ effs) m = drain_effects-eq effs m
  drain_effects-eq (spawn x ∷ effs) m = drain_effects-eq effs m
