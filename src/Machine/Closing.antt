-- ===== src/Machine/Closing.antt =====
-- `shutdown`, `Send` and `TrySend`: how an actor ends, and who may still talk to it.
use statesman.Base.{
  ◌≡◌, refl, ap, sym, ◌∙◌, ℕ, suc, true, Bool, List, [], ◌∷◌, ◌++◌, if◌then◌else◌, map, inl, inr,
  Bool-cases,
}
use statesman.Base.{some, not, ◌||◌, arith}
use statesman.Status.{ActorStatus, terminal, actor_stopped}
use statesman.Snapshot.{Snapshot}
use statesman.Machine.{
  RunningChild, Config, Machine, Output, published, notified, cancelled, cancelled_child,
  closed_subscriber, actor_stop, emit, send, try_send, answered,
}
use statesman.Machine.Timers.{timers_in, cancel_timers}
use statesman.Machine.Commit.{shown, shown-nil, shown-append, notify_subs-eq, cancel_timers-eq}
use statesman.Machine.Loop.{cancel_children, close_subscribers, stop_reason, stop_status, shutdown}

module _ {Ctx Evt Cmd : Type 0} (config : Config Ctx Evt Cmd) where
  cancel_children-eq :
      (chs : List RunningChild) (m : Machine Ctx Evt Cmd)
      → cancel_children config chs m ≡ shown config (map (λ ch. cancelled_child ch.id) chs) m
  unfolding cancel_children
  cancel_children-eq [] m = sym (shown-nil config m)
  cancel_children-eq (ch ∷ chs) m =
      cancel_children-eq chs (emit config (cancelled_child ch.id) m)
      ∙ shown-append config m (cancelled_child ch.id ∷ []) (map (λ ch. cancelled_child ch.id) chs)

  close_subscribers-eq :
      (subs : List ℕ) (m : Machine Ctx Evt Cmd)
      → close_subscribers config subs m ≡ shown config (map (λ s. closed_subscriber s) subs) m
  unfolding close_subscribers
  close_subscribers-eq [] m = sym (shown-nil config m)
  close_subscribers-eq (s ∷ subs) m =
      close_subscribers-eq subs (emit config (closed_subscriber s) m)
      ∙ shown-append config m (closed_subscriber s ∷ []) (map (λ s. closed_subscriber s) subs)

  abbrev pub stopped_snapshot : Machine Ctx Evt Cmd → Snapshot Ctx
  stopped_snapshot m = record m.snap { status = ActorStatus.stopped; version = suc m.version }

  -- The last snapshot of the actor.
  abbrev pub last_snapshot : Machine Ctx Evt Cmd → Snapshot Ctx
  last_snapshot m = if terminal m.snap.status then m.snap else stopped_snapshot m

  -- What the actor shows of its end, if its status was not terminal before.
  abbrev pub last_outputs : Machine Ctx Evt Cmd → List (Output Ctx Cmd)
  last_outputs m =
      if terminal m.snap.status
      then []
      else published (stopped_snapshot m) ∷ []
        ++ map (λ sub. notified sub (stopped_snapshot m)) m.local_subs

  stop_status-eq :
      (m : Machine Ctx Evt Cmd)
      → stop_status config m
        ≡ shown config (last_outputs m) (record m {
          snap = last_snapshot m;
          version = if terminal m.snap.status then m.version else suc m.version;
        })
  unfolding stop_status
  stop_status-eq m = elim (Bool-cases (terminal m.snap.status)) [
    | inl over ↦ rw (over, stop_status) (sym (shown-nil config m))
    | inr goes_on ↦
        rw (goes_on, stop_status)
          (notify_subs-eq config m.local_subs (stopped_snapshot m) _
            ∙ shown-append config (record m { snap = stopped_snapshot m; version = suc m.version })
                (published (stopped_snapshot m) ∷ [])
                (map (λ sub. notified sub (stopped_snapshot m)) m.local_subs))
  ]

  last_snapshot-terminal : (m : Machine Ctx Evt Cmd) → terminal (last_snapshot m).status ≡ true
  unfolding terminal
  last_snapshot-terminal m = elim (Bool-cases (terminal m.snap.status)) [
    | inl over ↦ rw over over
    | inr goes_on ↦ rw (goes_on, terminal) refl
  ]

  shutdown-eq :
      (m : Machine Ctx Evt Cmd)
      → shutdown config m ≡ record m {
        children = [];
        armed = [];
        local_subs = [];
        stopped = true;
        snap = last_snapshot m;
        version = if terminal m.snap.status then m.version else suc m.version;
        trace =
            m.trace
            ++ map (λ ch. cancelled_child ch.id) m.children
            ++ map (λ a. cancelled a) (timers_in m.armed)
            ++ last_outputs m
            ++ actor_stop m.addr (stop_reason config (last_snapshot m)) ∷ []
            ++ map (λ s. closed_subscriber s) m.local_subs;
      }
  unfolding shutdown
  shutdown-eq m =
      let finish = λ (x : Machine Ctx Evt Cmd).
        record (close_subscribers config x.local_subs
          (emit config (actor_stop x.addr (stop_reason config x.snap)) x)) {
            local_subs = [];
            stopped = true;
          } in
      let childless : Machine Ctx Evt Cmd =
        record (shown config (map (λ ch. cancelled_child ch.id) m.children) m) { children = [] } in
      let quiet : Machine Ctx Evt Cmd =
        record (shown config (map (λ a. cancelled a) (timers_in m.armed)) childless) {
          armed = [];
        } in
      let told : Machine Ctx Evt Cmd =
        emit config (actor_stop m.addr (stop_reason config (last_snapshot m))) (record quiet {
          snap = last_snapshot m;
          version = if terminal m.snap.status then m.version else suc m.version;
          trace = quiet.trace ++ last_outputs m;
        }) in
      let timerless = λ (x : Machine Ctx Evt Cmd).
        record (cancel_timers config (timers_in x.armed) x) { armed = [] } in
      ap
        (λ (x : Machine Ctx Evt Cmd).
          finish (stop_status config (timerless (record x { children = [] }))))
        (cancel_children-eq m.children m)
      ∙ ap (λ (x : Machine Ctx Evt Cmd). finish (stop_status config (record x { armed = [] })))
          (cancel_timers-eq config (timers_in m.armed) childless)
      ∙ ap finish (stop_status-eq quiet)
      ∙ ap (λ (x : Machine Ctx Evt Cmd). record x { local_subs = []; stopped = true })
          (close_subscribers-eq m.local_subs told)

  -- After `shutdown` the status is terminal, the actor is stopped, no child, timer or subscriber
  -- is left, and the outputs come in the order children, timers, last snapshot, stop, ends of
  -- subscriptions.
  pub shutdown-terminal :
      (m : Machine Ctx Evt Cmd)
      → (terminal (shutdown config m).snap.status ≡ true)
        × ((shutdown config m).stopped ≡ true)
        × ((shutdown config m).children ≡ [])
        × ((shutdown config m).armed ≡ [])
        × ((shutdown config m).local_subs ≡ [])
        × ((shutdown config m).trace
            ≡ m.trace
              ++ map (λ ch. cancelled_child ch.id) m.children
              ++ map (λ a. cancelled a) (timers_in m.armed)
              ++ last_outputs m
              ++ actor_stop m.addr (stop_reason config (last_snapshot m)) ∷ []
              ++ map (λ s. closed_subscriber s) m.local_subs)
  shutdown-terminal m = rw (shutdown-eq m) (last_snapshot-terminal m, refl, refl, refl, refl, refl)

  -- After `shutdown`, `Send` and `TrySend` answer that the actor is stopped and leave it as it is,
  -- whatever the mailbox holds and whether or not the caller's context is over.
  pub send-shutdown :
      (m : Machine Ctx Evt Cmd) (evt : Evt) (receiving ctx_over picks_ctx : Bool)
      → (send config evt receiving ctx_over picks_ctx (shutdown config m)
          ≡ (shutdown config m, answered (some actor_stopped)))
        × (try_send config evt receiving (shutdown config m)
            ≡ (shutdown config m, some actor_stopped))
  unfolding send try_send
  send-shutdown m evt receiving ctx_over picks_ctx =
      let is_gone : (not (shutdown config m).started || (shutdown config m).stopped) ≡ true =
        grind (arith, (shutdown-terminal m).1) in
      rw (is_gone, send, try_send) (refl, refl)
