-- ===== src/Machine/Loop.antt =====
-- The actor goroutine: `loop`, `drainAndClose`, `shutdown` (machine.go), one iteration at a time.
-- `none` is an actor that does not come to the next iteration within its fuel, or that an event of a
-- runner holds up at a full mailbox.
use statesman.Base.{
  ℕ, Bool, true, false, Option, none, some, List, [], ◌∷◌, ◌++◌, erase, if◌then◌else◌, ◌>>=◌,
}
use statesman.Definition.{is_empty}
use statesman.Status.{ActorStatus, terminal, Error}
use statesman.Snapshot.{Snapshot}
use statesman.Engine.Apply.{start}
use statesman.Engine.Step.{offer, offer_descriptor}
use statesman.Machine.{
  InboxItem, event, described, ping, drain_close, RunningChild, cancelled_child, acknowledged,
  closed_subscriber, actor_stop, Config, Machine, emit,
}
use statesman.Machine.Timers.{cancel_timers, timers_in}
use statesman.Machine.Invokes.{reconcile_invokes}
use statesman.Machine.Exec.{publish_next, exec_microstep, run_macrostep}

module _ {Ctx Evt Cmd : Type 0} (config : Config Ctx Evt Cmd) where
  unfoldable pub cancel_children : List RunningChild → Machine Ctx Evt Cmd → Machine Ctx Evt Cmd
  cancel_children [] m = m
  cancel_children (ch ∷ chs) m = cancel_children chs (emit config (cancelled_child ch.id) m)

  unfoldable pub close_subscribers : List ℕ → Machine Ctx Evt Cmd → Machine Ctx Evt Cmd
  close_subscribers [] m = m
  close_subscribers (s ∷ subs) m = close_subscribers subs (emit config (closed_subscriber s) m)

  abbrev pub stop_reason : Snapshot Ctx → Option Error
  stop_reason s = elim s.status [ ActorStatus.error ↦ s.error_reason | _ ↦ none ]

  -- The snapshot turns `stopped` unless its status is terminal already.
  unfoldable pub stop_status : Machine Ctx Evt Cmd → Machine Ctx Evt Cmd
  unfolding terminal
  stop_status m =
      if terminal m.snap.status
      then m
      else publish_next config (record m.snap { status = ActorStatus.stopped }) m

  unfoldable pub shutdown : Machine Ctx Evt Cmd → Machine Ctx Evt Cmd
  unfolding cancel_children cancel_timers stop_status close_subscribers
  shutdown m =
      let childless = record (cancel_children m.children m) { children = [] } in
      let timerless = record (cancel_timers config (timers_in childless.armed) childless) {
        armed = [];
      } in
      let stopped = stop_status timerless in
      let told = emit config (actor_stop stopped.addr (stop_reason stopped.snap)) stopped in
      record (close_subscribers told.local_subs told) { local_subs = []; stopped = true }

  -- The engine takes an event or a descriptor from the mailbox, and runs to quiescence.
  unfoldable pub handle_event :
      ℕ → InboxItem Evt → Machine Ctx Evt Cmd → Option (Machine Ctx Evt Cmd × Bool)
  unfolding offer offer_descriptor run_macrostep
  handle_event fuel (event evt desc) m =
      run_macrostep config fuel (record m { eng = offer config.hooks m.eng evt })
  handle_event fuel (described desc) m =
      run_macrostep config fuel (record m { eng = offer_descriptor config.hooks m.eng desc })
  handle_event fuel _ m = some (m, true)

  -- The loop of `drainAndClose` over what the mailbox holds when it is entered.
  unfoldable pub drain_and_close :
      ℕ → List (InboxItem Evt) → Machine Ctx Evt Cmd → Option (Machine Ctx Evt Cmd)
  unfolding handle_event shutdown
  drain_and_close fuel [] m = some (shutdown m)
  drain_and_close fuel (ping ack ∷ rest) m =
      drain_and_close fuel rest (emit config (acknowledged ack true) (record m { mailbox = rest }))
  drain_and_close fuel (drain_close ∷ rest) m =
      drain_and_close fuel rest (record m { mailbox = rest })
  drain_and_close fuel (it ∷ rest) m = do
    r ← handle_event fuel it (record m { mailbox = rest })
    let onward = drain_and_close fuel rest r.0
    if r.1 then onward else some (shutdown r.0)

  -- The actor after a macrostep: what `loop` does with the answer of `runMacrostep`.
  abbrev pub after_macrostep : Machine Ctx Evt Cmd × Bool → Option (Machine Ctx Evt Cmd)
  after_macrostep (m, true) = reconcile_invokes config m
  after_macrostep (m, false) = some (shutdown m)

  unfoldable pub boot_rest : ℕ → Machine Ctx Evt Cmd × Bool → Option (Machine Ctx Evt Cmd)
  unfolding run_macrostep reconcile_invokes shutdown terminal
  boot_rest fuel (m, false) = some (shutdown m)
  boot_rest fuel (m, true) =
      if terminal m.eng.status
      then some (shutdown m)
      else run_macrostep config fuel m >>= after_macrostep

  -- The first part of `loop`: the initial entry, up to the first quiescence.
  unfoldable pub boot : ℕ → Machine Ctx Evt Cmd → Option (Machine Ctx Evt Cmd)
  unfolding start exec_microstep boot_rest
  boot fuel m = do
    entry ← start config.hooks config.definition m.eng
    let m' = exec_microstep config entry.1 (record m { eng = entry.0 })
    boot_rest fuel m'

  -- The case of the `select` that the goroutine takes.
  pub data Choice : Type 0 where
    loop_done : Choice
    subscribe : ℕ → Choice
    unsubscribe : ℕ → Choice
    receive : Choice

  -- The branch of `loop` for an item taken from the mailbox.
  unfoldable pub receive_item :
      ℕ → InboxItem Evt → List (InboxItem Evt) → Machine Ctx Evt Cmd → Option (Machine Ctx Evt Cmd)
  unfolding handle_event drain_and_close shutdown reconcile_invokes
  receive_item fuel (ping ack) rest m =
      some (emit config (acknowledged ack (is_empty rest)) (record m { mailbox = rest }))
  receive_item fuel drain_close rest m = drain_and_close fuel rest (record m { mailbox = rest })
  receive_item fuel it rest m =
      handle_event fuel it (record m { mailbox = rest }) >>= after_macrostep

  -- One iteration; with nothing in the mailbox a receive waits. After `shutdown` there is none.
  unfoldable pub loop_step : ℕ → Choice → Machine Ctx Evt Cmd → Option (Machine Ctx Evt Cmd)
  unfolding receive_item shutdown
  loop_step fuel loop_done m = some (shutdown m)
  loop_step fuel (subscribe s) m = some (record m { local_subs = m.local_subs ++ s ∷ [] })
  loop_step fuel (unsubscribe s) m =
      some (emit config (closed_subscriber s) (record m { local_subs = erase s m.local_subs }))
  loop_step fuel receive m = elim m.mailbox [
    | [] ↦ some m
    | it ∷ rest ↦ receive_item fuel it rest m
  ]
