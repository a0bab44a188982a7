-- ===== src/Machine.antt =====
-- machine.go and the invoke part of actors.go: the actor around the engine.
--
-- The actor goroutine owns the state; what it does to the outside is the list `trace`, in order.
-- What it is given from outside is a record `Config`: the observers, the runners of the invokes,
-- and the readings of the clock, one for each call of `Now`.
pub mod Timers
pub mod Invokes
pub mod Exec
pub mod Loop
pub mod Commit
pub mod Transaction
pub mod Closing
pub mod Pending
use statesman.Base.{
  ℕ, zero, suc, ◌+◌, String, Bool, true, false, not, Option, none, some, List, [], ◌∷◌, ◌++◌, ltb,
  str_append, length, if◌then◌else◌, ◌||◌, ◌&&◌,
}
use statesman.Definition.{Addr, Definition, is_empty}
use statesman.Status.{
  ActorAddress, ActorStatus, Error, actor_stopped, already_started, mailbox_full, context_done,
}
use statesman.Snapshot.{Time, Duration, ScheduledTimer, Snapshot}
use statesman.Engine.{Hooks, Engine, new_engine}

abbrev pub default_mailbox_cap : ℕ
default_mailbox_cap = 256

-- `inboxItem`, by what the actor does with it: an event with a payload, a descriptor alone, a
-- settle ping with the name of its reply channel, or the sentinel of `CloseAfterDrain`.
pub data InboxItem (Evt : Type 0) : Type 0 where
  event : Evt → String → InboxItem Evt
  described : String → InboxItem Evt
  ping : ℕ → InboxItem Evt
  drain_close : InboxItem Evt

pub record ArmedTimer : Type 0 where
  pub descriptor : String
  pub deadline : Time
  pub state : Addr

-- `runningChild`: whether it has a `deliver` hook. Its `cancel` is the output `cancelled_child`.
pub record RunningChild : Type 0 where
  pub id : String
  pub address : ActorAddress
  pub sendable : Bool

-- What a runner does while it is called: the events it emits at once, and whether the child that
-- it starts takes commands.
pub record Spawned (Evt : Type 0) : Type 0 where
  pub emitted : List Evt
  pub sendable : Bool

-- What the actor does to the outside.
pub data Output (Ctx Cmd : Type 0) : Type 0 where
  published : Snapshot Ctx → Output Ctx Cmd
  notified : ℕ → Snapshot Ctx → Output Ctx Cmd
  scheduled : ArmedTimer → Output Ctx Cmd
  cancelled : ArmedTimer → Output Ctx Cmd
  observed_timer : ScheduledTimer → Output Ctx Cmd
  delivered : String → Cmd → Output Ctx Cmd
  started_child : String → ActorAddress → Output Ctx Cmd
  cancelled_child : String → Output Ctx Cmd
  acknowledged : ℕ → Bool → Output Ctx Cmd
  closed_subscriber : ℕ → Output Ctx Cmd
  actor_started : ActorAddress → Output Ctx Cmd
  actor_stop : ActorAddress → Option Error → Output Ctx Cmd

-- What is fixed at `Start`. `delays` answers 0 for a name that the map does not hold.
pub record Config (Ctx Evt Cmd : Type 0) : Type 0 where
  pub definition : Definition
  pub hooks : Hooks Ctx Evt Cmd
  pub transition_obs : List (Snapshot Ctx → Snapshot Ctx → Evt → Option String)
  pub runners : String → Option (Ctx → ActorAddress → Spawned Evt)
  pub clock : ℕ → Time
  pub delays : String → Duration
  pub always_limit : ℕ
  pub mailbox_cap : ℕ

pub record Machine (Ctx Evt Cmd : Type 0) : Type 0 where
  pub addr : ActorAddress
  pub init_ctx : Ctx
  pub started : Bool
  pub stopped : Bool
  pub eng : Engine Ctx Evt
  pub snap : Snapshot Ctx
  pub mailbox : List (InboxItem Evt)
  pub version : ℕ
  pub local_subs : List ℕ
  pub armed : List (Addr × List ArmedTimer)
  pub children : List RunningChild
  pub invoke_spawns : List (String × ℕ)
  pub clock_reads : ℕ
  pub trace : List (Output Ctx Cmd)

module _ {Ctx Evt Cmd : Type 0} (config : Config Ctx Evt Cmd) where
  -- The snapshot that `Snapshot()` answers with before `Start`, and that `Start` stores.
  abbrev pub starting_snapshot : Ctx → ActorAddress → Snapshot Ctx
  starting_snapshot ctx addr = record {
    machine_id = config.definition.id;
    address = addr;
    active_states = [];
    context = ctx;
    pending_after = [];
    children = [];
    status = ActorStatus.starting;
    error_reason = none;
    version = 0;
    invoke_restarts = [];
  }

  -- `NewMachine`
  unfoldable pub new_machine : Ctx → Machine Ctx Evt Cmd
  unfolding new_engine
  new_machine ctx = record {
    addr = "";
    init_ctx = ctx;
    started = false;
    stopped = false;
    eng = new_engine config.hooks ctx config.always_limit;
    snap = starting_snapshot ctx "";
    mailbox = [];
    version = 0;
    local_subs = [];
    armed = [];
    children = [];
    invoke_spawns = [];
    clock_reads = 0;
    trace = [];
  }

  abbrev pub emit : Output Ctx Cmd → Machine Ctx Evt Cmd → Machine Ctx Evt Cmd
  emit o m = record m { trace = m.trace ++ o ∷ [] }

  -- `m.cfg.clock.Now()`
  abbrev pub now : Machine Ctx Evt Cmd → Time
  now m = config.clock m.clock_reads

  abbrev pub read_clock : Machine Ctx Evt Cmd → Machine Ctx Evt Cmd
  read_clock m = record m { clock_reads = suc m.clock_reads }

  -- `Start`, up to the launch of the goroutine. The address is the caller's, behind a slash.
  unfoldable pub start_machine : String → Machine Ctx Evt Cmd → Machine Ctx Evt Cmd × Option Error
  unfolding new_engine
  start_machine addr m = if m.started then (m, some already_started) else (
    emit (actor_started (str_append "/" addr)) (record m {
      started = true;
      addr = str_append "/" addr;
      eng = new_engine config.hooks m.init_ctx config.always_limit;
      snap = starting_snapshot m.init_ctx (str_append "/" addr);
    }),
    none,
  )

  -- `SetInitialContext`
  unfoldable pub set_initial_context : Ctx → Machine Ctx Evt Cmd → Machine Ctx Evt Cmd
  set_initial_context ctx m = if m.started then m else record m { init_ctx = ctx }

  -- A send to the mailbox finds room: a free place, or a goroutine that waits to take the item,
  -- which is all that a mailbox of capacity 0 has.
  abbrev pub has_room : Bool → Machine Ctx Evt Cmd → Bool
  has_room receiving m =
      ltb (length m.mailbox) config.mailbox_cap || (receiving && is_empty m.mailbox)

  abbrev pub enqueue : InboxItem Evt → Machine Ctx Evt Cmd → Machine Ctx Evt Cmd
  enqueue it m = record m { mailbox = m.mailbox ++ it ∷ [] }

  -- What a call of `Send` comes to: an error or none, or it waits for room in the mailbox.
  pub data Reply : Type 0 where
    answered : Option Error → Reply
    waits : Reply

  -- `Send`, with whether the actor waits to receive, whether the caller's context is over, and
  -- which ready case the `select` takes where both are.
  unfoldable pub send : Evt → Bool → Bool → Bool → Machine Ctx Evt Cmd → Machine Ctx Evt Cmd × Reply
  send evt receiving ctx_over picks_ctx m =
      if not m.started || m.stopped
      then (m, answered (some actor_stopped))
      else if ctx_over && (picks_ctx || not (has_room receiving m))
      then (m, answered (some context_done))
      else if has_room receiving m
      then (enqueue (event evt (config.hooks.event_type evt)) m, answered none)
      else (m, waits)

  -- `TrySend`, with whether the actor waits to receive.
  unfoldable pub try_send : Evt → Bool → Machine Ctx Evt Cmd → Machine Ctx Evt Cmd × Option Error
  try_send evt receiving m =
      if not m.started || m.stopped
      then (m, some actor_stopped)
      else if has_room receiving m
      then (enqueue (event evt (config.hooks.event_type evt)) m, none)
      else (m, some mailbox_full)
