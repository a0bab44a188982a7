-- ===== src/Engine.antt =====
-- microstep.go: the interpreter's state, one microstep as a transaction on copies, and its commit.
--
-- The context and the event types are the machine's own, so they are parameters, as the closures
-- are that the generated constructor injects: a record `Hooks`. A command that an effect sends is
-- an `EventBase`, the third parameter.
pub mod Apply
pub mod Step
pub mod Staging
pub mod Actions
pub mod Priority
pub mod Limits
pub mod Progress
use statesman.Base.{
  ℕ, zero, suc, ◌+◌, String, Bool, true, false, Option, none, some, List, [], ◌∷◌, ◌++◌, ◌==◌, ◌&&◌,
  ◌||◌, if◌then◌else◌, any, all, keep, leb, mem, ◌>>=◌, str_append,
}
use statesman.Definition.{
  Addr, Heap, StateId, StateKind, HistoryKind, StateNode, ActionRef, Transition, Definition, node,
  is_atomic, is_descendant, is_empty,
}
use statesman.Configuration.{
  Configuration, new_configuration, add, remove, has, all_active, atomic_ids,
}
use statesman.Domain.{compute_exit_set}
use statesman.Select.{GuardPredicate, select_transitions, select_eventless_transitions}
use statesman.Entry.{
  History, EntrySet, no_entry, is_parallel, descend_from, compute_entry_set, ordered_entry,
}
use statesman.Status.{ActorAddress, ActorStatus, Error, always_loop_exceeded}

-- What an action's closure returns. The descriptor of a `spawn` is left out: nothing reads it.
pub data AppliedEffect (Ctx Cmd : Type 0) : Type 0 where
  noop : AppliedEffect Ctx Cmd
  assign : Ctx → AppliedEffect Ctx Cmd
  send : ActorAddress → Cmd → AppliedEffect Ctx Cmd
  spawn : ActorAddress → AppliedEffect Ctx Cmd

-- The closures `applyAction` and `evalGuard`, the zero value of the event type, and `EventType`.
pub record Hooks (Ctx Evt Cmd : Type 0) : Type 0 where
  pub apply_action : Option ℕ → Ctx → Evt → AppliedEffect Ctx Cmd
  pub eval_guard : Option ℕ → Ctx → Evt → Bool
  pub zero_event : Evt
  pub event_type : Evt → String

-- `queuedEvent`: with no payload the event is the zero value.
pub record QueuedEvent (Evt : Type 0) : Type 0 where
  pub descriptor : String
  pub payload : Evt
  pub has_payload : Bool

pub record Microstep (Ctx Cmd : Type 0) : Type 0 where
  pub transitions : List Transition
  pub exited : List Addr
  pub entered : List Addr
  pub prev_active : List StateId
  pub next_active : List StateId
  pub prev_context : Ctx
  pub next_context : Ctx
  pub effects : List (AppliedEffect Ctx Cmd)
  pub triggered_by_event : Bool
  pub reached_final : Bool
  pub cfg : Configuration
  pub hist : History
  pub internal_enqueue : List String

-- The fields of `engine` that change. `def` and the closures are passed beside it.
pub record Engine (Ctx Evt : Type 0) : Type 0 where
  pub cfg : Configuration
  pub ctx : Ctx
  pub hist : History
  pub internal_queue : List (QueuedEvent Evt)
  pub pending_external : Option (QueuedEvent Evt)
  pub always_limit : ℕ
  pub always_run : ℕ
  pub status : ActorStatus
  pub err_reason : Option Error
  pub last_evt : Evt

abbrev pub default_always_limit : ℕ
default_always_limit = 100

-- A limit that is not positive is 0 here.
abbrev limit_or_default : ℕ → ℕ
limit_or_default zero = default_always_limit
limit_or_default (suc n) = suc n

abbrev is_history : StateKind → Bool
is_history StateKind.history = true
is_history _ = false

abbrev pub is_final : StateKind → Bool
is_final StateKind.final = true
is_final _ = false

-- The states that one history child of `s` records, read from the configuration before the exit.
unfoldable pub recorded : Heap → Configuration → HistoryKind → Addr → List Addr
recorded h cfg HistoryKind.deep s =
    keep (λ n. is_atomic h n && is_descendant h n (some s)) (all_active h cfg)
recorded h cfg HistoryKind.shallow s = keep (has cfg) (node h s).children

-- `recordHistoryInto`: the loop over the children of `s`.
unfoldable pub record_children : Heap → Configuration → Addr → List Addr → History → History
unfolding recorded
record_children h cfg s [] hist = hist
record_children h cfg s (c ∷ cs) hist = record_children h cfg s cs (
    if is_history (node h c).kind
    then ((node h c).id, recorded h cfg (node h c).history_kind s) ∷ hist
    else hist)

unfoldable pub record_history_into : Heap → Addr → History → Configuration → History
unfolding record_children
record_history_into h s hist cfg = record_children h cfg s (node h s).children hist

-- Every region of a parallel state has an active final node at or below it.
unfoldable pub all_regions_final : Heap → Addr → Configuration → Bool
all_regions_final h gp cfg =
    all
      (λ r.
        any (λ n. is_final (node h n).kind && ((n == r) || is_descendant h n (some r)))
          (all_active h cfg))
      (node h gp).children

-- The descriptors that the entry of a final node below the root's level enqueues.
abbrev parent_of : Heap → Option Addr → Option Addr
parent_of h none = none
parent_of h (some p) = (node h p).parent

unfoldable pub regions_done : Heap → Option Addr → Configuration → List String
unfolding all_regions_final
regions_done h none cfg = []
regions_done h (some gp) cfg =
    if is_parallel (node h gp).kind && all_regions_final h gp cfg
    then str_append "done.state." (node h gp).id ∷ []
    else []

unfoldable pub done_states : Heap → Addr → Configuration → List String
unfolding regions_done
done_states h p cfg = str_append "done.state." (node h p).id ∷ regions_done h (node h p).parent cfg

module _ {Ctx Evt Cmd : Type 0} (hooks : Hooks Ctx Evt Cmd) where
  unfoldable pub new_engine : Ctx → ℕ → Engine Ctx Evt
  new_engine init_ctx always_limit = record {
    cfg = new_configuration;
    ctx = init_ctx;
    hist = [];
    internal_queue = [];
    pending_external = none;
    always_limit = limit_or_default always_limit;
    always_run = 0;
    status = ActorStatus.starting;
    err_reason = none;
    last_evt = hooks.zero_event;
  }

  -- The predicate that `guardPass` returns for an event.
  unfoldable pub guard_pass : Engine Ctx Evt → Evt → GuardPredicate
  guard_pass e evt t = elim t.guard [ none ↦ true | some g ↦ hooks.eval_guard g.callsite e.ctx evt ]

  -- The variables that `apply` writes while it runs: the staged configuration, history, context,
  -- outbox, descriptors to enqueue, and whether a final child of the root was entered.
  pub record Staged : Type 0 where
    pub cfg : Configuration
    pub hist : History
    pub ctx : Ctx
    pub effects : List (AppliedEffect Ctx Cmd)
    pub done_states : List String
    pub reached_final : Bool

  -- The closure `fold`.
  unfoldable pub fold : Evt → Option ℕ → Staged → Staged
  fold evt callsite s = elim (hooks.apply_action callsite s.ctx evt) [
    | noop ↦ s
    | assign ctx ↦ record s { ctx = ctx }
    | send target event ↦ record s { effects = s.effects ++ send target event ∷ [] }
    | spawn target ↦ record s { effects = s.effects ++ spawn target ∷ [] }
  ]
