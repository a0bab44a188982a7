-- ===== src/Engine/Apply.antt =====
-- `apply`, `start`, `microstepFor` and `commit` of microstep.go.
use statesman.Base.{
  String, Bool, true, false, Option, none, some, List, [], ◌∷◌, ◌++◌, ◌==◌, if◌then◌else◌, map,
  ◌>>=◌,
}
use statesman.Definition.{Addr, Heap, ActionRef, Transition, Definition, node}
use statesman.Configuration.{Configuration, add, remove, atomic_ids}
use statesman.Domain.{compute_exit_set}
use statesman.Entry.{no_entry, descend_from, compute_entry_set, ordered_entry}
use statesman.Status.{ActorStatus}
use statesman.Engine.{
  Hooks, QueuedEvent, Microstep, Engine, Staged, fold, is_final, record_history_into, done_states,
}

module _ {Ctx Evt Cmd : Type 0} (hooks : Hooks Ctx Evt Cmd) where
  unfoldable pub fold_all : Evt → List ActionRef → Staged hooks → Staged hooks
  unfolding fold
  fold_all evt [] s = s
  fold_all evt (a ∷ acts) s = fold_all evt acts (fold hooks evt a.callsite s)

  -- The loop over the exit set. History is read from the live configuration.
  unfoldable pub exit_states : Heap → Configuration → Evt → List Addr → Staged hooks → Staged hooks
  unfolding fold_all record_history_into
  exit_states h live evt [] s = s
  exit_states h live evt (n ∷ ns) s =
      let noted = record s { hist = record_history_into h n s.hist live } in
      let acted = fold_all evt (node h n).exit noted in
      exit_states h live evt ns (record acted { cfg = remove n acted.cfg })

  unfoldable pub transition_actions : Evt → List Transition → Staged hooks → Staged hooks
  unfolding fold_all
  transition_actions evt [] s = s
  transition_actions evt (t ∷ ts) s = transition_actions evt ts (fold_all evt t.actions s)

  -- What follows the entry actions of a node: nothing unless it is final.
  unfoldable pub note_final : Heap → Addr → Option Addr → Addr → Staged hooks → Staged hooks
  unfolding done_states
  note_final h root none n s = record s { reached_final = true }
  note_final h root (some p) n s =
      if p == root
      then record s { reached_final = true }
      else record s { done_states = s.done_states ++ done_states h p s.cfg }

  unfoldable pub enter_states : Heap → Addr → Evt → List Addr → Staged hooks → Staged hooks
  unfolding fold_all note_final
  enter_states h root evt [] s = s
  enter_states h root evt (n ∷ ns) s =
      let added = record s { cfg = add n s.cfg } in
      let acted = fold_all evt (node h n).entry added in
      enter_states h root evt ns
        (if is_final (node h n).kind then note_final h root (node h n).parent n acted else acted)

  -- What `apply` starts from. `clone` and `cloneHistory` copy it; a value needs no copy.
  abbrev pub staged_of : Engine Ctx Evt → Staged hooks
  staged_of e = record {
    cfg = e.cfg;
    hist = e.hist;
    ctx = e.ctx;
    effects = [];
    done_states = [];
    reached_final = false;
  }

  unfoldable pub run_stage :
      Definition → Engine Ctx Evt → List Addr → List Transition → List Addr → Evt → Staged hooks
  unfolding exit_states transition_actions enter_states ordered_entry
  run_stage d e exit_set ts to_enter evt =
      let exited = exit_states d.heap e.cfg evt exit_set (staged_of e) in
      let acted = transition_actions evt ts exited in
      enter_states d.heap d.root evt (ordered_entry d.heap to_enter) acted

  -- The staged microstep, and the engine, of which only `lastEvt` is written.
  unfoldable pub apply :
      Definition
      → Engine Ctx Evt
      → List Addr
      → List Transition
      → List Addr
      → Evt
      → Bool
      → Engine Ctx Evt × Microstep Ctx Cmd
  unfolding run_stage atomic_ids
  apply d e exit_set ts to_enter evt triggered =
      let s = run_stage d e exit_set ts to_enter evt in
      (
        record e { last_evt = evt },
        record {
          transitions = ts;
          exited = exit_set;
          entered = ordered_entry d.heap to_enter;
          prev_active = atomic_ids d.heap e.cfg;
          next_active = atomic_ids d.heap s.cfg;
          prev_context = e.ctx;
          next_context = s.ctx;
          effects = s.effects;
          triggered_by_event = triggered;
          reached_final = s.reached_final;
          cfg = s.cfg;
          hist = s.hist;
          internal_enqueue = s.done_states;
        },
      )

  -- `none` where the entry set's recursion does not come back.
  unfoldable pub start : Definition → Engine Ctx Evt → Option (Engine Ctx Evt × Microstep Ctx Cmd)
  unfolding apply
  start d e = do
    entries ← descend_from d.heap e.hist d.root no_entry
    some (apply d e [] [] entries.to_enter hooks.zero_event false)

  unfoldable pub microstep_for :
      Definition
      → Engine Ctx Evt
      → List Transition
      → Evt
      → Bool
      → Option (Engine Ctx Evt × Microstep Ctx Cmd)
  unfolding apply compute_exit_set compute_entry_set
  microstep_for d e ts evt triggered =
      let exit_set = compute_exit_set d.heap e.cfg ts in
      do
        entries ← compute_entry_set d.heap e.hist ts
        some (apply d e exit_set ts entries.to_enter evt triggered)

  abbrev pub queued : String → QueuedEvent Evt
  queued desc = record { descriptor = desc; payload = hooks.zero_event; has_payload = false }

  abbrev pub next_status : Bool → ActorStatus → ActorStatus
  next_status true status = ActorStatus.done
  next_status false ActorStatus.starting = ActorStatus.running
  next_status false status = status

  unfoldable pub commit : Engine Ctx Evt → Microstep Ctx Cmd → Engine Ctx Evt
  commit e ms = record e {
    cfg = ms.cfg;
    hist = ms.hist;
    ctx = ms.next_context;
    internal_queue = e.internal_queue ++ map queued ms.internal_enqueue;
    status = next_status ms.reached_final e.status;
    always_run = if ms.triggered_by_event then 0 else e.always_run;
  }
