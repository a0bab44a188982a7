-- ===== src/Examples/Actors.antt =====
-- The theorems on the actor, at a machine of the chart `job` with a timer, a child and a subscriber.
use statesman.Base.{
  ◌+◌, ◌≡◌, refl, ℕ, true, false, Option, none, some, [], ◌∷◌, ◌++◌, map, String, pos,
}
use statesman.Status.{terminal, actor_stopped}
use statesman.Snapshot.{Snapshot}
use statesman.Engine.{send, Microstep}
use statesman.Engine.Apply.{commit}
use statesman.Machine.{
  ArmedTimer, RunningChild, Config, Machine, published, cancelled, cancelled_child,
  closed_subscriber, actor_stop, starting_snapshot, event, try_send, answered,
}
use statesman.Machine.{send as machine_send}
use statesman.Machine.Timers.{surviving}
use statesman.Machine.Exec.{next_snapshot, exec_microstep}
use statesman.Machine.Commit.{armed_with}
use statesman.Machine.Loop.{stop_reason, shutdown}
use statesman.Machine.Transaction.{
  to_subscribers, aborted_snapshot, fresh_timers, commit_outputs, exec_microstep-aborted,
  exec_microstep_version, exec_microstep-committed,
}
use mathlib.Core.List.{Perm}
use statesman.Machine.Pending.{exec_microstep_pending}
use statesman.Machine.Timers.{as_scheduled, timers_in}
use statesman.Machine.Closing.{last_snapshot, last_outputs, shutdown-terminal, send-shutdown}
use statesman.Examples.Charts.{job, working, chart}
use statesman.Examples.Engines.{counting, engine_at}

abbrev passing_observer : Snapshot ℕ → Snapshot ℕ → String → Option String
passing_observer before after evt = none

-- With an observer that lets everything pass, and one behind it that always answers the same.
abbrev config_with : Option String → Config ℕ String String
config_with answer = record {
  definition = chart "job" job;
  hooks = counting;
  transition_obs = passing_observer ∷ (λ before after evt. answer) ∷ [];
  runners = λ src. none;
  clock = λ k. pos (1000 + k);
  delays = λ name. pos 0;
  always_limit = 3;
  mailbox_cap = 2;
}

abbrev old_timer : ArmedTimer
old_timer = record { descriptor = "job.after"; deadline = pos 5; state = 1 }

abbrev child_c : RunningChild
child_c = record { id = "c"; address = "/job/c"; sendable = true }

abbrev running : Machine ℕ String String
running = record {
  addr = "/job";
  init_ctx = 0;
  started = true;
  stopped = false;
  eng = engine_at working;
  snap = starting_snapshot (config_with none) 0 "/job";
  mailbox = event "go" "go" ∷ [];
  version = 7;
  local_subs = 1 ∷ 2 ∷ [];
  armed = (1, old_timer ∷ []) ∷ [];
  children = child_c ∷ [];
  invoke_spawns = [];
  clock_reads = 0;
  trace = [];
}

-- To `idle` and back to it, with a command for the child.
abbrev again : Microstep ℕ String
again = record {
  transitions = [];
  exited = 1 ∷ [];
  entered = 1 ∷ [];
  prev_active = "idle" ∷ [];
  next_active = "idle" ∷ [];
  prev_context = 0;
  next_context = 1;
  effects = send "c" "ping" ∷ [];
  triggered_by_event = true;
  reached_final = false;
  cfg = 0 ∷ 1 ∷ [];
  hist = [];
  internal_enqueue = [];
}

exec_microstep-aborted_example : exec_microstep (config_with (some "refused")) again running ≡ (
  record running {
    snap = aborted_snapshot (config_with (some "refused")) "refused" running;
    version = 8;
    clock_reads = 1;
    trace =
        ([] ++ published (aborted_snapshot (config_with (some "refused")) "refused" running) ∷ [])
        ++ to_subscribers
            (config_with (some "refused"))
            (aborted_snapshot (config_with (some "refused")) "refused" running)
            running;
  },
  false,
)
exec_microstep-aborted_example =
    exec_microstep-aborted (config_with (some "refused")) again running (passing_observer ∷ []) []
      (λ before after evt. some "refused") "refused" refl (refl, tt) refl

exec_microstep-committed_example : exec_microstep (config_with none) again running ≡ (
  record running {
    eng = commit counting (engine_at working) again;
    snap = next_snapshot (config_with none) running again;
    version = 8;
    armed =
        armed_with
          (fresh_timers (config_with none) running again)
          (surviving (1 ∷ []) running.armed);
    clock_reads = 2;
    trace = [] ++ commit_outputs (config_with none) running again;
  },
  true,
)
exec_microstep-committed_example =
    exec_microstep-committed (config_with none) again running (refl, (refl, tt))

shutdown-terminal_example :
    (terminal (shutdown (config_with none) running).snap.status ≡ true)
    × ((shutdown (config_with none) running).stopped ≡ true)
    × ((shutdown (config_with none) running).children ≡ [])
    × ((shutdown (config_with none) running).armed ≡ [])
    × ((shutdown (config_with none) running).local_subs ≡ [])
    × ((shutdown (config_with none) running).trace
        ≡ running.trace
          ++ map (λ ch. cancelled_child ch.id) (child_c ∷ [])
          ++ map (λ a. cancelled a) (old_timer ∷ [])
          ++ last_outputs (config_with none) running
          ++ actor_stop "/job"
              (stop_reason (config_with none) (last_snapshot (config_with none) running))
            ∷ []
          ++ map (λ s. closed_subscriber s) (1 ∷ 2 ∷ []))
shutdown-terminal_example = shutdown-terminal (config_with none) running

send-shutdown_example :
    (machine_send (config_with none) "go" false true false (shutdown (config_with none) running)
      ≡ (shutdown (config_with none) running, answered (some actor_stopped)))
    × (try_send (config_with none) "go" false (shutdown (config_with none) running)
        ≡ (shutdown (config_with none) running, some actor_stopped))
send-shutdown_example = send-shutdown (config_with none) running "go" false true false

exec_microstep_version_example :
    ((exec_microstep (config_with none) again running).0.version ≡ 8)
    × ((exec_microstep (config_with none) again running).0.snap.version ≡ 8)
    × ((exec_microstep (config_with none) again running).0.mailbox ≡ running.mailbox)
    × ((exec_microstep (config_with none) again running).0.children ≡ running.children)
exec_microstep_version_example = exec_microstep_version (config_with none) again running

-- With a clock that stands still.
abbrev stopped_clock : Config ℕ String String
stopped_clock = record (config_with none) { clock = λ k. pos 1000 }

exec_microstep_pending_example :
    Perm
      (exec_microstep stopped_clock again running).0.snap.pending_after
      (map (as_scheduled job) (timers_in (exec_microstep stopped_clock again running).0.armed))
exec_microstep_pending_example =
    exec_microstep_pending stopped_clock again running (refl, (refl, tt)) refl
