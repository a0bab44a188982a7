-- ===== src/Status.antt =====
-- ids.go and errors.go: actor addresses, the lifecycle status, and the errors of the runtime.
use statesman.Base.{String, Bool, true, false, str_append}

-- `type ActorAddress string`
abbrev pub ActorAddress : Type 0
ActorAddress = String

-- `Child`
unfoldable pub child_address : ActorAddress → String → ActorAddress
child_address a name = str_append (str_append a "/") name

pub data ActorStatus : Type 0 where
  starting running done error stopped : ActorStatus

unfoldable pub terminal : ActorStatus → Bool
terminal ActorStatus.done = true
terminal ActorStatus.error = true
terminal ActorStatus.stopped = true
terminal _ = false

-- The default branch "unknown" has no value to take it.
unfoldable pub string_of_status : ActorStatus → String
string_of_status ActorStatus.starting = "starting"
string_of_status ActorStatus.running = "running"
string_of_status ActorStatus.done = "done"
string_of_status ActorStatus.error = "error"
string_of_status ActorStatus.stopped = "stopped"

-- The sentinels of errors.go, `ObserverError` with what the observer returned, and the errors of a
-- cancelled context.
pub data Error : Type 0 where
  actor_stopped already_started always_loop_exceeded mailbox_full context_done : Error
  observer_error : String → String → Error
