-- ===== src/Snapshot.antt =====
-- snapshot.go: what an actor publishes. A time is in nanoseconds.
use statesman.Base.{ℕ, String, List, Option, ℤ}
use statesman.Definition.{StateId}
use statesman.Status.{ActorAddress, ActorStatus, Error}

abbrev pub Time : Type 0
Time = ℤ

abbrev pub Duration : Type 0
Duration = ℤ

pub record ScheduledTimer : Type 0 where
  pub state_id : StateId
  pub descriptor : String
  pub deadline : Time

pub record ChildRef : Type 0 where
  pub address : ActorAddress
  pub type_name : String

pub record Snapshot (Ctx : Type 0) : Type 0 where
  pub machine_id : String
  pub address : ActorAddress
  pub active_states : List StateId
  pub context : Ctx
  pub pending_after : List ScheduledTimer
  pub children : List ChildRef
  pub status : ActorStatus
  pub error_reason : Option Error
  pub version : ℕ
  pub invoke_restarts : List (String × ℕ)
