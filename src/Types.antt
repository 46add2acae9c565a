-- ===== src/Types.antt =====
-- types.py: the enumerations and records that the swarm modules share.
use autonomous_rover_swarm_c.Common.{String, Option}
use autonomous_rover_swarm_c.Common.Int.{ℤ}
use autonomous_rover_swarm_c.Crdt.Base.{Timestamp}

pub data TaskType : Type 0 where
  explore survey transport relay charge reconnaissance patrol : TaskType

pub data TaskStatus : Type 0 where
  pending assigned in_progress completed failed cancelled : TaskStatus

-- `P` is the type of a payload.
pub record Task {ℓ} (P : Type ℓ) : Type ℓ where
  pub task_id : String
  pub task_type : TaskType
  pub status : TaskStatus
  pub assigned_to : Option String
  pub priority : ℤ
  pub payload : P
  pub created_at : Timestamp
  pub deadline : Option Timestamp

pub data MissionPhase : Type 0 where
  initializing deploying exploring returning completed_phase failed_phase aborted : MissionPhase

-- `phase.value`
abbrev pub phase_text : MissionPhase → String
phase_text initializing = "initializing"
phase_text deploying = "deploying"
phase_text exploring = "exploring"
phase_text returning = "returning"
phase_text completed_phase = "completed"
phase_text failed_phase = "failed"
phase_text aborted = "aborted"
