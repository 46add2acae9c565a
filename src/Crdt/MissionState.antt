-- ===== src/Crdt/MissionState.antt =====
-- crdt/mission_state.py: a mission, put together of registers, maps and counters. `P` is the type of
-- a payload, `F` the floats, `V` the values of the metadata, `host` the constant `NODE_ID`. A call of
-- `set` reads the time `now`.
use autonomous_rover_swarm_c.Common.{
  String, string_eq, not, Option, none, some, or_else, if◌then◌else◌, ◌==◌,
}
use autonomous_rover_swarm_c.Common.Floats.{Floats}
use autonomous_rover_swarm_c.Common.Errors.{Result, ok, err, crdt_merge_error}
use autonomous_rover_swarm_c.Crdt.Base.{Timestamp, CrdtDelta}
use autonomous_rover_swarm_c.Types.{MissionPhase, phase_text, initializing}
use autonomous_rover_swarm_c.Crdt.VectorClock
use autonomous_rover_swarm_c.Crdt.VectorClock.{VectorClock}
use autonomous_rover_swarm_c.Crdt.GCounter
use autonomous_rover_swarm_c.Crdt.GCounter.{GCounter}
use autonomous_rover_swarm_c.Crdt.LwwReg
use autonomous_rover_swarm_c.Crdt.LwwReg.{LwwReg}
use autonomous_rover_swarm_c.Crdt.LwwMap
use autonomous_rover_swarm_c.Crdt.LwwMap.{LwwMap}

-- The dictionaries that `add_task` and `assign_rover` store.
pub record TaskEntry {ℓ} (P : Type ℓ) : Type ℓ where
  pub task_id : String
  pub task_type : String
  pub status : String
  pub payload : P
  pub assigned_to : Option String

pub record Member : Type 0 where
  pub rover_id : String
  pub role : String
  pub joined_at : Timestamp

pub record MissionState {ℓ} (P F V : Type ℓ) : Type ℓ where
  pub mission_id : String
  pub node_id : String
  pub vector_clock : VectorClock
  pub name : LwwReg String
  pub phase : LwwReg String
  pub tasks : LwwMap (TaskEntry P)
  pub assigned_rovers : LwwMap Member
  pub metadata : LwwMap V
  pub progress : LwwReg F
  pub completed_objectives : GCounter
  pub total_objectives : GCounter
  pub errors : GCounter

-- The value of a delta: the mission, its phase and its progress.
pub record Change {ℓ} (F : Type ℓ) : Type ℓ where
  pub mission_id : String
  pub phase : Option String
  pub progress : Option F

module _ {ℓ} {P F V : Type ℓ} (fl : Floats F) where
  open fl use {of_nat, add, lt}

  -- `__init__`
  unfoldable pub new : String → String → String → String → Option VectorClock → MissionState P F V
  unfolding VectorClock.or_fresh LwwReg.new LwwMap.new
  new host mission_id name node_id vector_clock = record {
    mission_id = mission_id;
    node_id = node_id;
    vector_clock = VectorClock.or_fresh vector_clock node_id;
    name = LwwReg.new (some name) 0 node_id none;
    phase = LwwReg.new (some (phase_text initializing)) 0 node_id none;
    tasks = LwwMap.new node_id none;
    assigned_rovers = LwwMap.new node_id none;
    metadata = LwwMap.new node_id none;
    progress = LwwReg.new (some (of_nat 0)) 0 node_id none;
    completed_objectives = GCounter.new host node_id;
    total_objectives = GCounter.new host node_id;
    errors = GCounter.new host node_id;
  }

  unfoldable pub set_phase : MissionPhase → Timestamp → MissionState P F V → MissionState P F V
  unfolding LwwReg.set
  set_phase phase now s = record s { phase = LwwReg.set (some (phase_text phase)) none now s.phase }

  -- The payload is the one that is given, or an empty one.
  unfoldable pub add_task :
      String → String → P → Timestamp → MissionState P F V → MissionState P F V
  unfolding LwwMap.set
  add_task task_id task_type payload now s =
      let entry : TaskEntry P = record {
        task_id = task_id;
        task_type = task_type;
        status = "pending";
        payload = payload;
        assigned_to = none;
      } in
      record s { tasks = LwwMap.set task_id (some entry) now s.tasks }

  -- `joined` is the time that is stored, `now` the one of the write.
  unfoldable pub assign_rover :
      String → String → (joined now : Timestamp) → MissionState P F V → MissionState P F V
  unfolding LwwMap.set
  assign_rover rover_id role joined now s =
      let entry : Member = record { rover_id = rover_id; role = role; joined_at = joined } in
      record s { assigned_rovers = LwwMap.set rover_id (some entry) now s.assigned_rovers }

  unfoldable pub remove_rover : String → Timestamp → MissionState P F V → MissionState P F V
  unfolding LwwMap.delete
  remove_rover rover_id now s = record s {
    assigned_rovers = LwwMap.delete rover_id now s.assigned_rovers;
  }

  -- `min(1.0, current + delta)`; a missing progress and 0.0 come to the same.
  unfoldable pub advance_progress : F → Timestamp → MissionState P F V → MissionState P F V
  unfolding LwwReg.set
  advance_progress delta now s =
      let next = add (or_else s.progress.value (of_nat 0)) delta in
      let capped = if lt next (of_nat 1) then next else of_nat 1 in
      record s { progress = LwwReg.set (some capped) none now s.progress }

  -- `increment(1)`, which does not raise
  unfoldable pub complete_objective : MissionState P F V → MissionState P F V
  unfolding GCounter.add_count
  complete_objective s = record s {
    completed_objectives = GCounter.add_count 1 s.completed_objectives;
  }

  -- What follows the guards of `merge`.
  unfoldable pub merge_parts : String → MissionState P F V → MissionState P F V → MissionState P F V
  unfolding new VectorClock.merge LwwReg.merge LwwMap.merge GCounter.merge
  merge_parts host a b =
      record (new host a.mission_id "" a.node_id
        (some (VectorClock.merge a.vector_clock b.vector_clock))) {
          name = LwwReg.merge a.name b.name;
          phase = LwwReg.merge a.phase b.phase;
          tasks = LwwMap.merge a.tasks b.tasks;
          assigned_rovers = LwwMap.merge a.assigned_rovers b.assigned_rovers;
          metadata = LwwMap.merge a.metadata b.metadata;
          progress = LwwReg.merge a.progress b.progress;
          completed_objectives = GCounter.merge a.completed_objectives b.completed_objectives;
          total_objectives = GCounter.merge a.total_objectives b.total_objectives;
          errors = GCounter.merge a.errors b.errors;
        }

  unfoldable pub merge :
      String → MissionState P F V → MissionState P F V → Result (MissionState P F V)
  unfolding merge_parts
  merge host a b =
      if not (a.mission_id == b.mission_id) then err crdt_merge_error else ok (merge_parts host a b)

  unfoldable pub delta : MissionState P F V → CrdtDelta (Change F)
  unfolding VectorClock.items
  delta s = record {
    value = record {
      mission_id = s.mission_id;
      phase = s.phase.value;
      progress = s.progress.value;
    };
    vector_clock = VectorClock.items s.vector_clock;
    source_id = s.node_id;
    timestamp = 0;
  }

  -- The source merges the clocks and drops the result, and reads nothing else of the delta.
  unfoldable pub apply_delta : CrdtDelta (Change F) → MissionState P F V → MissionState P F V
  apply_delta d s = s

  unfoldable pub reset_delta : MissionState P F V → MissionState P F V
  unfolding LwwReg.reset_delta LwwMap.reset_delta GCounter.reset_delta
  reset_delta s = record s {
    name = LwwReg.reset_delta s.name;
    phase = LwwReg.reset_delta s.phase;
    tasks = LwwMap.reset_delta s.tasks;
    assigned_rovers = LwwMap.reset_delta s.assigned_rovers;
    metadata = LwwMap.reset_delta s.metadata;
    progress = LwwReg.reset_delta s.progress;
    completed_objectives = GCounter.reset_delta s.completed_objectives;
    total_objectives = GCounter.reset_delta s.total_objectives;
    errors = GCounter.reset_delta s.errors;
  }
