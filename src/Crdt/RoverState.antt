-- ===== src/Crdt/RoverState.antt =====
-- crdt/rover_state.py: what the swarm knows of one rover, put together of registers, maps and
-- counters. `P` is the type of a position, `F` the floats and `V` the values in the maps. `host` is
-- the constant `NODE_ID`. A call of `set` reads the time `now`.
pub mod Agreement
use autonomous_rover_swarm_c.Common.{
  ℕ, String, string_eq, Bool, true, false, not, Option, none, some, List, [], if◌then◌else◌, ◌==◌,
}
use autonomous_rover_swarm_c.Common.Floats.{Floats}
use autonomous_rover_swarm_c.Common.Errors.{Result, ok, err, crdt_merge_error}
use autonomous_rover_swarm_c.Common.Dict.{Dict}
use autonomous_rover_swarm_c.Crdt.Base.{Timestamp, CrdtDelta}
use autonomous_rover_swarm_c.Crdt.VectorClock
use autonomous_rover_swarm_c.Crdt.VectorClock.{VectorClock}
use autonomous_rover_swarm_c.Crdt.GCounter
use autonomous_rover_swarm_c.Crdt.GCounter.{GCounter}
use autonomous_rover_swarm_c.Crdt.LwwReg
use autonomous_rover_swarm_c.Crdt.LwwReg.{LwwReg}
use autonomous_rover_swarm_c.Crdt.LwwMap
use autonomous_rover_swarm_c.Crdt.LwwMap.{LwwMap}

pub record RoverState {ℓ} (P F V : Type ℓ) : Type ℓ where
  pub rover_id : String
  pub node_id : String
  pub vector_clock : VectorClock
  pub position : LwwReg P
  pub status : LwwReg String
  pub battery : LwwReg F
  pub role : LwwReg String
  pub speed : LwwReg F
  pub heading : LwwReg F
  pub tasks : LwwMap V
  pub sensor_data : LwwMap V
  pub metrics : LwwMap V
  pub messages_sent : GCounter
  pub messages_received : GCounter
  pub distance_traveled : GCounter

-- The value of a delta, with the deltas of three registers.
pub record Change {ℓ} (P F : Type ℓ) : Type ℓ where
  pub rover_id : String
  pub position : CrdtDelta (Option P)
  pub status : CrdtDelta (Option String)
  pub battery : CrdtDelta (Option F)

-- `max(0.0, min(100.0, level))`
unfoldable pub clamp {ℓ} : {F : Type ℓ} → Floats F → F → F
clamp fl level =
    let low = if fl.lt level (fl.of_nat 100) then level else fl.of_nat 100 in
    if fl.lt (fl.of_nat 0) low then low else fl.of_nat 0

module _ {ℓ} {P F V : Type ℓ} (fl : Floats F) where
  open fl use {of_nat}

  -- `__init__`
  unfoldable pub new : String → String → String → Option VectorClock → RoverState P F V
  unfolding VectorClock.or_fresh LwwReg.new LwwMap.new
  new host rover_id node_id vector_clock = record {
    rover_id = rover_id;
    node_id = node_id;
    vector_clock = VectorClock.or_fresh vector_clock node_id;
    position = LwwReg.new none 0 node_id none;
    status = LwwReg.new (some "offline") 0 node_id none;
    battery = LwwReg.new (some (of_nat 100)) 0 node_id none;
    role = LwwReg.new (some "general") 0 node_id none;
    speed = LwwReg.new (some (of_nat 0)) 0 node_id none;
    heading = LwwReg.new (some (of_nat 0)) 0 node_id none;
    tasks = LwwMap.new node_id none;
    sensor_data = LwwMap.new node_id none;
    metrics = LwwMap.new node_id none;
    messages_sent = GCounter.new host node_id;
    messages_received = GCounter.new host node_id;
    distance_traveled = GCounter.new host node_id;
  }

  unfoldable pub update_position : P → Timestamp → RoverState P F V → RoverState P F V
  unfolding LwwReg.set
  update_position pos now s = record s { position = LwwReg.set (some pos) none now s.position }

  -- The status is its text.
  unfoldable pub update_status : String → Timestamp → RoverState P F V → RoverState P F V
  unfolding LwwReg.set
  update_status status now s = record s { status = LwwReg.set (some status) none now s.status }

  unfoldable pub update_battery : F → Timestamp → RoverState P F V → RoverState P F V
  unfolding LwwReg.set clamp
  update_battery level now s = record s {
    battery = LwwReg.set (some (clamp fl level)) none now s.battery;
  }

  unfoldable pub update_role : String → Timestamp → RoverState P F V → RoverState P F V
  unfolding LwwReg.set
  update_role role now s = record s { role = LwwReg.set (some role) none now s.role }

  -- What follows the guards of `merge`; the fields that `__init__` makes are all replaced.
  unfoldable pub merge_parts : String → RoverState P F V → RoverState P F V → RoverState P F V
  unfolding new VectorClock.merge LwwReg.merge LwwMap.merge GCounter.merge
  merge_parts host a b =
      record (new host a.rover_id a.node_id
        (some (VectorClock.merge a.vector_clock b.vector_clock))) {
          position = LwwReg.merge a.position b.position;
          status = LwwReg.merge a.status b.status;
          battery = LwwReg.merge a.battery b.battery;
          role = LwwReg.merge a.role b.role;
          speed = LwwReg.merge a.speed b.speed;
          heading = LwwReg.merge a.heading b.heading;
          tasks = LwwMap.merge a.tasks b.tasks;
          sensor_data = LwwMap.merge a.sensor_data b.sensor_data;
          metrics = LwwMap.merge a.metrics b.metrics;
          messages_sent = GCounter.merge a.messages_sent b.messages_sent;
          messages_received = GCounter.merge a.messages_received b.messages_received;
          distance_traveled = GCounter.merge a.distance_traveled b.distance_traveled;
        }

  unfoldable pub merge : String → RoverState P F V → RoverState P F V → Result (RoverState P F V)
  unfolding merge_parts
  merge host a b =
      if not (a.rover_id == b.rover_id) then err crdt_merge_error else ok (merge_parts host a b)

  unfoldable pub delta : RoverState P F V → CrdtDelta (Change P F)
  unfolding LwwReg.delta VectorClock.items
  delta s = record {
    value = record {
      rover_id = s.rover_id;
      position = LwwReg.delta s.position;
      status = LwwReg.delta s.status;
      battery = LwwReg.delta s.battery;
    };
    vector_clock = VectorClock.items s.vector_clock;
    source_id = s.node_id;
    timestamp = 0;
  }

  -- The source merges the clocks and drops the result, and reads nothing else of the delta.
  unfoldable pub apply_delta : CrdtDelta (Change P F) → RoverState P F V → RoverState P F V
  apply_delta d s = s

  unfoldable pub reset_delta : RoverState P F V → RoverState P F V
  unfolding LwwReg.reset_delta LwwMap.reset_delta GCounter.reset_delta
  reset_delta s = record s {
    position = LwwReg.reset_delta s.position;
    status = LwwReg.reset_delta s.status;
    battery = LwwReg.reset_delta s.battery;
    role = LwwReg.reset_delta s.role;
    speed = LwwReg.reset_delta s.speed;
    heading = LwwReg.reset_delta s.heading;
    tasks = LwwMap.reset_delta s.tasks;
    sensor_data = LwwMap.reset_delta s.sensor_data;
    metrics = LwwMap.reset_delta s.metrics;
    messages_sent = GCounter.reset_delta s.messages_sent;
    messages_received = GCounter.reset_delta s.messages_received;
    distance_traveled = GCounter.reset_delta s.distance_traveled;
  }
