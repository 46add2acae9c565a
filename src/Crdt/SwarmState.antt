-- ===== src/Crdt/SwarmState.antt =====
-- crdt/swarm_state.py: the swarm, with the state of each rover. `P`, `F` and `V` are those of
-- RoverState, `host` the constant `NODE_ID`.
use autonomous_rover_swarm_c.Common.{
  ℕ, String, string_eq, Bool, false, not, Option, none, some, List, [], ◌∷◌, length, if◌then◌else◌,
  ◌==◌,
}
use autonomous_rover_swarm_c.Common.Floats.{Floats}
use autonomous_rover_swarm_c.Common.Errors.{Result, ok, err, crdt_merge_error, ◌>>=◌}
use autonomous_rover_swarm_c.Common.Dict
use autonomous_rover_swarm_c.Common.Dict.{Dict, lookup, insert, keys, values}
use autonomous_rover_swarm_c.Common.Sets.{union}
use autonomous_rover_swarm_c.Crdt.Base.{Timestamp, CrdtDelta}
use autonomous_rover_swarm_c.Crdt.VectorClock
use autonomous_rover_swarm_c.Crdt.VectorClock.{VectorClock}
use autonomous_rover_swarm_c.Crdt.GCounter
use autonomous_rover_swarm_c.Crdt.GCounter.{GCounter}
use autonomous_rover_swarm_c.Crdt.LwwReg
use autonomous_rover_swarm_c.Crdt.LwwReg.{LwwReg}
use autonomous_rover_swarm_c.Crdt.LwwMap
use autonomous_rover_swarm_c.Crdt.LwwMap.{LwwMap}
use autonomous_rover_swarm_c.Crdt.RoverState
use autonomous_rover_swarm_c.Crdt.RoverState.{RoverState}

pub record SwarmState {ℓ} (P F V : Type ℓ) : Type ℓ where
  pub swarm_id : String
  pub node_id : String
  pub vector_clock : VectorClock
  pub rovers : Dict String (RoverState P F V)
  pub swarm_metadata : LwwMap V
  pub topology : LwwMap V
  pub mission_plan : LwwMap V
  pub total_tasks : GCounter
  pub completed_tasks : GCounter
  pub failed_tasks : GCounter
  pub leader_id : LwwReg String

-- The value of a delta: the swarm, and the number of its rovers.
pub record Change : Type 0 where
  pub swarm_id : String
  pub rover_count : ℕ

-- `r.status.value() == "online"`
abbrev is_online : Option String → Bool
is_online none = false
is_online (some status) = status == "online"

module _ {ℓ} {P F V : Type ℓ} where
  -- `__init__`
  unfoldable pub new : String → String → String → Option VectorClock → SwarmState P F V
  unfolding VectorClock.or_fresh LwwReg.new LwwMap.new
  new host swarm_id node_id vector_clock = record {
    swarm_id = swarm_id;
    node_id = node_id;
    vector_clock = VectorClock.or_fresh vector_clock node_id;
    rovers = [];
    swarm_metadata = LwwMap.new node_id none;
    topology = LwwMap.new node_id none;
    mission_plan = LwwMap.new node_id none;
    total_tasks = GCounter.new host node_id;
    completed_tasks = GCounter.new host node_id;
    failed_tasks = GCounter.new host node_id;
    leader_id = LwwReg.new none 0 node_id none;
  }

  unfoldable pub add_rover : RoverState P F V → SwarmState P F V → SwarmState P F V
  add_rover state s = record s { rovers = insert state.rover_id state s.rovers }

  unfoldable pub get_rover : String → SwarmState P F V → Option (RoverState P F V)
  get_rover rover_id s = lookup rover_id s.rovers

  unfoldable pub remove_rover : String → SwarmState P F V → SwarmState P F V
  remove_rover rover_id s = record s { rovers = Dict.remove rover_id s.rovers }

  unfoldable pub rover_ids : SwarmState P F V → List String
  rover_ids s = keys s.rovers

  online_among : List (RoverState P F V) → List (RoverState P F V)
  online_among [] = []
  online_among (r ∷ rs) =
      let rest = online_among rs in if is_online r.status.value then r ∷ rest else rest

  unfoldable pub active_rovers : SwarmState P F V → List (RoverState P F V)
  unfolding online_among
  active_rovers s = online_among (values s.rovers)

  unfoldable pub set_leader : String → Timestamp → SwarmState P F V → SwarmState P F V
  unfolding LwwReg.set
  set_leader rover_id now s = record s {
    leader_id = LwwReg.set (some rover_id) none now s.leader_id;
  }

  module _ (fl : Floats F) (host : String) where
    -- The `if`/`elif` of the loop, for a rover that one of the two knows.
    merge_rover :
        Option (RoverState P F V) → Option (RoverState P F V) → Result (Option (RoverState P F V))
    unfolding RoverState.merge
    merge_rover (some a) (some b) = RoverState.merge fl host a b >>= λ r. ok (some r)
    merge_rover (some a) none = ok (some a)
    merge_rover none b = ok b

    abbrev store :
        String
        → Option (RoverState P F V)
        → Dict String (RoverState P F V)
        → Dict String (RoverState P F V)
    store rid none made = made
    store rid (some r) made = insert rid r made

    -- The loop over the rovers; `made` holds those that are merged.
    unfoldable pub merge_rovers :
        List String
        → (a b made : Dict String (RoverState P F V)) → Result (Dict String (RoverState P F V))
    unfolding merge_rover
    merge_rovers [] a b made = ok made
    merge_rovers (rid ∷ rids) a b made =
        merge_rover (lookup rid a) (lookup rid b) >>= λ r. merge_rovers rids a b (store rid r made)

    -- What follows the guards of `merge`.
    unfoldable pub merge_parts :
        SwarmState P F V → SwarmState P F V → Dict String (RoverState P F V) → SwarmState P F V
    unfolding new VectorClock.merge LwwReg.merge LwwMap.merge GCounter.merge
    merge_parts a b rovers =
        record (new host a.swarm_id a.node_id
          (some (VectorClock.merge a.vector_clock b.vector_clock))) {
            rovers = rovers;
            swarm_metadata = LwwMap.merge a.swarm_metadata b.swarm_metadata;
            topology = LwwMap.merge a.topology b.topology;
            mission_plan = LwwMap.merge a.mission_plan b.mission_plan;
            total_tasks = GCounter.merge a.total_tasks b.total_tasks;
            completed_tasks = GCounter.merge a.completed_tasks b.completed_tasks;
            failed_tasks = GCounter.merge a.failed_tasks b.failed_tasks;
            leader_id = LwwReg.merge a.leader_id b.leader_id;
          }

    unfoldable pub merge : SwarmState P F V → SwarmState P F V → Result (SwarmState P F V)
    unfolding merge_parts merge_rovers
    merge a b =
        if not (a.swarm_id == b.swarm_id)
        then err crdt_merge_error
        else merge_rovers (union (keys a.rovers) (keys b.rovers)) a.rovers b.rovers [] >>= λ rovers.
            ok (merge_parts a b rovers)

  unfoldable pub delta : SwarmState P F V → CrdtDelta Change
  unfolding VectorClock.items
  delta s = record {
    value = record { swarm_id = s.swarm_id; rover_count = length s.rovers };
    vector_clock = VectorClock.items s.vector_clock;
    source_id = s.node_id;
    timestamp = 0;
  }

  -- The source merges the clocks and drops the result, and reads nothing else of the delta.
  unfoldable pub apply_delta : CrdtDelta Change → SwarmState P F V → SwarmState P F V
  apply_delta d s = s

  reset_each : Floats F → Dict String (RoverState P F V) → Dict String (RoverState P F V)
  unfolding RoverState.reset_delta
  reset_each fl [] = []
  reset_each fl ((rid, r) ∷ d) = (rid, RoverState.reset_delta fl r) ∷ reset_each fl d

  unfoldable pub reset_delta : Floats F → SwarmState P F V → SwarmState P F V
  unfolding reset_each LwwReg.reset_delta LwwMap.reset_delta GCounter.reset_delta
  reset_delta fl s = record s {
    rovers = reset_each fl s.rovers;
    swarm_metadata = LwwMap.reset_delta s.swarm_metadata;
    topology = LwwMap.reset_delta s.topology;
    mission_plan = LwwMap.reset_delta s.mission_plan;
    total_tasks = GCounter.reset_delta s.total_tasks;
    completed_tasks = GCounter.reset_delta s.completed_tasks;
    failed_tasks = GCounter.reset_delta s.failed_tasks;
    leader_id = LwwReg.reset_delta s.leader_id;
  }
