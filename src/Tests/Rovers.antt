-- ===== src/Tests/Rovers.antt =====
-- Two replicas of the state of one rover; a position is a number, and so is a float.
use autonomous_rover_swarm_c.Tests.{nat_floats}
use autonomous_rover_swarm_c.Common.{ℕ, ◌≡◌, ◌≢◌, refl, some, none, String, string_eq}
use autonomous_rover_swarm_c.Common.Errors.{ok, err, crdt_merge_error}
use autonomous_rover_swarm_c.Common.Dict
use autonomous_rover_swarm_c.Crdt.GCounter
use autonomous_rover_swarm_c.Crdt.LwwReg
use autonomous_rover_swarm_c.Crdt.LwwReg.Merge.{content}
use autonomous_rover_swarm_c.Crdt.RoverState
use autonomous_rover_swarm_c.Crdt.RoverState.{RoverState, merge}
use autonomous_rover_swarm_c.Crdt.RoverState.Agreement.{History, IsTold, merge_agrees}

-- A replica on the given node, which read the rover's battery at the time 7.
abbrev replica : String → RoverState ℕ ℕ ℕ
replica node =
    RoverState.update_battery nat_floats 60 7 (RoverState.new nat_floats "host" "r1" node none)

abbrev told : History ℕ ℕ
told = record {
  positions = λ t node. none;
  statuses = λ t node. some "offline";
  batteries = λ t node. some 60;
}

replica-IsTold : (node : String) → IsTold nat_floats told (replica node)
unfolding RoverState.update_battery RoverState.new RoverState.clamp LwwReg.set LwwReg.new
    LwwReg.later Dict.keys
replica-IsTold node = record {
  position_told = refl;
  status_told = refl;
  battery_told = refl;
  sent_once = tt;
  distance_once = tt;
}

merge_agrees_example :
    ((replica "alpha").rover_id ≢ (replica "beta").rover_id
      → (merge nat_floats "host" (replica "alpha") (replica "beta") ≡ err crdt_merge_error)
        × (merge nat_floats "host" (replica "beta") (replica "alpha") ≡ err crdt_merge_error))
    × ((replica "alpha").rover_id ≡ (replica "beta").rover_id
        → (c : RoverState ℕ ℕ ℕ) × (d : RoverState ℕ ℕ ℕ) × (merge nat_floats "host"
              (replica "alpha")
              (replica "beta")
            ≡ ok c)
          × (merge nat_floats "host" (replica "beta") (replica "alpha") ≡ ok d)
          × (content c.position ≡ content d.position)
          × (content c.status ≡ content d.status)
          × (content c.battery ≡ content d.battery)
          × (GCounter.value c.messages_sent ≡ GCounter.value d.messages_sent)
          × (GCounter.value c.distance_traveled ≡ GCounter.value d.distance_traveled))
unfolding RoverState.update_battery RoverState.new
merge_agrees_example =
    merge_agrees nat_floats told "host" (replica "alpha") (replica "beta") (replica-IsTold "alpha")
      (replica-IsTold "beta")
