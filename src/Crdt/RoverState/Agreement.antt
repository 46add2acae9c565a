-- ===== src/Crdt/RoverState/Agreement.antt =====
-- Two replicas of a rover's state that merge each other's.
use autonomous_rover_swarm_c.Common.{
  String, string_eq, ◌≡◌, ◌≢◌, refl, sym, Option, beq_refl, beq_ne,
}
use autonomous_rover_swarm_c.Common.Floats.{Floats}
use autonomous_rover_swarm_c.Common.Errors.{ok, err, crdt_merge_error}
use autonomous_rover_swarm_c.Crdt.Base.{Timestamp}
use autonomous_rover_swarm_c.Crdt.GCounter
use autonomous_rover_swarm_c.Crdt.GCounter.{GCounter}
use autonomous_rover_swarm_c.Crdt.GCounter.Value.{HasKeysOnce, value-Same}
use autonomous_rover_swarm_c.Crdt.GCounter.Sync.{counter_lattice}
use autonomous_rover_swarm_c.Crdt.LwwReg
use autonomous_rover_swarm_c.Crdt.LwwReg.{LwwReg}
use autonomous_rover_swarm_c.Crdt.LwwReg.Merge.{IsWritten, content, register_lattice}
use autonomous_rover_swarm_c.Crdt.RoverState.{RoverState, merge, merge_parts}

module _ {ℓ} {V : Type ℓ} (written : Timestamp → String → Option V) where
  registers_commute :
      (a b : LwwReg V)
      → IsWritten written a
      → IsWritten written b
      → content (LwwReg.merge a b) ≡ content (LwwReg.merge b a)
  unfolding register_lattice
  registers_commute a b ha hb = ((register_lattice written).merge_comm a b ha hb).0

counters_commute :
    (a b : GCounter)
    → HasKeysOnce a.counts
    → HasKeysOnce b.counts
    → GCounter.value (GCounter.merge a b) ≡ GCounter.value (GCounter.merge b a)
unfolding counter_lattice
counters_commute a b ha hb =
    value-Same (GCounter.merge a b) (GCounter.merge b a) (counter_lattice.merge-Valid a b ha hb)
      (counter_lattice.merge-Valid b a hb ha) ((counter_lattice.merge_comm a b ha hb).0)

-- What the writes of the rover's registers were, by time and node.
pub record History {ℓ} (P F : Type ℓ) : Type ℓ where
  pub positions : Timestamp → String → Option P
  pub statuses : Timestamp → String → Option String
  pub batteries : Timestamp → String → Option F

module _ {ℓ} {P F V : Type ℓ} (fl : Floats F) (history : History P F) where
  -- The state holds writes of the history, and counters with each node once.
  pub record IsTold (s : RoverState P F V) : Type ℓ where
    pub position_told : IsWritten history.positions s.position
    pub status_told : IsWritten history.statuses s.status
    pub battery_told : IsWritten history.batteries s.battery
    pub sent_once : HasKeysOnce s.messages_sent.counts
    pub distance_once : HasKeysOnce s.distance_traveled.counts

  -- To merge the states of two different rovers raises, whichever replica asks. Two replicas of one
  -- rover that merge each other's state agree on position, status, battery, messages sent and
  -- distance. Both hold if each stamp stands for one write and each counter has each node once.
  pub merge_agrees :
      (host : String) (a b : RoverState P F V)
      → IsTold a
      → IsTold b
      → (a.rover_id ≢ b.rover_id
          → (merge fl host a b ≡ err crdt_merge_error) × (merge fl host b a ≡ err crdt_merge_error))
        × (a.rover_id ≡ b.rover_id
            → (c : RoverState P F V) × (d : RoverState P F V) × (merge fl host a b ≡ ok c)
              × (merge fl host b a ≡ ok d)
              × (content c.position ≡ content d.position)
              × (content c.status ≡ content d.status)
              × (content c.battery ≡ content d.battery)
              × (GCounter.value c.messages_sent ≡ GCounter.value d.messages_sent)
              × (GCounter.value c.distance_traveled ≡ GCounter.value d.distance_traveled))
  unfolding merge
  merge_agrees host a b ha hb = (
    λ differ. (
      rw (beq_ne a.rover_id b.rover_id differ) refl,
      rw (beq_ne b.rover_id a.rover_id (λ e. differ (sym e))) refl,
    ),
    λ same. (
      merge_parts fl host a b,
      merge_parts fl host b a,
      rw same (rw (beq_refl b.rover_id) refl),
      rw same (rw (beq_refl b.rover_id) refl),
      registers_commute history.positions a.position b.position ha.position_told hb.position_told,
      registers_commute history.statuses a.status b.status ha.status_told hb.status_told,
      registers_commute history.batteries a.battery b.battery ha.battery_told hb.battery_told,
      counters_commute a.messages_sent b.messages_sent ha.sent_once hb.sent_once,
      counters_commute a.distance_traveled b.distance_traveled ha.distance_once hb.distance_once,
    ),
  )
