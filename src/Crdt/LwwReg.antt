-- ===== src/Crdt/LwwReg.antt =====
-- crdt/lwwreg.py: a register that keeps the write with the latest stamp, a time and a node. A value
-- is an `Option`, `none` being Python's `None`. `now` is what `time.time()` returns in the call.
pub mod Merge
pub mod Writes
use autonomous_rover_swarm_c.Common.{
  ℕ, String, Bool, ◌&&◌, ◌||◌, Option, none, some, or_else, ltb, eqb, if◌then◌else◌,
}
use autonomous_rover_swarm_c.Common.Text.{str_ltb}
use autonomous_rover_swarm_c.Crdt.Base.{Timestamp, CrdtDelta}
use autonomous_rover_swarm_c.Crdt.VectorClock
use autonomous_rover_swarm_c.Crdt.VectorClock.{VectorClock}

pub record LwwReg {ℓ} (V : Type ℓ) : Type ℓ where
  pub value : Option V
  pub timestamp : Timestamp
  pub node_id : String
  pub vector_clock : VectorClock
  pub delta_value : Option V
  pub delta_timestamp : Timestamp
  pub delta_node_id : String

-- The stamp `(t', n')` is later than `(t, n)`: a later time, or the same time and a higher node.
unfoldable pub later : Timestamp → String → Timestamp → String → Bool
later t' n' t n = ltb t t' || (eqb t' t && str_ltb n n')

module _ {ℓ} {V : Type ℓ} where
  -- `__init__`
  unfoldable pub new : Option V → Timestamp → String → Option VectorClock → LwwReg V
  unfolding VectorClock.or_fresh
  new value timestamp node_id vector_clock = record {
    value = value;
    timestamp = timestamp;
    node_id = node_id;
    vector_clock = VectorClock.or_fresh vector_clock node_id;
    delta_value = none;
    delta_timestamp = 0;
    delta_node_id = node_id;
  }

  unfoldable pub set : Option V → Option Timestamp → Timestamp → LwwReg V → LwwReg V
  unfolding VectorClock.tick
  set new_value timestamp now r =
      let ts = or_else timestamp now in
      if later ts r.node_id r.timestamp r.delta_node_id
      then record r {
        delta_value = new_value;
        delta_timestamp = ts;
        delta_node_id = r.node_id;
        value = new_value;
        timestamp = ts;
        vector_clock = (VectorClock.tick none r.vector_clock).0;
      }
      else r

  unfoldable pub merge : LwwReg V → LwwReg V → LwwReg V
  unfolding new VectorClock.merge
  merge a b =
      let merged : LwwReg V = record (new a.value a.timestamp a.node_id none) {
        vector_clock = VectorClock.merge a.vector_clock b.vector_clock;
      } in
      if later b.timestamp b.node_id a.timestamp a.node_id
      then record merged { value = b.value; timestamp = b.timestamp; node_id = b.node_id }
      else merged

  unfoldable pub delta : LwwReg V → CrdtDelta (Option V)
  unfolding VectorClock.items
  delta r = record {
    value = r.delta_value;
    vector_clock = VectorClock.items r.vector_clock;
    source_id = r.delta_node_id;
    timestamp = r.delta_timestamp;
  }

  -- The source merges the clocks and drops the result, so the clock stays as it was.
  unfoldable pub apply_delta : CrdtDelta (Option V) → LwwReg V → LwwReg V
  apply_delta d r =
      if later d.timestamp d.source_id r.timestamp r.node_id
      then record r { value = d.value; timestamp = d.timestamp; node_id = d.source_id }
      else r

  unfoldable pub reset_delta : LwwReg V → LwwReg V
  reset_delta r = record r { delta_value = none; delta_timestamp = 0 }
