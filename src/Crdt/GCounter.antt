-- ===== src/Crdt/GCounter.antt =====
-- crdt/gcounter.py: a counter that only grows, one count for each node. `host` is the constant
-- `NODE_ID`, the name of the machine, which the default clock of a new counter carries.
pub mod Value
pub mod Sync
use autonomous_rover_swarm_c.Common.{
  ℕ, zero, suc, ◌+◌, max, String, string_eq, Option, none, some, List, [], ◌∷◌,
}
use autonomous_rover_swarm_c.Common.Int.{ℤ, pos, negsuc}
use autonomous_rover_swarm_c.Common.Errors.{Result, ok, err, value_error}
use autonomous_rover_swarm_c.Common.Dict.{Dict, insert}
use autonomous_rover_swarm_c.Crdt.Base.{CrdtDelta}
use autonomous_rover_swarm_c.Crdt.VectorClock
use autonomous_rover_swarm_c.Crdt.VectorClock.{VectorClock, count_of, merge_counts}

pub record GCounter : Type 0 where
  pub node_id : String
  pub counts : Dict String ℕ
  pub vector_clock : VectorClock
  pub delta_counts : Dict String ℕ

-- `GCounter(node_id=node_id)`
abbrev pub new : String → String → GCounter
new host node_id = record {
  node_id = node_id;
  counts = [];
  vector_clock = VectorClock.fresh host;
  delta_counts = [];
}

-- `sum(self.counts.values())`
unfoldable pub sum_values : Dict String ℕ → ℕ
sum_values [] = 0
sum_values ((node, n) ∷ d) = n + sum_values d

unfoldable pub value : GCounter → ℕ
unfolding sum_values
value c = sum_values c.counts

-- What follows the guard of `increment`.
unfoldable pub add_count : ℕ → GCounter → GCounter
unfolding count_of VectorClock.tick
add_count amount c =
    let new_val = count_of c.counts c.node_id + amount in
    record c {
      counts = insert c.node_id new_val c.counts;
      delta_counts = insert c.node_id new_val c.delta_counts;
      vector_clock = (VectorClock.tick none c.vector_clock).0;
    }

unfoldable pub increment : ℤ → GCounter → Result GCounter
unfolding add_count
increment (pos zero) c = err value_error
increment (pos (suc n)) c = ok (add_count (suc n) c)
increment (negsuc n) c = err value_error

unfoldable pub merge : GCounter → GCounter → GCounter
unfolding merge_counts VectorClock.merge
merge a b = record {
  node_id = a.node_id;
  counts = merge_counts a.counts b.counts;
  vector_clock = VectorClock.merge a.vector_clock b.vector_clock;
  delta_counts = [];
}

unfoldable pub delta : GCounter → CrdtDelta (Dict String ℕ)
unfolding VectorClock.items
delta c = record {
  value = c.delta_counts;
  vector_clock = VectorClock.items c.vector_clock;
  source_id = c.node_id;
  timestamp = 0;
}

-- The loop of `apply_delta`.
unfoldable pub absorb : Dict String ℕ → Dict String ℕ → Dict String ℕ
unfolding count_of
absorb counts [] = counts
absorb counts ((node, count) ∷ d) = absorb (insert node (max (count_of counts node) count) counts) d

-- The source merges the clocks and drops the result, so the clock stays as it was.
unfoldable pub apply_delta : CrdtDelta (Dict String ℕ) → GCounter → GCounter
unfolding absorb
apply_delta d c = record c { counts = absorb c.counts d.value }

unfoldable pub reset_delta : GCounter → GCounter
reset_delta c = record c { delta_counts = [] }
