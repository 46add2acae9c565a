-- ===== src/Crdt/PnCounter.antt =====
-- crdt/pncounter.py: two grow-only counters, one for the increments and one for the decrements.
-- `pos or GCounter(...)` keeps every counter that is given, since a counter has no length.
pub mod Laws
use autonomous_rover_swarm_c.Common.{ℕ, String, Option, none, some, or_else, List, []}
use autonomous_rover_swarm_c.Common.Int.{ℤ, sub_ℕ}
use autonomous_rover_swarm_c.Common.Errors.{Result, ok, err, ◌>>=◌}
use autonomous_rover_swarm_c.Common.Dict.{Dict}
use autonomous_rover_swarm_c.Crdt.Base.{CrdtDelta}
use autonomous_rover_swarm_c.Crdt.GCounter
use autonomous_rover_swarm_c.Crdt.GCounter.{GCounter, absorb}

pub record PnCounter : Type 0 where
  pub pos : GCounter
  pub neg : GCounter
  pub node_id : String

-- `__init__`
abbrev pub new : String → Option GCounter → Option GCounter → String → PnCounter
new host pos neg node_id = record {
  pos = or_else pos (GCounter.new host node_id);
  neg = or_else neg (GCounter.new host node_id);
  node_id = node_id;
}

unfoldable pub value : PnCounter → ℤ
value c = sub_ℕ (GCounter.value c.pos) (GCounter.value c.neg)

unfoldable pub increment : ℤ → PnCounter → Result PnCounter
increment amount c = do counter ← GCounter.increment amount c.pos; ok (record c { pos = counter })

unfoldable pub decrement : ℤ → PnCounter → Result PnCounter
decrement amount c = do counter ← GCounter.increment amount c.neg; ok (record c { neg = counter })

unfoldable pub merge : PnCounter → PnCounter → PnCounter
merge a b = record {
  pos = GCounter.merge a.pos b.pos;
  neg = GCounter.merge a.neg b.neg;
  node_id = a.node_id;
}

-- The value of a delta: the keys "pos" and "neg", each of which may be missing.
pub record Change : Type 0 where
  pub pos : Option (Dict String ℕ)
  pub neg : Option (Dict String ℕ)

unfoldable pub delta : PnCounter → CrdtDelta Change
delta c = record {
  value = record { pos = some c.pos.delta_counts; neg = some c.neg.delta_counts };
  vector_clock = [];
  source_id = c.node_id;
  timestamp = 0;
}

abbrev absorb_if : Option (Dict String ℕ) → GCounter → GCounter
absorb_if none g = g
absorb_if (some d) g = record g { counts = absorb g.counts d }

unfoldable pub apply_delta : CrdtDelta Change → PnCounter → PnCounter
apply_delta d c = record c { pos = absorb_if d.value.pos c.pos; neg = absorb_if d.value.neg c.neg }

unfoldable pub reset_delta : PnCounter → PnCounter
reset_delta c = record c { pos = GCounter.reset_delta c.pos; neg = GCounter.reset_delta c.neg }
