-- ===== src/Crdt/GSet.antt =====
-- crdt/gset.py: a set to which elements are only added.
pub mod Laws
use autonomous_rover_swarm_c.Common.{
  ℕ, String, Bool, true, false, not, Option, none, some, List, [], Key, length, if◌then◌else◌,
}
use autonomous_rover_swarm_c.Common.Sets
use autonomous_rover_swarm_c.Common.Sets.{member, union, update, nonempty}
use autonomous_rover_swarm_c.Crdt.Base.{CrdtDelta}
use autonomous_rover_swarm_c.Crdt.VectorClock
use autonomous_rover_swarm_c.Crdt.VectorClock.{VectorClock}

pub record GSet {ℓ} (A : Type ℓ) : Type ℓ where
  pub elements : List A
  pub node_id : String
  pub vector_clock : VectorClock
  pub delta_elements : List A

module _ {ℓ} {A : Type ℓ} ⦃e : Key A⦄ where
  -- `__init__`; no elements and an empty set come to the same
  unfoldable pub new : List A → String → Option VectorClock → GSet A
  unfolding VectorClock.or_fresh
  new elements node_id vector_clock = record {
    elements = elements;
    node_id = node_id;
    vector_clock = VectorClock.or_fresh vector_clock node_id;
    delta_elements = [];
  }

  unfoldable pub add : A → GSet A → GSet A
  unfolding VectorClock.tick
  add element s =
      if not (member element s.elements)
      then record s {
        elements = Sets.add element s.elements;
        delta_elements = Sets.add element s.delta_elements;
        vector_clock = (VectorClock.tick none s.vector_clock).0;
      }
      else s

  unfoldable pub contains : A → GSet A → Bool
  contains element s = member element s.elements

  unfoldable pub merge : GSet A → GSet A → GSet A
  unfolding new VectorClock.merge
  merge a b =
      new (union a.elements b.elements) a.node_id
        (some (VectorClock.merge a.vector_clock b.vector_clock))

  unfoldable pub delta : GSet A → CrdtDelta (List A)
  unfolding VectorClock.items
  delta s = record {
    value = s.delta_elements;
    vector_clock = VectorClock.items s.vector_clock;
    source_id = s.node_id;
    timestamp = 0;
  }

  -- The source merges the clocks and drops the result, so the clock stays as it was.
  unfoldable pub apply_delta : CrdtDelta (List A) → GSet A → GSet A
  apply_delta d s = record s { elements = update s.elements d.value }

  unfoldable pub reset_delta : GSet A → GSet A
  reset_delta s = record s { delta_elements = [] }

  -- `__len__`
  unfoldable pub size : GSet A → ℕ
  size s = length s.elements
