-- ===== src/Crdt/Base.antt =====
-- crdt/base.py: the change that one replica sends another.
use autonomous_rover_swarm_c.Common.{ℕ, String}
use autonomous_rover_swarm_c.Common.Dict.{Dict}

-- A time stamp is a non-negative float that the program compares and never adds to. It is held as
-- the bits of its IEEE double, a number: these are ordered as the floats are, and 0 stands for 0.0.
abbrev pub Timestamp : Type 0
Timestamp = ℕ

-- `CrdtDelta`; the tests `isinstance(delta.value, dict)` are settled by the type of `value`.
pub record CrdtDelta {ℓ} (V : Type ℓ) : Type ℓ where
  pub value : V
  pub vector_clock : Dict String ℕ
  pub source_id : String
  pub timestamp : Timestamp
