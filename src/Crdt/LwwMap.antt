-- ===== src/Crdt/LwwMap.antt =====
-- crdt/lwwmap.py: a dictionary of last-writer-wins registers. `none` as a value is Python's `None`,
-- which stands for a deleted key. A register counts as true in a test, so `reg` is "there is one".
pub mod Merge
pub mod Keys
use autonomous_rover_swarm_c.Common.{
  ℕ, suc, ◌+◌, String, string_eq, Bool, true, false, not, Option, none, some, List, [], ◌∷◌, length,
  is_some, if◌then◌else◌,
}
use autonomous_rover_swarm_c.Common.Errors.{Result, ok, err, key_error}
use autonomous_rover_swarm_c.Common.Dict
use autonomous_rover_swarm_c.Common.Dict.{Dict, lookup, insert, fill_some}
use autonomous_rover_swarm_c.Common.Sets.{union}
use autonomous_rover_swarm_c.Common.Sets
use autonomous_rover_swarm_c.Crdt.Base.{Timestamp, CrdtDelta}
use autonomous_rover_swarm_c.Crdt.LwwReg
use autonomous_rover_swarm_c.Crdt.LwwReg.{LwwReg}
use autonomous_rover_swarm_c.Crdt.VectorClock
use autonomous_rover_swarm_c.Crdt.VectorClock.{VectorClock}

pub record LwwMap {ℓ} (V : Type ℓ) : Type ℓ where
  pub node_id : String
  pub vector_clock : VectorClock
  pub registers : Dict String (LwwReg V)
  pub delta_keys : List String

module _ {ℓ} {V : Type ℓ} where
  -- `__init__`
  unfoldable pub new : String → Option VectorClock → LwwMap V
  unfolding VectorClock.or_fresh
  new node_id vector_clock = record {
    node_id = node_id;
    vector_clock = VectorClock.or_fresh vector_clock node_id;
    registers = [];
    delta_keys = [];
  }

  abbrev or_new : String → Option (LwwReg V) → LwwReg V
  or_new node_id none = LwwReg.new none 0 node_id none
  or_new node_id (some r) = r

  -- `_get_or_create(key)` and then a change of the register: the new dictionary.
  unfoldable pub update_key :
      (LwwReg V → LwwReg V) → String → String → Dict String (LwwReg V) → Dict String (LwwReg V)
  update_key change node_id key d = insert key (change (or_new node_id (lookup key d))) d

  abbrev value_or : Option V → Option (LwwReg V) → Option V
  value_or default none = default
  value_or default (some r) = r.value

  unfoldable pub get : String → Option V → LwwMap V → Option V
  get key default m = value_or default (lookup key m.registers)

  -- `now` is the time that the register reads.
  unfoldable pub set : String → Option V → Timestamp → LwwMap V → LwwMap V
  unfolding update_key LwwReg.set VectorClock.tick
  set key value now m = record m {
    registers = update_key (LwwReg.set value none now) m.node_id key m.registers;
    delta_keys = Sets.add key m.delta_keys;
    vector_clock = (VectorClock.tick none m.vector_clock).0;
  }

  unfoldable pub delete : String → Timestamp → LwwMap V → LwwMap V
  unfolding update_key LwwReg.set VectorClock.tick
  delete key now m =
      if is_some (lookup key m.registers)
      then record m {
        registers = update_key (LwwReg.set none none now) m.node_id key m.registers;
        delta_keys = Sets.add key m.delta_keys;
        vector_clock = (VectorClock.tick none m.vector_clock).0;
      }
      else m

  unfoldable pub contains : String → LwwMap V → Bool
  contains key m = is_some (value_or none (lookup key m.registers))

  -- The loop of `keys` over the items.
  live_keys : Dict String (LwwReg V) → List String
  live_keys [] = []
  live_keys ((k, r) ∷ d) =
      let rest = live_keys d in if is_some r.value then Sets.add k rest else rest

  unfoldable pub keys : LwwMap V → List String
  unfolding live_keys
  keys m = live_keys m.registers

  -- The `if`/`elif` of the loop in `merge`.
  abbrev pub merge_registers : Option (LwwReg V) → Option (LwwReg V) → Option (LwwReg V)
  merge_registers (some a) (some b) = some (LwwReg.merge a b)
  merge_registers (some a) none = some a
  merge_registers none b = b

  unfoldable pub merge : LwwMap V → LwwMap V → LwwMap V
  unfolding new VectorClock.merge
  merge a b = record (new a.node_id (some (VectorClock.merge a.vector_clock b.vector_clock))) {
    registers =
        fill_some (λ key. merge_registers (lookup key a.registers) (lookup key b.registers))
          (union (Dict.keys a.registers) (Dict.keys b.registers)) [];
  }

  -- The loop of `delta`: values only, with no time.
  delta_values : Dict String (LwwReg V) → List String → Dict String (Option V)
  delta_values d [] = []
  delta_values d (key ∷ ks) =
      let rest = delta_values d ks in
      elim (lookup key d) [ none ↦ rest | some r ↦ (key, r.value) ∷ rest ]

  unfoldable pub delta : LwwMap V → CrdtDelta (Dict String (Option V))
  unfolding delta_values VectorClock.items
  delta m = record {
    value = delta_values m.registers m.delta_keys;
    vector_clock = VectorClock.items m.vector_clock;
    source_id = m.node_id;
    timestamp = 0;
  }

  -- The loop of `apply_delta`; `clock i` is the time that the i-th call of `set` reads.
  unfoldable pub set_each :
      (ℕ → Timestamp)
      → ℕ
      → String
      → Dict String (Option V)
      → Dict String (LwwReg V)
      → Dict String (LwwReg V)
  unfolding update_key LwwReg.set
  set_each clock i node_id [] d = d
  set_each clock i node_id ((key, val) ∷ more) d =
      set_each clock (suc i) node_id more (update_key (LwwReg.set val none (clock i)) node_id key d)

  -- The source merges the clocks and drops the result, so the clock stays as it was.
  unfoldable pub apply_delta :
      CrdtDelta (Dict String (Option V)) → (ℕ → Timestamp) → LwwMap V → LwwMap V
  unfolding set_each
  apply_delta d clock m = record m { registers = set_each clock 0 m.node_id d.value m.registers }

  unfoldable pub reset_delta : LwwMap V → LwwMap V
  reset_delta m = record m { delta_keys = [] }

  -- `__getitem__`
  unfoldable pub get_item : String → LwwMap V → Result V
  get_item key m = elim (value_or none (lookup key m.registers)) [
    | none ↦ err key_error
    | some v ↦ ok v
  ]

  -- `__len__`
  unfoldable pub size : LwwMap V → ℕ
  unfolding keys
  size m = length (keys m)
