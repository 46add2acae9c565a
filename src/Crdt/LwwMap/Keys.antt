-- ===== src/Crdt/LwwMap/Keys.antt =====
-- The operations on the keys of a map, and what its deltas do.
use autonomous_rover_swarm_c.Common.{
  ℕ, ◌<◌, String, string_eq, false, ◌≡◌, refl, Option, none, some, [], ◌∷◌, arith, if◌then◌else◌,
  is_some, ◌==◌, beq_refl,
}
use autonomous_rover_swarm_c.Common.Dict
use autonomous_rover_swarm_c.Common.Dict.{Dict, lookup, insert, lookup-insert, member-keys}
use autonomous_rover_swarm_c.Common.Sets.{member, member-add, IsDistinct}
use autonomous_rover_swarm_c.Crdt.Base.{Timestamp, CrdtDelta}
use autonomous_rover_swarm_c.Crdt.LwwReg
use autonomous_rover_swarm_c.Crdt.LwwReg.{LwwReg, later}
use autonomous_rover_swarm_c.Crdt.LwwMap.{
  LwwMap, get, set, delete, contains, keys, live_keys, or_new, value_or, update_key, delta,
  delta_values, set_each, apply_delta,
}

module _ {ℓ} {V : Type ℓ} where
  -- The time of the last write to a key, 0 if there was none.
  abbrev pub stored_time : Option (LwwReg V) → Timestamp
  stored_time none = 0
  stored_time (some r) = r.timestamp

  lookup-update_key :
      (change : LwwReg V → LwwReg V) (node key j : String) (d : Dict String (LwwReg V))
      → lookup j (update_key change node key d)
        ≡ (if key == j then some (change (or_new node (lookup key d))) else lookup j d)
  unfolding update_key
  lookup-update_key change node key j d =
      lookup-insert key j (change (or_new node (lookup key d))) d

  value-set :
      (v : Option V) (now : Timestamp) (r : LwwReg V)
      → r.timestamp < now
      → (LwwReg.set v none now r).value ≡ v
  unfolding LwwReg.set later
  value-set v now r h = ground arith

  time-or_new : (node : String) (o : Option (LwwReg V)) → (or_new node o).timestamp ≡ stored_time o
  unfolding LwwReg.new
  time-or_new node none = refl
  time-or_new node (some r) = refl

  -- A write or a deletion at a time later than the key's last write is read back at that key, and no
  -- other key changes.
  pub get-set :
      (key j : String) (v default : Option V) (now : Timestamp) (m : LwwMap V)
      → stored_time (lookup key m.registers) < now
      → get j default (set key v now m) ≡ (if key == j then v else get j default m)
  unfolding get set
  get-set key j v default now m h = ground (
    arith,
    lookup-update_key (LwwReg.set v none now) m.node_id key j m.registers,
    value-set v now (or_new m.node_id (lookup key m.registers)),
    time-or_new m.node_id (lookup key m.registers),
  )

  -- After a later deletion the key is not contained, and no other key changes.
  pub delete-removes :
      (key j : String) (now : Timestamp) (m : LwwMap V)
      → stored_time (lookup key m.registers) < now
      → (contains j (delete key now m) ≡ (if key == j then false else contains j m))
  unfolding contains delete
  delete-removes key j now m h = ground (
    arith,
    string_eq.beq_iff key j,
    lookup-update_key (LwwReg.set none none now) m.node_id key j m.registers,
    value-set none now (or_new m.node_id (lookup key m.registers)),
    time-or_new m.node_id (lookup key m.registers),
  )

  member-live_keys :
      (x : String) (d : Dict String (LwwReg V))
      → IsDistinct (Dict.keys d)
      → member x (live_keys d) ≡ is_some (value_or none (lookup x d))
  unfolding live_keys lookup Dict.keys member
  member-live_keys x [] h = refl
  member-live_keys x ((k, r) ∷ d) h = ground (
    arith,
    member-live_keys x d h.1,
    member-keys k d,
    member-add k x (live_keys d),
    string_eq.beq_iff k x,
    string_eq.beq_iff x k,
  )

  -- `keys` lists exactly the keys that `contains` finds, in a map whose dictionary has each key once.
  pub keys-contains :
      (x : String) (m : LwwMap V)
      → IsDistinct (Dict.keys m.registers)
      → member x (keys m) ≡ contains x m
  unfolding keys contains
  keys-contains x m h = member-live_keys x m.registers h

  delta-one :
      (key : String) (m : LwwMap V) (r : LwwReg V)
      → m.delta_keys ≡ key ∷ []
      → lookup key m.registers ≡ some r
      → (delta m).value ≡ (key, r.value) ∷ []
  unfolding delta delta_values
  delta-one key m r h k = rw h (rw (k, delta_values) refl)

  apply-one :
      (key : String) (v default : Option V) (clock : ℕ → Timestamp)
      (d : CrdtDelta (Dict String (Option V))) (m : LwwMap V)
      → d.value ≡ (key, v) ∷ []
      → stored_time (lookup key m.registers) < clock 0
      → get key default (apply_delta d clock m) ≡ v
  unfolding get apply_delta set_each
  apply-one key v default clock d m h lt =
      rw (h, set_each)
        (ground (
          arith,
          beq_refl key,
          lookup-update_key (LwwReg.set v none (clock 0)) m.node_id key key m.registers,
          value-set v (clock 0) (or_new m.node_id (lookup key m.registers)),
          time-or_new m.node_id (lookup key m.registers),
        ))

  -- A delta carries values without their times, and a peer stamps them with its own clock. So two
  -- replicas that each send the other their write to one key, and whose clocks are past the time of
  -- their own write, swap the two values, whichever write was the later.
  pub deltas_swap :
      (key : String) (default : Option V) (a b : LwwMap V) (r s : LwwReg V)
      (clock_a clock_b : ℕ → Timestamp)
      → a.delta_keys ≡ key ∷ []
      → b.delta_keys ≡ key ∷ []
      → lookup key a.registers ≡ some r
      → lookup key b.registers ≡ some s
      → r.timestamp < clock_a 0
      → s.timestamp < clock_b 0
      → (get key default (apply_delta (delta b) clock_a a) ≡ s.value)
        × (get key default (apply_delta (delta a) clock_b b) ≡ r.value)
  deltas_swap key default a b r s clock_a clock_b ka kb la lb ta tb = (
    apply-one key s.value default clock_a (delta b) a (delta-one key b s kb lb) (rw la ta),
    apply-one key r.value default clock_b (delta a) b (delta-one key a r ka la) (rw lb tb),
  )
