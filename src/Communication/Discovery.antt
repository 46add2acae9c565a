-- ===== src/Communication/Discovery.antt =====
-- communication/discovery.py: `RoverDiscovery` beside its socket: what it keeps of the messages that it
-- receives. `C` is the type of the capabilities.
use autonomous_rover_swarm_c.Common.{
  ℕ, String, string_eq, false, not, ◌||◌, ◌≡◌, refl, Option, none, some, is_some, or_else, List,
  keep, if◌then◌else◌, ◌==◌, arith, Bool-cases, Option-cases, inl, inr, beq_refl,
}
use autonomous_rover_swarm_c.Common.Dict.{Dict, lookup, insert, values, lookup-insert}
use autonomous_rover_swarm_c.Common.Floats.{Floats}

pub record DiscoveredRover {ℓ} (C F : Type ℓ) : Type ℓ where
  pub node_id : String
  pub address : String
  pub port : ℕ
  pub protocol : String
  pub capabilities : C
  pub last_seen : F

-- The JSON object of a message, with the keys that are read.
pub record Info {ℓ} (C : Type ℓ) : Type ℓ where
  pub node_id : Option String
  pub port : Option ℕ
  pub protocol : Option String
  pub capabilities : Option C

pub record RoverDiscovery {ℓ} (C F : Type ℓ) : Type ℓ where
  pub node_id : String
  pub discovered : Dict String (DiscoveredRover C F)

module _ {ℓ} {C F : Type ℓ} where
  abbrev rover_of : C → Info C → String → String → F → DiscoveredRover C F
  rover_of no_capabilities info node_id address now = record {
    node_id = node_id;
    address = address;
    port = or_else info.port 0;
    protocol = or_else info.protocol "unknown";
    capabilities = or_else info.capabilities no_capabilities;
    last_seen = now;
  }

  -- One round of `listen`, with the rover that the callbacks get, if it is new. `no_capabilities` is
  -- the empty list.
  unfoldable pub hear :
      C
      → Info C
      → (address : String) → (now : F) → RoverDiscovery C F
      → RoverDiscovery C F × Option (DiscoveredRover C F)
  hear no_capabilities info address now s =
      let node_id = or_else info.node_id "" in
      let rover = rover_of no_capabilities info node_id address now in
      if node_id == "" || node_id == s.node_id
      then (s, none)
      else elim (lookup node_id s.discovered) [
        | none ↦ (record s { discovered = insert node_id rover s.discovered }, some rover)
        | some old ↦ (
          record s { discovered = insert node_id (record old { last_seen = now }) s.discovered },
          none,
        )
      ]

  -- The rovers that were heard in the last two minutes.
  unfoldable pub discovered_rovers :
      Floats F → (now : F) → RoverDiscovery C F → List (DiscoveredRover C F)
  discovered_rovers fl now s =
      keep (λ r. fl.lt (fl.sub now r.last_seen) (fl.of_nat 120)) (values s.discovered)

  -- A node is never in its own table, and a rover is announced exactly when a message from another
  -- node comes from one that the table does not have; then, and at each later message, the table has
  -- the rover, last seen at the time of the message.
  pub hear_lem :
      (no_capabilities : C) (info : Info C) (address : String) (now : F) (s : RoverDiscovery C F)
      → let node_id = or_else info.node_id "" in
        let after = hear no_capabilities info address now s in
        (lookup s.node_id after.0.discovered ≡ lookup s.node_id s.discovered)
        × (((node_id == "") || (node_id == s.node_id)) ≡ false
            → (is_some after.1 ≡ not (is_some (lookup node_id s.discovered)))
              × ((r : DiscoveredRover C F) × (lookup node_id after.0.discovered ≡ some r)
                  × (r.last_seen ≡ now)))
  unfolding hear
  hear_lem no_capabilities info address now s =
      let node_id = or_else info.node_id "" in
      let rover = rover_of no_capabilities info node_id address now in
      elim (Bool-cases (node_id == "" || node_id == s.node_id)) [
        | inl skip ↦ (ground (arith, skip), λ h. absurd (ground (arith, h, skip)))
        | inr heard ↦ elim (Option-cases (lookup node_id s.discovered)) [
          | inl fresh ↦ (
            ground (
              arith,
              heard,
              fresh,
              string_eq.beq_iff node_id s.node_id,
              lookup-insert node_id s.node_id rover s.discovered,
            ),
            λ h. (
              ground (arith, heard, fresh),
              (
                rover,
                ground (
                  arith,
                  heard,
                  fresh,
                  beq_refl node_id,
                  lookup-insert node_id node_id rover s.discovered,
                ),
                refl,
              ),
            ),
          )
          | inr (old, found) ↦
              let seen = record old { last_seen = now } in
              (
                ground (
                  arith,
                  heard,
                  found,
                  string_eq.beq_iff node_id s.node_id,
                  lookup-insert node_id s.node_id seen s.discovered,
                ),
                λ h. (
                  ground (arith, heard, found),
                  (
                    seen,
                    ground (
                      arith,
                      heard,
                      found,
                      beq_refl node_id,
                      lookup-insert node_id node_id seen s.discovered,
                    ),
                    refl,
                  ),
                ),
              )
        ]
      ]
