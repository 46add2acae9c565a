-- ===== src/Communication/NetworkSimulator.antt =====
-- communication/network_simulator.py: lost packets and partitions. `F` is the floats, and `roll` what
-- `random.random()` returns in a call.
use autonomous_rover_swarm_c.Common.{
  String, string_eq, Bool, false, not, ◌&&◌, Option, none, some, or_else, List, [], ◌∷◌,
  if◌then◌else◌, ◌==◌,
}
use autonomous_rover_swarm_c.Common.Floats.{Floats}
use autonomous_rover_swarm_c.Common.Sets
use autonomous_rover_swarm_c.Common.Sets.{member, difference}

pub record NetworkSimulator {ℓ} (F : Type ℓ) : Type ℓ where
  pub min_latency : F
  pub max_latency : F
  pub packet_loss_rate : F
  pub partition_probability : F
  pub partitioned_nodes : List String

-- The keyword arguments of `configure`, each of which may be missing.
pub record Settings {ℓ} (F : Type ℓ) : Type ℓ where
  pub min_latency_ms : Option F
  pub max_latency_ms : Option F
  pub packet_loss_rate : Option F
  pub partition_probability : Option F

abbrev seconds_or {ℓ} : {F : Type ℓ} → Floats F → F → Option F → F
seconds_or fl old none = old
seconds_or fl old (some ms) = fl.div ms (fl.of_nat 1000)

module _ {ℓ} {F : Type ℓ} where
  unfoldable pub is_partitioned : String → NetworkSimulator F → Bool
  is_partitioned target_node s = member target_node s.partitioned_nodes

  unfoldable pub heal_partition : String → NetworkSimulator F → NetworkSimulator F
  heal_partition target_node s = record s {
    partitioned_nodes = difference s.partitioned_nodes (target_node ∷ []);
  }

  unfoldable pub heal_all : NetworkSimulator F → NetworkSimulator F
  heal_all s = record s { partitioned_nodes = [] }

module _ {ℓ} {F : Type ℓ} (fl : Floats F) where
  open fl use {of_nat, div, lt}

  -- `__init__`
  unfoldable pub new : (min_ms max_ms loss partition : F) → NetworkSimulator F
  new min_ms max_ms loss partition = record {
    min_latency = div min_ms (of_nat 1000);
    max_latency = div max_ms (of_nat 1000);
    packet_loss_rate = loss;
    partition_probability = partition;
    partitioned_nodes = [];
  }

  unfoldable pub configure : Settings F → NetworkSimulator F → NetworkSimulator F
  configure k s = record s {
    min_latency = seconds_or fl s.min_latency k.min_latency_ms;
    max_latency = seconds_or fl s.max_latency k.max_latency_ms;
    packet_loss_rate = or_else k.packet_loss_rate s.packet_loss_rate;
    partition_probability = or_else k.partition_probability s.partition_probability;
  }

  unfoldable pub should_drop : F → NetworkSimulator F → Bool
  should_drop roll s = lt roll s.packet_loss_rate

  unfoldable pub simulate_partition : F → String → NetworkSimulator F → NetworkSimulator F
  simulate_partition roll target_node s =
      if lt roll s.partition_probability
      then record s { partitioned_nodes = Sets.add target_node s.partitioned_nodes }
      else s

  -- Whether a packet is sent; the delay before it changes nothing.
  unfoldable pub simulate_packet : F → String → NetworkSimulator F → Bool
  unfolding is_partitioned should_drop
  simulate_packet roll target_node s =
      if not (target_node == "") && is_partitioned target_node s
      then false
      else not (should_drop roll s)
