-- ===== src/Tests/Counters.antt =====
-- Clocks and counters of the rovers "alpha" and "beta".
use autonomous_rover_swarm_c.Tests.{swap}
use autonomous_rover_swarm_c.Common.{
  ℕ, ◌≡◌, ◌↔◌, inl, refl, true, foldl, [], ◌∷◌, String, string_eq,
}
use autonomous_rover_swarm_c.Common.Dict.{lookup}
use autonomous_rover_swarm_c.Common.Dict
use autonomous_rover_swarm_c.Crdt.VectorClock.{VectorClock, happens_before}
use autonomous_rover_swarm_c.Crdt.VectorClock.Merge.{SameCounts}
use autonomous_rover_swarm_c.Crdt.VectorClock.Causality.{Precedes, happens_before_iff}
use autonomous_rover_swarm_c.Crdt.GCounter
use autonomous_rover_swarm_c.Crdt.GCounter.{GCounter, add_count}
use autonomous_rover_swarm_c.Crdt.GCounter.Value.{HasKeysOnce, add_count-HasKeysOnce}
use autonomous_rover_swarm_c.Crdt.GCounter.Sync.{replicas_converge, Covers, apply_delta-eq-merge}
use autonomous_rover_swarm_c.Crdt.PnCounter
use autonomous_rover_swarm_c.Crdt.PnCounter.{PnCounter}
use autonomous_rover_swarm_c.Crdt.PnCounter.Laws.{replicas_agree}

abbrev early : VectorClock
early = record { node_id = "alpha"; clocks = ("alpha", 1) ∷ [] }

abbrev late : VectorClock
late = record { node_id = "beta"; clocks = ("beta", 2) ∷ ("alpha", 1) ∷ [] }

happens_before_iff_example : (happens_before early late ≡ true) ↔ Precedes early late
happens_before_iff_example = happens_before_iff early late

abbrev alpha : GCounter
alpha = add_count 3 (GCounter.new "host" "alpha")

abbrev beta : GCounter
beta = add_count 4 (GCounter.new "host" "beta")

alpha_keys : HasKeysOnce alpha.counts
alpha_keys = add_count-HasKeysOnce 3 (GCounter.new "host" "alpha") (unfold Dict.keys in tt)

beta_keys : HasKeysOnce beta.counts
beta_keys = add_count-HasKeysOnce 4 (GCounter.new "host" "beta") (unfold Dict.keys in tt)

replicas_converge_example :
    (GCounter.value (foldl GCounter.merge alpha (beta ∷ []))
      ≡ GCounter.value (foldl GCounter.merge beta (alpha ∷ [])))
    × SameCounts
        (foldl GCounter.merge alpha (beta ∷ [])).counts
        (foldl GCounter.merge beta (alpha ∷ [])).counts
replicas_converge_example =
    replicas_converge alpha beta (beta ∷ []) (alpha ∷ []) alpha_keys (beta_keys, tt) beta_keys
      (alpha_keys, tt) (λ c m. swap m) (λ c m. swap m)

-- Everything that a counter has counted since it was made is in its delta.
all_in_delta :
    (n : ℕ) (node : String) (peer : GCounter) → Covers (add_count n (GCounter.new "host" node)) peer
all_in_delta n node peer other = unfold add_count in inl refl

alpha_delta : HasKeysOnce alpha.delta_counts
alpha_delta = unfold add_count in alpha_keys

apply_delta-eq-merge_example :
    SameCounts
      (GCounter.apply_delta (GCounter.delta alpha) beta).counts
      (GCounter.merge beta alpha).counts
apply_delta-eq-merge_example =
    apply_delta-eq-merge alpha beta alpha_delta (all_in_delta 3 "alpha" beta)

abbrev up_down : PnCounter
up_down = record { pos = alpha; neg = alpha; node_id = "alpha" }

abbrev down : PnCounter
down = record { pos = GCounter.new "host" "beta"; neg = beta; node_id = "beta" }

empty_keys : HasKeysOnce []
empty_keys = unfold Dict.keys in tt

replicas_agree_example :
    PnCounter.value (foldl PnCounter.merge up_down (down ∷ []))
    ≡ PnCounter.value (foldl PnCounter.merge down (up_down ∷ []))
replicas_agree_example =
    replicas_agree up_down down (down ∷ []) (up_down ∷ []) (alpha_keys, alpha_keys)
      ((empty_keys, beta_keys), tt) (empty_keys, beta_keys) ((alpha_keys, alpha_keys), tt)
      (λ c m. swap m) (λ c m. swap m)
