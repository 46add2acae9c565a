-- ===== src/Crdt/GCounter/Sync.antt =====
-- Increments, merges and deltas of crdt/gcounter.py.
use autonomous_rover_swarm_c.Common.{
  ℕ, zero, suc, ◌+◌, ◌≤◌, max, String, string_eq, ◌≡◌, ◌⊎◌, inl, inr, refl, All, foldl, List, [],
  ◌∷◌, arith,
}
use autonomous_rover_swarm_c.Common.Int.{ℤ, pos, negsuc}
use autonomous_rover_swarm_c.Common.Errors.{ok, err, value_error}
use autonomous_rover_swarm_c.Common.Dict.{Dict, lookup, insert, keys, lookup-insert, member-keys}
use autonomous_rover_swarm_c.Crdt.Lattice.{Lattice, merge_all-Valid, converges}
use autonomous_rover_swarm_c.Crdt.Lattice.Build.{product, through}
use autonomous_rover_swarm_c.Crdt.VectorClock
use autonomous_rover_swarm_c.Crdt.VectorClock.{VectorClock, count_of, merge_counts}
use autonomous_rover_swarm_c.Crdt.VectorClock.Merge.{
  SameCounts, counts_lattice, count_of-merge_counts,
}
use autonomous_rover_swarm_c.Crdt.GCounter.{
  GCounter, value, increment, add_count, merge, delta, absorb, apply_delta,
}
use autonomous_rover_swarm_c.Crdt.GCounter.Value.{
  HasKeysOnce, merge_counts-HasKeysOnce, value-Same, value-le, value-add_count,
}
use mathlib.Core.List.{Memᴰ}

-- What `increment` does: a positive amount is added to the value, and any other raises.
pub increment-value :
    (amount : ℤ) (c : GCounter)
    → ((n : ℕ) × (amount ≡ pos (suc n))
        × (increment amount c ≡ ok (add_count (suc n) c))
        × (value (add_count (suc n) c) ≡ value c + suc n))
      ⊎ (increment amount c ≡ err value_error)
unfolding increment
increment-value (pos zero) c = inr refl
increment-value (pos (suc n)) c = inl (n, refl, refl, value-add_count (suc n) c)
increment-value (negsuc n) c = inr refl

abbrev parts : GCounter → Dict String ℕ × Dict String ℕ
parts c = (c.counts, c.vector_clock.clocks)

-- Counters merge count by count, and so do their clocks.
unfoldable pub counter_lattice : Lattice GCounter
unfolding merge counts_lattice VectorClock.merge
counter_lattice =
    through (product counts_lattice counts_lattice) parts merge (λ c. HasKeysOnce c.counts)
      (λ a h. (tt, tt)) (λ a b _ _. (λ node. refl, λ node. refl))
      (λ a b _ _. merge_counts-HasKeysOnce a.counts b.counts)

-- Two replicas of a counter that have merged the same states, in whatever order and however often,
-- have the same value, and the same count at every node, if the dictionary of each state has each
-- node once.
pub replicas_converge :
    (s t : GCounter) (xs ys : List GCounter)
    → HasKeysOnce s.counts
    → All (λ c. HasKeysOnce c.counts) xs
    → HasKeysOnce t.counts
    → All (λ c. HasKeysOnce c.counts) ys
    → ((c : GCounter) → Memᴰ c (s ∷ xs) → Memᴰ c (t ∷ ys))
    → ((c : GCounter) → Memᴰ c (t ∷ ys) → Memᴰ c (s ∷ xs))
    → (value (foldl merge s xs) ≡ value (foldl merge t ys))
      × SameCounts (foldl merge s xs).counts (foldl merge t ys).counts
unfolding counter_lattice
replicas_converge s t xs ys hs hxs ht hys inc cni =
    let same = (converges counter_lattice s t xs ys hs hxs ht hys inc cni).0 in
    (
      value-Same (foldl merge s xs) (foldl merge t ys) (merge_all-Valid counter_lattice s xs hs hxs)
          (merge_all-Valid counter_lattice t ys ht hys) same,
      same,
    )

-- No increment is lost: a merge is worth at least each of the two counters, if the dictionary of
-- each has each node once.
pub merge-value-ge :
    (a b : GCounter)
    → HasKeysOnce a.counts
    → HasKeysOnce b.counts
    → (value a ≤ value (merge a b)) × (value b ≤ value (merge a b))
unfolding merge
merge-value-ge a b ha hb = (
  value-le a (merge a b) ha (merge_counts-HasKeysOnce a.counts b.counts)
      (λ node. omega (arith, count_of-merge_counts a.counts b.counts node)),
  value-le b (merge a b) hb (merge_counts-HasKeysOnce a.counts b.counts)
      (λ node. omega (arith, count_of-merge_counts a.counts b.counts node)),
)

count_of-absorb :
    (d counts : Dict String ℕ) (node : String)
    → HasKeysOnce d
    → count_of (absorb counts d) node ≡ max (count_of counts node) (count_of d node)
unfolding absorb count_of lookup keys
count_of-absorb [] counts node h = omega arith
count_of-absorb ((k, n) ∷ d) counts node h = ground (
  arith,
  count_of-absorb d (insert k (max (count_of counts k) n) counts) node h.1,
  lookup-insert k node (max (count_of counts k) n) counts,
  string_eq.beq_iff k node,
  member-keys k d,
)

-- What a counter's delta tells of its counts: it has the full count of each node that it names, and
-- the peer has seen the counts of the nodes that it leaves out.
abbrev pub Covers : GCounter → GCounter → Type 0
Covers sender peer =
    (node : String)
    → (count_of sender.delta_counts node ≡ count_of sender.counts node)
      ⊎ ((count_of sender.delta_counts node ≡ 0)
          × (count_of sender.counts node ≤ count_of peer.counts node))

-- To apply a counter's delta gives the counts of a full merge, if the delta names each node once
-- and the peer had seen what the delta leaves out.
pub apply_delta-eq-merge :
    (sender peer : GCounter)
    → HasKeysOnce sender.delta_counts
    → Covers sender peer
    → SameCounts (apply_delta (delta sender) peer).counts (merge peer sender).counts
unfolding apply_delta delta merge
apply_delta-eq-merge sender peer once covers node = omega (
  arith,
  count_of-absorb sender.delta_counts peer.counts node once,
  count_of-merge_counts peer.counts sender.counts node,
  covers node,
)

-- After an increment the delta has the full count of the counter's own node, and still covers what
-- it covered for a peer.
pub add_count-Covers :
    (amount : ℕ) (sender peer : GCounter)
    → Covers sender peer
    → Covers (add_count amount sender) peer
unfolding add_count count_of
add_count-Covers amount sender peer covers node = ground (
  arith,
  covers node,
  lookup-insert sender.node_id node (count_of sender.counts sender.node_id + amount) sender.counts,
  lookup-insert sender.node_id node (count_of sender.counts sender.node_id + amount)
      sender.delta_counts,
)
