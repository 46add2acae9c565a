-- ===== src/Crdt/PnCounter/Laws.antt =====
-- The operations of crdt/pncounter.py, merges and deltas.
use autonomous_rover_swarm_c.Common.{ℕ, suc, ◌≡◌, refl, ap₂, List, ◌∷◌, foldl, All, arith}
use autonomous_rover_swarm_c.Common.Int.{ℤ, pos, sub_ℕ, sub_ℕ-eq}
use autonomous_rover_swarm_c.Common.Errors.{Result, ok, err, ◌>>=◌}
use autonomous_rover_swarm_c.Crdt.Lattice.{Lattice, merge_all-Valid, converges}
use autonomous_rover_swarm_c.Crdt.Lattice.Build.{product, through}
use autonomous_rover_swarm_c.Crdt.GCounter
use autonomous_rover_swarm_c.Crdt.GCounter.{GCounter, absorb}
use autonomous_rover_swarm_c.Crdt.GCounter.Value.{
  HasKeysOnce, value-add_count, value-Same, merge_counts-HasKeysOnce,
}
use autonomous_rover_swarm_c.Crdt.GCounter.Sync.{counter_lattice, Covers, apply_delta-eq-merge}
use autonomous_rover_swarm_c.Crdt.VectorClock.Merge.{SameCounts}
use autonomous_rover_swarm_c.Crdt.PnCounter.{
  PnCounter, value, increment, decrement, merge, delta, apply_delta,
}
use mathlib.Core.List.{Memᴰ}

-- The value that a raised exception leaves is the old one.
abbrev pub value_after : PnCounter → Result PnCounter → ℤ
value_after c (ok d) = value d
value_after c (err e) = value c

-- A positive amount moves the value by exactly that amount, up by `increment` and down by
-- `decrement`: the one undoes the other.
pub decrement_undoes_increment :
    (n : ℕ) (c : PnCounter)
    → value_after c (increment (pos (suc n)) c >>= decrement (pos (suc n))) ≡ value c
unfolding increment decrement value GCounter.increment
decrement_undoes_increment n c =
    sub_ℕ-eq _ _ _ _ (omega (arith, value-add_count (suc n) c.pos, value-add_count (suc n) c.neg))

abbrev pub IsValid : PnCounter → Type 0
IsValid c = HasKeysOnce c.pos.counts × HasKeysOnce c.neg.counts

unfoldable pub pn_lattice : Lattice PnCounter
unfolding merge counter_lattice GCounter.merge
pn_lattice =
    through (product counter_lattice counter_lattice) (λ c. (c.pos, c.neg)) merge IsValid (λ c h. h)
      (λ a b _ _. ((λ node. refl, λ node. refl), (λ node. refl, λ node. refl)))
      (λ a b _ _. (
        merge_counts-HasKeysOnce a.pos.counts b.pos.counts,
        merge_counts-HasKeysOnce a.neg.counts b.neg.counts,
      ))

-- Two replicas that have merged the same states, in whatever order and however often, show the same
-- value, if the dictionaries of each state have each node once.
pub replicas_agree :
    (s t : PnCounter) (xs ys : List PnCounter)
    → IsValid s
    → All IsValid xs
    → IsValid t
    → All IsValid ys
    → ((c : PnCounter) → Memᴰ c (s ∷ xs) → Memᴰ c (t ∷ ys))
    → ((c : PnCounter) → Memᴰ c (t ∷ ys) → Memᴰ c (s ∷ xs))
    → value (foldl merge s xs) ≡ value (foldl merge t ys)
unfolding pn_lattice counter_lattice value
replicas_agree s t xs ys hs hxs ht hys inc cni =
    let same = converges pn_lattice s t xs ys hs hxs ht hys inc cni in
    let vs = merge_all-Valid pn_lattice s xs hs hxs in
    let vt = merge_all-Valid pn_lattice t ys ht hys in
    ap₂ sub_ℕ (value-Same (foldl merge s xs).pos (foldl merge t ys).pos vs.0 vt.0 same.0.0)
      (value-Same (foldl merge s xs).neg (foldl merge t ys).neg vs.1 vt.1 same.1.0)

-- To apply a counter's delta gives the counts of a full merge, if the delta names each node once
-- and the peer had seen what the delta leaves out.
pub apply_delta-eq-merge_counts :
    (sender peer : PnCounter)
    → HasKeysOnce sender.pos.delta_counts × HasKeysOnce sender.neg.delta_counts
    → Covers sender.pos peer.pos × Covers sender.neg peer.neg
    → SameCounts (apply_delta (delta sender) peer).pos.counts (merge peer sender).pos.counts
      × SameCounts (apply_delta (delta sender) peer).neg.counts (merge peer sender).neg.counts
unfolding apply_delta delta merge GCounter.apply_delta GCounter.delta
apply_delta-eq-merge_counts sender peer once covers = (
  apply_delta-eq-merge sender.pos peer.pos once.0 covers.0,
  apply_delta-eq-merge sender.neg peer.neg once.1 covers.1,
)
