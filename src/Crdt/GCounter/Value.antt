-- ===== src/Crdt/GCounter/Value.antt =====
-- The value of a counter of crdt/gcounter.py, and the order of its dictionary.
use autonomous_rover_swarm_c.Common.{
  ℕ, ◌+◌, ◌≤◌, max, String, string_eq, ◌≡◌, refl, [], ◌∷◌, arith, List,
}
use autonomous_rover_swarm_c.Common.Dict.{
  Dict, lookup, insert, remove, keys, fill, lookup-insert, lookup-remove, member-keys,
}
use autonomous_rover_swarm_c.Common.Sets.{member, union, IsDistinct}
use autonomous_rover_swarm_c.Crdt.VectorClock.{count_of, merge_counts}
use autonomous_rover_swarm_c.Crdt.VectorClock.Merge.{SameCounts}
use autonomous_rover_swarm_c.Crdt.GCounter.{GCounter, sum_values, value, add_count}

-- A Python dictionary has each key once.
abbrev pub HasKeysOnce : Dict String ℕ → Type 0
HasKeysOnce d = IsDistinct (keys d)

insert-HasKeysOnce :
    (k : String) (n : ℕ) (d : Dict String ℕ) → HasKeysOnce d → HasKeysOnce (insert k n d)
unfolding keys insert
insert-HasKeysOnce k n [] h = (unfold member in refl, tt)
insert-HasKeysOnce k n ((j, m) ∷ d) h = ground (
  arith,
  insert-HasKeysOnce k n d,
  member-keys j (insert k n d),
  member-keys j d,
  lookup-insert k j n d,
  string_eq.beq_iff k j,
  string_eq.beq_iff j k,
)

fill-HasKeysOnce :
    (f : String → ℕ) (ks : List String) (d : Dict String ℕ)
    → HasKeysOnce d
    → HasKeysOnce (fill f ks d)
unfolding fill
fill-HasKeysOnce f [] d h = h
fill-HasKeysOnce f (k ∷ ks) d h =
    fill-HasKeysOnce f ks (insert k (f k) d) (insert-HasKeysOnce k (f k) d h)

pub merge_counts-HasKeysOnce : (a b : Dict String ℕ) → HasKeysOnce (merge_counts a b)
unfolding merge_counts
merge_counts-HasKeysOnce a b =
    fill-HasKeysOnce (λ n. max (count_of a n) (count_of b n)) (union (keys a) (keys b)) []
      (unfold keys in tt)

pub sum_values-insert :
    (k : String) (n : ℕ) (d : Dict String ℕ)
    → sum_values (insert k n d) + count_of d k ≡ sum_values d + n
unfolding sum_values insert count_of lookup
sum_values-insert k n [] = omega arith
sum_values-insert k n ((j, m) ∷ d) = ground (arith, sum_values-insert k n d)

remove-HasKeysOnce : (k : String) (d : Dict String ℕ) → HasKeysOnce d → HasKeysOnce (remove k d)
unfolding keys remove
remove-HasKeysOnce k [] h = tt
remove-HasKeysOnce k ((j, m) ∷ d) h = ground (
  arith,
  remove-HasKeysOnce k d,
  member-keys j (remove k d),
  member-keys j d,
  lookup-remove k j d,
)

sum_values-remove :
    (k : String) (d : Dict String ℕ)
    → HasKeysOnce d
    → sum_values d ≡ count_of d k + sum_values (remove k d)
unfolding sum_values remove count_of lookup keys
sum_values-remove k [] h = omega arith
sum_values-remove k ((j, m) ∷ d) h =
    ground (arith, sum_values-remove k d, member-keys j d, string_eq.beq_iff j k)

-- A dictionary that counts no more anywhere has no larger sum.
sum_values-le :
    (a b : Dict String ℕ)
    → HasKeysOnce a
    → HasKeysOnce b
    → ((node : String) → count_of a node ≤ count_of b node)
    → sum_values a ≤ sum_values b
unfolding sum_values
sum_values-le [] b ha hb h = omega arith
sum_values-le ((k, v) ∷ a) b ha hb h = omega (
  arith,
  sum_values-remove k b hb,
  head_le,
  sum_values-le a (remove k b) (tail_once ha) (remove-HasKeysOnce k b hb) tail_le,
)
  where
    tail_once : HasKeysOnce ((k, v) ∷ a) → HasKeysOnce a
    tail_once p = unfold keys in p.1

    head_le : v ≤ count_of b k
    head_le = unfold count_of lookup in ground (arith, h k, string_eq.beq_iff k k)

    tail_le : (node : String) → count_of a node ≤ count_of (remove k b) node
    tail_le node =
        unfold keys count_of lookup in
        ground (arith, h node, lookup-remove k node b, member-keys k a, string_eq.beq_iff k node)

-- Counters that agree at every node have the same value.
pub value-Same :
    (a b : GCounter)
    → HasKeysOnce a.counts
    → HasKeysOnce b.counts
    → SameCounts a.counts b.counts
    → value a ≡ value b
unfolding value
value-Same a b ha hb h = omega (
  arith,
  sum_values-le a.counts b.counts ha hb (λ node. omega (arith, h node)),
  sum_values-le b.counts a.counts hb ha (λ node. omega (arith, h node)),
)

pub value-le :
    (a b : GCounter)
    → HasKeysOnce a.counts
    → HasKeysOnce b.counts
    → ((node : String) → count_of a.counts node ≤ count_of b.counts node)
    → value a ≤ value b
unfolding value
value-le a b ha hb h = sum_values-le a.counts b.counts ha hb h

pub value-add_count : (amount : ℕ) (c : GCounter) → value (add_count amount c) ≡ value c + amount
unfolding value add_count
value-add_count amount c =
    omega (arith, sum_values-insert c.node_id (count_of c.counts c.node_id + amount) c.counts)

pub add_count-HasKeysOnce :
    (amount : ℕ) (c : GCounter) → HasKeysOnce c.counts → HasKeysOnce (add_count amount c).counts
unfolding add_count
add_count-HasKeysOnce amount c h =
    insert-HasKeysOnce c.node_id (count_of c.counts c.node_id + amount) c.counts h
