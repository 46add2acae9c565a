-- ===== src/Crdt/VectorClock/Merge.antt =====
-- The counts after `merge` and `tick` of crdt/vector_clock.py.
use autonomous_rover_swarm_c.Common.{
  ℕ, ◌+◌, max, String, ◌||◌, Option, none, some, ◌≡◌, refl, sym, ◌∙◌, arith, ◌==◌, if◌then◌else◌,
  is_some, or_else, string_eq, [], ◌∷◌,
}
use autonomous_rover_swarm_c.Common.Dict.{
  Dict, lookup, keys, lookup-fill, member-keys, lookup-insert,
}
use autonomous_rover_swarm_c.Common.Sets.{union, member-union}
use autonomous_rover_swarm_c.Crdt.Lattice.{Lattice}
use autonomous_rover_swarm_c.Crdt.VectorClock.{
  VectorClock, count_of, get, own_or, tick, merge_counts, merge, or_fresh,
}

-- A key of either dictionary is a key of the merged one, and no other is.
pub lookup-merge_counts :
    (a b : Dict String ℕ) (node : String)
    → lookup node (merge_counts a b) ≡ (
        if is_some (lookup node a) || is_some (lookup node b)
        then some (max (count_of a node) (count_of b node))
        else none)
unfolding merge_counts
lookup-merge_counts a b node =
    rw (lookup-fill (λ n. max (count_of a n) (count_of b n)) (union (keys a) (keys b)) [] node)
      (rw member-union (simp (member-keys node a, member-keys node b) (unfold lookup in refl)))

pub count_of-merge_counts :
    (a b : Dict String ℕ) (node : String)
    → count_of (merge_counts a b) node ≡ max (count_of a node) (count_of b node)
unfolding count_of
count_of-merge_counts a b node = ground (arith, lookup-merge_counts a b node)

-- The merged clock has at each node the larger of the two counts.
pub get-merge :
    (a b : VectorClock) (node : String) → get (merge a b) node ≡ max (get a node) (get b node)
unfolding merge get
get-merge a b node = count_of-merge_counts a.clocks b.clocks node

-- A tick counts the ticking node up by one and leaves every other node alone; it returns the count.
pub tick-get :
    (o : Option String) (c : VectorClock) (node : String)
    → (get (tick o c).0 node ≡ (if own_or o c.node_id == node then get c node + 1 else get c node))
      × ((tick o c).1 ≡ get c (own_or o c.node_id) + 1)
unfolding tick get count_of
tick-get o c node =
    let own = own_or o c.node_id in
    (
      ground (
        arith,
        lookup-insert own node (or_else (lookup own c.clocks) 0 + 1) c.clocks,
        string_eq.beq_iff own node,
      ),
      refl,
    )

-- Two clocks that no reader of counts tells apart.
abbrev pub SameClock : VectorClock → VectorClock → Type 0
SameClock a b = (node : String) → get a node ≡ get b node

abbrev pub SameCounts : Dict String ℕ → Dict String ℕ → Type 0
SameCounts a b = (node : String) → count_of a node ≡ count_of b node

-- Dictionaries of counts, merged node by node, form a lattice.
unfoldable pub counts_lattice : Lattice (Dict String ℕ)
counts_lattice = record {
  merge = merge_counts;
  Same = SameCounts;
  Valid = λ a. Unit;
  same_refl = λ a node. refl;
  same_sym = λ a b h node. sym (h node);
  same_trans = λ a b c h k node. h node ∙ k node;
  merge-Valid = λ a b va vb. tt;
  merge-Same = λ a b c d _ _ _ _ h k node.
      omega (arith, count_of-merge_counts a c node, count_of-merge_counts b d node, h node, k node);
  merge_comm =
      λ a b _ _ node. omega (arith, count_of-merge_counts a b node, count_of-merge_counts b a node);
  merge_assoc = λ a b c _ _ _ node. omega (
    arith,
    count_of-merge_counts (merge_counts a b) c node,
    count_of-merge_counts a b node,
    count_of-merge_counts a (merge_counts b c) node,
    count_of-merge_counts b c node,
  );
  merge_idem = λ a _ node. omega (arith, count_of-merge_counts a a node);
}

-- A clock that is replaced because it is empty counts what it counted: nothing.
pub or_fresh-get :
    (c : VectorClock) (own node : String) → get (or_fresh (some c) own) node ≡ get c node
unfolding or_fresh get count_of lookup
or_fresh-get c own node = replaced c.clocks
  where
    replaced :
        (d : Dict String ℕ)
        → get (or_fresh (some (record { node_id = c.node_id; clocks = d })) own) node
          ≡ count_of d node
    replaced [] = refl
    replaced (e ∷ d) = ground arith
