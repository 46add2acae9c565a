-- ===== src/Crdt/VectorClock.antt =====
-- crdt/vector_clock.py: one counter for each node, a missing node counting 0. A method that
-- mutates returns the new clock. Python iterates over a set of nodes in no fixed order, so
-- statements about a merged clock read it by `get`.
pub mod Merge
pub mod Causality
pub mod Items
use autonomous_rover_swarm_c.Common.{
  ℕ, zero, suc, ◌+◌, max, String, Bool, true, false, not, ◌&&◌, Option, none, some, List, [], ◌∷◌,
  ltb, ◌==◌, if◌then◌else◌, or_else, length, string_eq,
}
use autonomous_rover_swarm_c.Common.Text.{str_ltb}
use autonomous_rover_swarm_c.Common.Dict.{Dict, lookup, insert, keys, fill}
use autonomous_rover_swarm_c.Common.Sets.{union}

pub record VectorClock : Type 0 where
  pub node_id : String
  pub clocks : Dict String ℕ

-- `VectorClock(node_id=node_id)`
abbrev pub fresh : String → VectorClock
fresh node_id = record { node_id = node_id; clocks = [] }

-- `clocks.get(node, 0)`
unfoldable pub count_of : Dict String ℕ → String → ℕ
count_of d node = or_else (lookup node d) 0

-- `VectorClock.get`
unfoldable pub get : VectorClock → String → ℕ
unfolding count_of
get c node = count_of c.clocks node

-- `node_id or self.node_id`: the empty text is false too
abbrev own_or : Option String → String → String
own_or none own = own
own_or (some node) own = if node == "" then own else node

-- `tick`: the new clock, and the new count
unfoldable pub tick : Option String → VectorClock → VectorClock × ℕ
unfolding count_of
tick node c =
    let nid = own_or node c.node_id in
    let count = count_of c.clocks nid + 1 in
    (record c { clocks = insert nid count c.clocks }, count)

-- The loop that `VectorClock.merge` and `GCounter.merge` have in common: at each node of either
-- dictionary the larger count.
unfoldable pub merge_counts : Dict String ℕ → Dict String ℕ → Dict String ℕ
unfolding count_of
merge_counts a b =
    fill (λ node. max (count_of a node) (count_of b node)) (union (keys a) (keys b)) []

unfoldable pub merge : VectorClock → VectorClock → VectorClock
unfolding merge_counts
merge a b = record { node_id = a.node_id; clocks = merge_counts a.clocks b.clocks }

-- The loop of `happens_before` over the nodes, with its early return.
unfoldable pub before_loop : VectorClock → VectorClock → List String → Bool → Bool
unfolding get
before_loop a b [] at_least_one_less = at_least_one_less
before_loop a b (node ∷ nodes) at_least_one_less =
    let rest =
      before_loop a b nodes (if ltb (get a node) (get b node) then true else at_least_one_less) in
    if ltb (get b node) (get a node) then false else rest

unfoldable pub happens_before : VectorClock → VectorClock → Bool
unfolding before_loop
happens_before a b = before_loop a b (union (keys a.clocks) (keys b.clocks)) false

unfoldable pub concurrent : VectorClock → VectorClock → Bool
concurrent a b = not (happens_before a b) && not (happens_before b a)

-- `sorted(...)` of the items, by key, as an insertion sort.
unfoldable pub insert_sorted : String × ℕ → Dict String ℕ → Dict String ℕ
insert_sorted e [] = e ∷ []
insert_sorted e (x ∷ d) = if str_ltb x.0 e.0 then x ∷ insert_sorted e d else e ∷ x ∷ d

unfoldable pub sort_items : Dict String ℕ → Dict String ℕ
unfolding insert_sorted
sort_items [] = []
sort_items (e ∷ d) = insert_sorted e (sort_items d)

-- `__iter__`, and `dict(clock)`, which goes through it
unfoldable pub items : VectorClock → Dict String ℕ
unfolding sort_items
items c = sort_items c.clocks

-- `from_dict`, `to_dict`, `copy`, `__len__`
abbrev pub from_dict : Dict String ℕ → String → VectorClock
from_dict clocks node_id = record { node_id = node_id; clocks = clocks }

abbrev pub to_dict : VectorClock → Dict String ℕ
to_dict c = c.clocks

abbrev pub copy : VectorClock → VectorClock
copy c = record { node_id = c.node_id; clocks = c.clocks }

abbrev pub size : VectorClock → ℕ
size c = length c.clocks

-- `vector_clock or VectorClock(node_id=node_id)`: a clock with no entry has length 0, so it is
-- false, and a fresh one takes its place.
unfoldable pub or_fresh : Option VectorClock → String → VectorClock
or_fresh none node_id = fresh node_id
or_fresh (some c) node_id = if ltb 0 (size c) then c else fresh node_id
