-- ===== src/Crdt/VectorClock/Items.antt =====
-- `__iter__` of crdt/vector_clock.py.
use autonomous_rover_swarm_c.Common.{
  ℕ, String, false, ◌≡◌, refl, some, [], ◌∷◌, arith, ◌==◌, if◌then◌else◌, string_eq,
}
use autonomous_rover_swarm_c.Common.Text.{str_ltb, str_ltb_irrefl, str_ltb_asym}
use autonomous_rover_swarm_c.Common.Dict.{Dict, lookup}
use autonomous_rover_swarm_c.Crdt.VectorClock.{VectorClock, insert_sorted, sort_items, items}

lookup-insert_sorted :
    (e : String × ℕ) (d : Dict String ℕ) (node : String)
    → lookup node (insert_sorted e d) ≡ (if e.0 == node then some e.1 else lookup node d)
unfolding insert_sorted lookup
lookup-insert_sorted e [] node = refl
lookup-insert_sorted e (x ∷ d) node = ground (
  arith,
  string_eq.beq_iff e.0 node,
  string_eq.beq_iff x.0 node,
  str_ltb_irrefl node,
  lookup-insert_sorted e d node,
)

pub lookup-sort_items :
    (d : Dict String ℕ) (node : String) → lookup node (sort_items d) ≡ lookup node d
unfolding sort_items lookup
lookup-sort_items [] node = refl
lookup-sort_items (e ∷ d) node =
    ground (arith, lookup-insert_sorted e (sort_items d) node, lookup-sort_items d node)

-- No entry stands before one with a smaller key.
abbrev pub IsSorted : Dict String ℕ → Type 0
IsSorted [] = Unit
IsSorted (e ∷ []) = Unit
IsSorted (e ∷ x ∷ d) = (str_ltb x.0 e.0 ≡ false) × IsSorted (x ∷ d)

insert_sorted-IsSorted :
    (e : String × ℕ) (d : Dict String ℕ) → IsSorted d → IsSorted (insert_sorted e d)
unfolding insert_sorted
insert_sorted-IsSorted e [] h = tt
insert_sorted-IsSorted e (x ∷ []) h = ground (arith, str_ltb_asym x.0 e.0)
insert_sorted-IsSorted e (x ∷ y ∷ d) h =
    ground (arith, str_ltb_asym x.0 e.0, insert_sorted-IsSorted e (y ∷ d) h.1)

sort_items-IsSorted : (d : Dict String ℕ) → IsSorted (sort_items d)
unfolding sort_items
sort_items-IsSorted [] = tt
sort_items-IsSorted (e ∷ d) = insert_sorted-IsSorted e (sort_items d) (sort_items-IsSorted d)

-- The items come in ascending order of the nodes, and read back as the counts of the clock.
pub items-lookup :
    (c : VectorClock)
    → IsSorted (items c) × ((node : String) → lookup node (items c) ≡ lookup node c.clocks)
unfolding items
items-lookup c = (sort_items-IsSorted c.clocks, λ node. lookup-sort_items c.clocks node)
