-- ===== src/Crdt/Rga/Walk.antt =====
-- crdt/rga.py: the walk of `value` ends, on any elements, also where their links run in a circle.
use autonomous_rover_swarm_c.Common.{
  ℕ, zero, suc, ◌<◌, ◌≤◌, String, string_eq, Bool, true, false, not, ◌≡◌, Option, is_some, List, [],
  ◌∷◌, length, keep, arith, Bool-cases, Option-cases, inl, inr,
}
use autonomous_rover_swarm_c.Common.Dict.{Dict, lookup}
use autonomous_rover_swarm_c.Common.Sets.{member}
use autonomous_rover_swarm_c.Common.Text.{named}
use autonomous_rover_swarm_c.Crdt.Rga.{Rga, Element, walk, value}

module _ {ℓ} {A : Type ℓ} where
  -- How many elements have not been visited.
  abbrev unvisited : List String → Dict String (Element A) → ℕ
  unvisited visited d = length (keep (λ p. not (member p.0 visited)) d)

  unvisited-le :
      (tag : String) (visited : List String) (d : Dict String (Element A))
      → unvisited (tag ∷ visited) d ≤ unvisited visited d
  unfolding member
  unvisited-le tag visited [] = ground arith
  unvisited-le tag visited ((k, e) ∷ d) = ground (arith, unvisited-le tag visited d)

  unvisited-lt :
      (tag : String) (visited : List String) (d : Dict String (Element A))
      → member tag visited ≡ false
      → is_some (lookup tag d) ≡ true
      → unvisited (tag ∷ visited) d < unvisited visited d
  unfolding member lookup
  unvisited-lt tag visited [] unseen found = ground (arith, found)
  unvisited-lt tag visited ((k, e) ∷ d) unseen found = ground (
    arith,
    unseen,
    found,
    string_eq.beq_iff k tag,
    unvisited-le tag visited d,
    unvisited-lt tag visited d unseen,
  )

  length-keep :
      (p : String × Element A → Bool) (d : Dict String (Element A)) → length (keep p d) ≤ length d
  length-keep p [] = ground arith
  length-keep p (x ∷ d) = ground (arith, length-keep p d)

  -- With more fuel than there are elements to visit, the walk ends.
  walk_ends :
      (fuel : ℕ) (current : Option String) (visited : List String) (d : Dict String (Element A))
      → unvisited visited d < fuel
      → is_some (walk fuel current visited d) ≡ true
  unfolding walk
  walk_ends zero current visited d h = ground arith
  walk_ends (suc fuel) current visited d h = elim (Option-cases (named current)) [
    | inl stop ↦ ground (arith, stop)
    | inr (tag, more) ↦ elim (Bool-cases (member tag visited)) [
      | inl seen ↦ ground (arith, more, seen)
      | inr unseen ↦ elim (Option-cases (lookup tag d)) [
        | inl missing ↦ ground (arith, more, unseen, missing)
        | inr (e, found) ↦
            let fewer = unvisited-lt tag visited d unseen (ground (arith, found)) in
            let rest = walk_ends fuel e.next (tag ∷ visited) d (omega (arith, fewer)) in
            ground (arith, more, unseen, found, rest)
      ]
    ]
  ]

  -- The loop of `value` always ends, whatever elements and links the list has.
  pub value_ends : (s : Rga A) → is_some (value s) ≡ true
  unfolding value member
  value_ends s =
      walk_ends (suc (length s.elements)) s.head [] s.elements
        (ground (arith, length-keep (λ p. not (member p.0 [])) s.elements))
