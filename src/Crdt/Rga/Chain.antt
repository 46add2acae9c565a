-- ===== src/Crdt/Rga/Chain.antt =====
-- crdt/rga.py: the list that the links of the elements make.
use autonomous_rover_swarm_c.Common.{
  ℕ, zero, suc, String, string_eq, true, false, ◌≡◌, Option, none, some, is_some, List, [], ◌∷◌,
  if◌then◌else◌, arith, beq_refl,
}
use autonomous_rover_swarm_c.Common.Dict.{Dict, lookup, insert, lookup-insert}
use autonomous_rover_swarm_c.Common.Sets.{member, IsDistinct}
use autonomous_rover_swarm_c.Common.Text.{named}
use autonomous_rover_swarm_c.Crdt.Rga.{Element, walk}

module _ {ℓ} {A : Type ℓ} where
  abbrev pub ids : List (Element A) → List String
  ids [] = []
  ids (e ∷ es) = e.id ∷ ids es

  -- The values of the elements that are not deleted.
  abbrev pub visible : List (Element A) → List A
  visible [] = []
  visible (e ∷ es) = if e.deleted then visible es else e.value ∷ visible es

  -- From `current` on, the links lead through these elements and end.
  abbrev pub IsChain : Option String → List (Element A) → Dict String (Element A) → Type ℓ
  IsChain current [] d = (current ≡ none) × Unit {ℓ}
  IsChain current (e ∷ es) d =
      (current ≡ some e.id)
      × (named (some e.id) ≡ some e.id)
      × (lookup e.id d ≡ some e)
      × IsChain e.next es d

  -- An entry of another tag changes nothing.
  pub insert-IsChain :
      (current : Option String) (es : List (Element A)) (d : Dict String (Element A)) (tag : String)
      (e : Element A)
      → member tag (ids es) ≡ false
      → IsChain current es d
      → IsChain current es (insert tag e d)
  unfolding member
  insert-IsChain current [] d tag e absent h = h
  insert-IsChain current (c ∷ es) d tag e absent h = (
    h.0,
    h.1,
    ground (arith, absent, h.2, lookup-insert tag c.id e d, string_eq.beq_iff tag c.id),
    insert-IsChain c.next es d tag e (ground (arith, absent)) h.3,
  )

  pub walk-IsChain :
      (fuel : ℕ) (current : Option String) (es : List (Element A)) (visited : List String)
      (d : Dict String (Element A))
      → IsChain current es d
      → IsDistinct (ids es)
      → ((tag : String) → member tag (ids es) ≡ true → member tag visited ≡ false)
      → is_some (walk fuel current visited d) ≡ true
      → walk fuel current visited d ≡ some (visible es)
  unfolding walk member
  walk-IsChain zero current es visited d h distinct unseen ends = ground (arith, ends)
  walk-IsChain (suc fuel) current [] visited d h distinct unseen ends = ground (arith, h.0)
  walk-IsChain (suc fuel) current (e ∷ es) visited d h distinct unseen ends =
      let next_name : named current ≡ some e.id = ground (arith, h.0, h.1) in
      let fresh = unseen e.id (ground (arith, beq_refl e.id)) in
      let goes_on : is_some (walk fuel e.next (e.id ∷ visited) d) ≡ true =
        ground (arith, ends, next_name, fresh, h.2) in
      let rest =
        walk-IsChain fuel e.next es (e.id ∷ visited) d h.3 distinct.1
          (λ tag inside. ground (
            arith,
            inside,
            unseen tag,
            distinct.0,
            string_eq.beq_iff tag e.id,
            string_eq.beq_iff e.id tag,
          ))
          goes_on in
      ground (arith, next_name, fresh, h.2, rest)
