-- ===== src/Crdt/Rga.antt =====
-- crdt/rga.py: `Rga`, a sequence as a linked list of elements with tags. Elements are values here: the
-- code shares those of the delta with the list, so the delta names its elements by their tags and
-- `delta` reads them when it is called.
pub mod Walk
pub mod Chain
pub mod Links
pub mod Insertion
pub mod Deletion
pub mod Refinement
use autonomous_rover_swarm_c.Common.{
  ℕ, zero, suc, ◌+◌, String, string_eq, Bool, true, false, not, ◌&&◌, Option, none, some, or_else,
  List, [], ◌∷◌, ◌++◌, length, if◌then◌else◌, ◌==◌,
}
use autonomous_rover_swarm_c.Common.Decimal.{tag_of}
use autonomous_rover_swarm_c.Common.Dict.{Dict, lookup, insert, fill_some, keys, first_some}
use autonomous_rover_swarm_c.Common.Sets.{member, union}
use autonomous_rover_swarm_c.Common.Text.{named, str_ltb}
use autonomous_rover_swarm_c.Crdt.Base.{CrdtDelta}
use autonomous_rover_swarm_c.Crdt.VectorClock
use autonomous_rover_swarm_c.Crdt.VectorClock.{VectorClock}

pub record Element {ℓ} (A : Type ℓ) : Type ℓ where
  pub id : String
  pub value : A
  pub next : Option String
  pub deleted : Bool
  pub origin : String

-- An operation of the delta, with the tag of its element.
pub data RgaOp : Type 0 where
  op_insert : (after : Option String) → String → RgaOp
  op_delete : String → RgaOp

-- An operation as another replica gets it.
pub data Change {ℓ} (A : Type ℓ) : Type ℓ where
  inserted : (after : Option String) → Element A → Change A
  deleted_at : String → Change A

pub record Rga {ℓ} (A : Type ℓ) : Type ℓ where
  pub node_id : String
  pub vector_clock : VectorClock
  pub elements : Dict String (Element A)
  pub head : Option String
  pub tag_counter : ℕ
  pub delta_ops : List RgaOp

module _ {ℓ} {A : Type ℓ} where
  abbrev pub new : String → Rga A
  new node_id = record {
    node_id = node_id;
    vector_clock = VectorClock.fresh node_id;
    elements = [];
    head = none;
    tag_counter = 0;
    delta_ops = [];
  }

  abbrev pub cons_if : Bool → A → Option (List A) → Option (List A)
  cons_if b v none = none
  cons_if true v (some vs) = some (v ∷ vs)
  cons_if false v (some vs) = some vs

  -- The loop of `value`, from `current` on; `none` when the fuel does not suffice.
  unfoldable pub walk :
      (fuel : ℕ)
      → Option String
      → (visited : List String) → Dict String (Element A)
      → Option (List A)
  walk zero current visited d = none
  walk (suc fuel) current visited d = elim (named current) [
    | none ↦ some []
    | some tag ↦ if member tag visited then some [] else elim (lookup tag d) [
      | none ↦ some []
      | some e ↦ cons_if (not e.deleted) e.value (walk fuel e.next (tag ∷ visited) d)
    ]
  ]

  unfoldable pub value : Rga A → Option (List A)
  unfolding walk
  value s = walk (suc (length s.elements)) s.head [] s.elements

  abbrev pub ticked : Rga A → Rga A
  ticked s = record s { vector_clock = (VectorClock.tick none s.vector_clock).0 }

  -- The new element is linked after its parent, at the head, or nowhere if there is no such parent.
  abbrev pub link_after :
      Option String → String → A → Rga A → Dict String (Element A) × Option String
  link_after none tag v s = (
    insert tag (record { id = tag; value = v; next = s.head; deleted = false; origin = s.node_id })
        s.elements,
    some tag,
  )
  link_after (some after_tag) tag v s =
      let fresh : Option String → Element A =
        λ next. record { id = tag; value = v; next = next; deleted = false; origin = s.node_id } in
      let stored = insert tag (fresh none) s.elements in
      elim (lookup after_tag stored) [
        | none ↦ (stored, s.head)
        | some parent ↦ (
          insert after_tag (record parent { next = some tag })
              (insert tag (fresh parent.next) s.elements),
          s.head,
        )
      ]

  -- The tag is `_next_tag()`, which no element has yet.
  unfoldable pub insert_after : Option String → A → Rga A → Rga A × String
  unfolding tag_of VectorClock.tick
  insert_after after_tag v s =
      let counter = s.tag_counter + 1 in
      let tag = tag_of s.node_id counter in
      let linked = link_after after_tag tag v s in
      (
        ticked (record s {
          tag_counter = counter;
          elements = linked.0;
          head = linked.1;
          delta_ops = s.delta_ops ++ (op_insert after_tag tag ∷ []);
        }),
        tag,
      )

  -- The loop of `append`: where the list ends; the outer `none` when the fuel does not suffice.
  unfoldable pub last_tag :
      (fuel : ℕ) → Option String → Dict String (Element A) → Option (Option String)
  last_tag zero current d = none
  last_tag (suc fuel) current d = elim (named current) [
    | none ↦ some none
    | some tag ↦ elim (lookup tag d) [
      | none ↦ some none
      | some e ↦
          let rest = last_tag fuel e.next d in
          elim e.next [ none ↦ some (some tag) | some _ ↦ rest ]
    ]
  ]

  unfoldable pub append : (fuel : ℕ) → A → Rga A → Option (Rga A × String)
  unfolding last_tag insert_after
  append fuel v s = elim (last_tag fuel s.head s.elements) [
    | none ↦ none
    | some after_tag ↦ some (insert_after after_tag v s)
  ]

  unfoldable pub delete : String → Rga A → Rga A
  unfolding VectorClock.tick
  delete tag s = elim (lookup tag s.elements) [
    | none ↦ s
    | some e ↦
        if e.deleted
        then s
        else ticked (record s {
          elements = insert tag (record e { deleted = true }) s.elements;
          delta_ops = s.delta_ops ++ (op_delete tag ∷ []);
        })
  ]

  -- Of two elements with one tag, the one with the greater origin; deleted only if both are.
  abbrev pub merged_element : Option (Element A) → Option (Element A) → Option (Element A)
  merged_element (some e) (some e') =
      let chosen = if str_ltb e.origin e'.origin then e' else e in
      some (record chosen { deleted = e.deleted && e'.deleted })
  merged_element o o' = first_some o o'

  unfoldable pub merge : Rga A → Rga A → Rga A
  unfolding VectorClock.merge VectorClock.or_fresh
  merge s other = record {
    node_id = s.node_id;
    vector_clock =
        VectorClock.or_fresh (some (VectorClock.merge s.vector_clock other.vector_clock)) s.node_id;
    elements =
        fill_some (λ eid. merged_element (lookup eid s.elements) (lookup eid other.elements))
          (union (keys s.elements) (keys other.elements)) [];
    head = first_some (named s.head) other.head;
    tag_counter = 0;
    delta_ops = [];
  }

  -- The operations as they are sent.
  abbrev change_of : Dict String (Element A) → RgaOp → List (Change A)
  change_of d (op_delete tag) = deleted_at tag ∷ []
  change_of d (op_insert after tag) = elim (lookup tag d) [
    | none ↦ []
    | some e ↦ inserted after e ∷ []
  ]

  abbrev changes_of : Dict String (Element A) → List RgaOp → List (Change A)
  changes_of d [] = []
  changes_of d (op ∷ ops) = change_of d op ++ changes_of d ops

  unfoldable pub delta : Rga A → CrdtDelta (List (Change A))
  delta s = record {
    value = changes_of s.elements s.delta_ops;
    vector_clock = s.vector_clock.clocks;
    source_id = s.node_id;
    timestamp = 0;
  }

  unfoldable pub apply_change : Change A → Rga A → Rga A
  apply_change (inserted after e) s =
      let d = insert e.id e s.elements in
      elim after [
        | none ↦ record s { elements = d; head = some e.id }
        | some parent_tag ↦ elim (lookup parent_tag d) [
          | none ↦ record s { elements = d }
          | some parent ↦ record s {
            elements = insert parent_tag (record parent { next = some e.id }) d;
          }
        ]
      ]
  apply_change (deleted_at tag) s = elim (lookup tag s.elements) [
    | none ↦ s
    | some e ↦ record s { elements = insert tag (record e { deleted = true }) s.elements }
  ]

  abbrev apply_changes : List (Change A) → Rga A → Rga A
  apply_changes [] s = s
  apply_changes (c ∷ cs) s = apply_changes cs (apply_change c s)

  -- The merged clock is not kept.
  unfoldable pub apply_delta : CrdtDelta (List (Change A)) → Rga A → Rga A
  unfolding apply_change
  apply_delta delta s = apply_changes delta.value s

  abbrev pub reset_delta : Rga A → Rga A
  reset_delta s = record s { delta_ops = [] }

  abbrev pub len : Rga A → Option ℕ
  len s = elim (value s) [ none ↦ none | some vs ↦ some (length vs) ]
