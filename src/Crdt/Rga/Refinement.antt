-- ===== src/Crdt/Rga/Refinement.antt =====
-- crdt/rga.py: the edits of one replica, against edits of a plain list of tagged values.
use autonomous_rover_swarm_c.Common.{
  ℕ, suc, ◌+◌, String, string_eq, false, ◌≡◌, refl, sym, ap, ap₂, ◌∙◌, Option, none, some, List, [],
  ◌∷◌, length, arith, Bool-cases, inl, inr,
}
use autonomous_rover_swarm_c.Common.Decimal.{tag_of}
use autonomous_rover_swarm_c.Common.Dict.{lookup}
use autonomous_rover_swarm_c.Common.Sets.{member}
use autonomous_rover_swarm_c.Crdt.Rga.{Rga, Element, new, insert_after, delete, value}
use autonomous_rover_swarm_c.Crdt.Rga.Insertion.{
  Refines, insert_front, insert_present, insert_absent,
}
use autonomous_rover_swarm_c.Crdt.Rga.Deletion.{delete_refines}
use autonomous_rover_swarm_c.Crdt.Rga.Walk.{value_ends}
use autonomous_rover_swarm_c.Crdt.Rga.Links.{
  Item, items, spec_insert, spec_delete, shown, shown-items,
}
use autonomous_rover_swarm_c.Crdt.Rga.Chain.{ids, visible, walk-IsChain}

-- An edit of a replica.
pub data Edit {ℓ} (A : Type ℓ) : Type ℓ where
  inserts : (after : Option String) → A → Edit A
  deletes : String → Edit A

module _ {ℓ} {A : Type ℓ} where
  unfoldable pub apply : Edit A → Rga A → Rga A
  unfolding insert_after delete
  apply (inserts after v) s = (insert_after after v s).0
  apply (deletes tag) s = delete tag s

  unfoldable pub run : List (Edit A) → Rga A → Rga A
  unfolding apply
  run [] s = s
  run (e ∷ es) s = run es (apply e s)

  -- The same edits of a plain list; `n` is the number of the last tag.
  unfoldable pub spec_run : String → ℕ → List (Edit A) → List (Item A) → List (Item A)
  spec_run node n [] xs = xs
  spec_run node n (inserts after v ∷ es) xs =
      spec_run node (n + 1) es (spec_insert after (tag_of node (n + 1), v, false) xs)
  spec_run node n (deletes tag ∷ es) xs = spec_run node n es (spec_delete tag xs)

  -- An insertion, wherever it is asked for.
  insert_any :
      (s : Rga A) (es : List (Element A)) (after : Option String) (v : A)
      → Refines s es
      → (es' : List (Element A)) × Refines (insert_after after v s).0 es'
        × (items es'
            ≡ spec_insert after (tag_of s.node_id (s.tag_counter + 1), v, false) (items es))
  insert_any s es none v rep = (_, insert_front s es rep v, refl)
  insert_any s es (some tag) v rep = elim (Bool-cases (member tag (ids es))) [
    | inl present ↦ insert_present s es rep tag v present
    | inr absent ↦ insert_absent s es rep tag v absent
  ]

  value-Refines : (s : Rga A) (es : List (Element A)) → Refines s es → value s ≡ some (visible es)
  unfolding value member
  value-Refines s es rep =
      walk-IsChain (suc (length s.elements)) s.head es [] s.elements rep.chain rep.distinct
        (λ tag inside. refl) (value_ends s)

  delete_keeps :
      (tag : String) (s : Rga A)
      → ((delete tag s).node_id ≡ s.node_id) × ((delete tag s).tag_counter ≡ s.tag_counter)
  unfolding delete
  delete_keeps tag s = ground arith

  value_from :
      (edits : List (Edit A)) (s : Rga A) (es : List (Element A))
      → Refines s es
      → value (run edits s) ≡ some (shown (spec_run s.node_id s.tag_counter edits (items es)))
  unfolding run apply spec_run
  value_from [] s es rep = value-Refines s es rep ∙ ap some (sym (shown-items es))
  value_from (inserts after v ∷ edits) s es rep =
      let step = insert_any s es after v rep in
      value_from edits (insert_after after v s).0 step.0 step.1
      ∙ ap (λ xs. some (shown (spec_run s.node_id (s.tag_counter + 1) edits xs))) step.2
  value_from (deletes tag ∷ edits) s es rep =
      let step = delete_refines s es rep tag in
      let same = delete_keeps tag s in
      value_from edits (delete tag s) step.0 step.1
      ∙ ap₂ (λ node n. some (shown (spec_run node n edits (items step.0)))) same.0 same.1
      ∙ ap (λ xs. some (shown (spec_run s.node_id s.tag_counter edits xs))) step.2

  -- After any edits of a new replica, `value` gives what the same edits of a plain list give: each new
  -- element is right after the one it was inserted after, or at the front if none was named, or
  -- nowhere if the list has no element with that tag, and an element is hidden once it is deleted.
  pub value-run :
      (node_id : String) (edits : List (Edit A))
      → value (run edits (new node_id)) ≡ some (shown (spec_run node_id 0 edits []))
  unfolding lookup
  value-run node_id edits =
      value_from edits (new node_id) []
        (record { chain = (refl, tt); distinct = tt; new_tags = λ n h. refl })
