-- ===== src/Crdt/Rga/Deletion.antt =====
-- crdt/rga.py: a deletion keeps the links, and marks the element.
use autonomous_rover_swarm_c.Common.{
  String, string_eq, true, false, ◌≡◌, refl, sym, ap, subst, ◌∙◌, Option, none, some, List, ◌++◌,
  [], ◌∷◌, if◌then◌else◌, ◌==◌, arith, Bool-cases, Option-cases, inl, inr, beq_refl, beq_ne,
}
use autonomous_rover_swarm_c.Common.Decimal.{tag_of}
use autonomous_rover_swarm_c.Common.Dict.{Dict, lookup, insert, lookup-insert}
use autonomous_rover_swarm_c.Common.Sets.{member, IsDistinct}
use autonomous_rover_swarm_c.Crdt.Rga.{Rga, Element, delete, ticked, op_delete}
use autonomous_rover_swarm_c.Crdt.Rga.Insertion.{Refines, IsChain-known}
use autonomous_rover_swarm_c.Crdt.Rga.Links.{items, spec_delete}
use autonomous_rover_swarm_c.Crdt.Rga.Chain.{ids, IsChain, insert-IsChain}

module _ {ℓ} {A : Type ℓ} where
  -- The elements with the one of the tag marked as deleted.
  abbrev mark : String → List (Element A) → List (Element A)
  mark tag [] = []
  mark tag (e ∷ es) =
      let rest = mark tag es in if e.id == tag then (record e { deleted = true }) ∷ es else e ∷ rest

  items-mark :
      (tag : String) (es : List (Element A)) → items (mark tag es) ≡ spec_delete tag (items es)
  items-mark tag [] = refl
  items-mark tag (e ∷ es) = ground (arith, items-mark tag es)

  ids-mark : (tag : String) (es : List (Element A)) → ids (mark tag es) ≡ ids es
  ids-mark tag [] = refl
  ids-mark tag (e ∷ es) = ground (arith, ids-mark tag es)

  mark_absent :
      (tag : String) (es : List (Element A)) → member tag (ids es) ≡ false → mark tag es ≡ es
  unfolding member
  mark_absent tag [] absent = refl
  mark_absent tag (e ∷ es) absent =
      ground
        (arith, absent, string_eq.beq_iff tag e.id, string_eq.beq_iff e.id tag, mark_absent tag es)

  -- An element that is deleted already.
  mark_deleted :
      (current : Option String) (tag : String) (c : Element A) (es : List (Element A))
      (d : Dict String (Element A))
      → lookup tag d ≡ some c
      → c.deleted ≡ true
      → IsChain current es d
      → items (mark tag es) ≡ items es
  mark_deleted current tag c [] d found gone h = refl
  mark_deleted current tag c (e ∷ es) d found gone h = elim (Bool-cases (e.id == tag)) [
    | inl here ↦
        let same_tag : e.id ≡ tag = (string_eq.beq_iff e.id tag).0 here in
        let same : e ≡ c = ground (arith, h.2, found, same_tag) in
        let deleted : e.deleted ≡ true = ap (λ x. x.deleted) same ∙ gone in
        rw here (rw deleted refl)
    | inr later ↦
        rw later (
          ap (λ xs. (e.id, e.value, e.deleted) ∷ xs)
            (mark_deleted e.next tag c es d found gone h.3))
  ]

  mark-IsChain :
      (current : Option String) (tag : String) (c : Element A) (es : List (Element A))
      (d : Dict String (Element A))
      → lookup tag d ≡ some c
      → IsDistinct (ids es)
      → IsChain current es d
      → IsChain current (mark tag es) (insert tag (record c { deleted = true }) d)
  mark-IsChain current tag c [] d found distinct h = h
  mark-IsChain current tag c (e ∷ es) d found distinct h = elim (Bool-cases (e.id == tag)) [
    | inl here ↦
        let same_tag : e.id ≡ tag = (string_eq.beq_iff e.id tag).0 here in
        let same : e ≡ c = ground (arith, h.2, found, same_tag) in
        rw here (
          h.0,
          h.1,
          ground (
            arith,
            same,
            same_tag,
            beq_refl tag,
            lookup-insert tag e.id (record c { deleted = true }) d,
          ),
          insert-IsChain e.next es d tag (record c { deleted = true })
              (subst (λ t. member t (ids es) ≡ false) same_tag distinct.0) h.3,
        )
    | inr later ↦ rw later (
      h.0,
      h.1,
      ground (
        arith,
        later,
        h.2,
        string_eq.beq_iff tag e.id,
        string_eq.beq_iff e.id tag,
        lookup-insert tag e.id (record c { deleted = true }) d,
      ),
      mark-IsChain e.next tag c es d found distinct.1 h.3,
    )
  ]

  module _ (s : Rga A) (es : List (Element A)) (rep : Refines s es) where
    -- The result of a deletion, with the list that it has.
    abbrev pub Deleted : String → Type ℓ
    Deleted tag =
        (es' : List (Element A)) × Refines (delete tag s) es'
        × (items es' ≡ spec_delete tag (items es))

    delete_same : (tag : String) → delete tag s ≡ s → items (mark tag es) ≡ items es → Deleted tag
    delete_same tag same unmarked =
        (es, subst (λ t. Refines t es) (sym same) rep, sym unmarked ∙ items-mark tag es)

    delete_missing : (tag : String) → lookup tag s.elements ≡ none → delete tag s ≡ s
    unfolding delete
    delete_missing tag missing = ground (arith, missing)

    delete_again :
        (tag : String) (c : Element A)
        → lookup tag s.elements ≡ some c
        → c.deleted ≡ true
        → delete tag s ≡ s
    unfolding delete
    delete_again tag c found gone = ground (arith, found, gone)

    -- The state after the deletion of this element.
    abbrev removed : String → Element A → Rga A
    removed tag c = ticked (record s {
      elements = insert tag (record c { deleted = true }) s.elements;
      delta_ops = s.delta_ops ++ (op_delete tag ∷ []);
    })

    delete_first :
        (tag : String) (c : Element A)
        → lookup tag s.elements ≡ some c
        → c.deleted ≡ false
        → delete tag s ≡ removed tag c
    unfolding delete
    delete_first tag c found there = ground (arith, found, there)

    removed-Refines :
        (tag : String) (c : Element A)
        → lookup tag s.elements ≡ some c
        → Refines (removed tag c) (mark tag es)
    removed-Refines tag c found = record {
      chain = mark-IsChain s.head tag c es s.elements found rep.distinct rep.chain;
      distinct = subst IsDistinct (sym (ids-mark tag es)) rep.distinct;
      new_tags = λ n h.
          let unused = rep.new_tags n h in
          let other : (tag == tag_of s.node_id n) ≡ false = beq_ne tag (tag_of s.node_id n) (λ same.
            subst (λ t. lookup t s.elements ≡ some c → ⊥) (sym same)
              (λ k. ground (arith, k, unused)) found) in
          ground (
            arith,
            other,
            unused,
            lookup-insert tag (tag_of s.node_id n) (record c { deleted = true }) s.elements,
          );
    }

    pub delete_refines : (tag : String) → Deleted tag
    delete_refines tag = elim (Option-cases (lookup tag s.elements)) [
      | inl missing ↦ delete_same tag (delete_missing tag missing) (
          ap items (
            mark_absent tag es
              (ground (arith, missing, IsChain-known s.head es s.elements tag rep.chain))))
      | inr (c, found) ↦ elim (Bool-cases c.deleted) [
        | inl gone ↦
            delete_same tag (delete_again tag c found gone)
              (mark_deleted s.head tag c es s.elements found gone rep.chain)
        | inr there ↦ (
          mark tag es,
          subst (λ t. Refines t (mark tag es)) (sym (delete_first tag c found there))
              (removed-Refines tag c found),
          items-mark tag es,
        )
      ]
    ]
