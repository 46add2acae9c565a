-- ===== src/Crdt/Rga/Insertion.antt =====
-- crdt/rga.py: an insertion keeps the links a list, and puts the new element where it should be.
use autonomous_rover_swarm_c.Common.{
  ℕ, ◌+◌, ◌<◌, String, string_eq, true, false, ◌≡◌, ◌≢◌, refl, sym, subst, ◌∙◌, Option, none, some,
  is_some, List, [], ◌∷◌, ◌==◌, arith, Option-cases, inl, inr, beq_refl, beq_ne,
}
use Prim.Native.String.{◌++◌}
use Prim.Native.String.append
use text.Mathlib.TextLemmas.{cons-ne-nil, append-ne-nil_of_right_ne-nil}
use autonomous_rover_swarm_c.Common.Decimal.{show, tag_of, tag_of-injective}
use autonomous_rover_swarm_c.Common.Dict.{Dict, lookup, insert, lookup-insert}
use autonomous_rover_swarm_c.Common.Sets.{member, IsDistinct}
use autonomous_rover_swarm_c.Common.Text.{named}
use autonomous_rover_swarm_c.Crdt.Rga.{Rga, Element, insert_after, link_after}
use autonomous_rover_swarm_c.Crdt.Rga.Links.{
  items, spec_insert, link_in, relinked, items-link_in, spec_insert_absent, link_in-IsDistinct,
  lookup-relinked, relinked-IsChain, link_in-IsChain,
}
use autonomous_rover_swarm_c.Crdt.Rga.Chain.{ids, IsChain, insert-IsChain}

after_colon : (s : String) → ":" ++ s ≢ String.[]
after_colon s h = cons-ne-nil ":" ("" ++ s) (sym (append.cons ":" "" s) ∙ h)

pub named_tag : (node : String) (n : ℕ) → named (some (tag_of node n)) ≡ some (tag_of node n)
unfolding tag_of
named_tag node n =
    let there : tag_of node n ≢ String.[] =
      append-ne-nil_of_right_ne-nil node (after_colon (show n)) in
    rw (beq_ne (tag_of node n) "" there) refl

module _ {ℓ} {A : Type ℓ} where
  pub IsChain-known :
      (current : Option String) (es : List (Element A)) (d : Dict String (Element A)) (tag : String)
      → IsChain current es d
      → member tag (ids es) ≡ true
      → is_some (lookup tag d) ≡ true
  unfolding member
  IsChain-known current [] d tag h present = ground (arith, present)
  IsChain-known current (e ∷ es) d tag h present =
      ground (arith, present, h.2, string_eq.beq_iff tag e.id, IsChain-known e.next es d tag h.3)

  -- The state has these elements as its list, and its next tags are new.
  pub record Refines (s : Rga A) (es : List (Element A)) : Type ℓ where
    pub chain : IsChain s.head es s.elements
    pub distinct : IsDistinct (ids es)
    pub new_tags : (n : ℕ) → s.tag_counter < n → lookup (tag_of s.node_id n) s.elements ≡ none

  module _ (s : Rga A) (es : List (Element A)) (rep : Refines s es) where
    -- The tag of the next element.
    abbrev pub next : String
    next = tag_of s.node_id (s.tag_counter + 1)

    abbrev pub fresh : A → Option String → Element A
    fresh v to = record { id = next; value = v; next = to; deleted = false; origin = s.node_id }

    next_unknown : lookup next s.elements ≡ none
    next_unknown = rep.new_tags (s.tag_counter + 1) (omega arith)

    next_absent : member next (ids es) ≡ false
    next_absent = ground (arith, next_unknown, IsChain-known s.head es s.elements next rep.chain)

    later_tag : (n : ℕ) → s.tag_counter + 1 < n → (next == tag_of s.node_id n) ≡ false
    later_tag n h = ground (
      arith,
      string_eq.beq_iff next (tag_of s.node_id n),
      tag_of-injective s.node_id (s.tag_counter + 1) n,
    )

    pub insert_front : (v : A) → Refines (insert_after none v s).0 (fresh v s.head ∷ es)
    unfolding insert_after
    insert_front v = record {
      chain = (
        refl,
        named_tag s.node_id (s.tag_counter + 1),
        ground (arith, lookup-insert next next (fresh v s.head) s.elements, beq_refl next),
        insert-IsChain s.head es s.elements next (fresh v s.head) next_absent rep.chain,
      );
      distinct = (next_absent, rep.distinct);
      new_tags = λ n h. ground (
        arith,
        lookup-insert next (tag_of s.node_id n) (fresh v s.head) s.elements,
        later_tag n h,
        rep.new_tags n,
      );
    }

    -- The elements with the new one, before it is linked.
    abbrev stored : A → Dict String (Element A)
    stored v = insert next (fresh v none) s.elements

    link_missing :
        (tag : String) (v : A)
        → lookup tag (stored v) ≡ none
        → link_after (some tag) next v s ≡ (stored v, s.head)
    link_missing tag v h = ground (arith, h)

    link_found :
        (tag : String) (v : A) (parent : Element A)
        → lookup tag (stored v) ≡ some parent
        → link_after (some tag) next v s ≡ (relinked tag parent (fresh v none) s.elements, s.head)
    link_found tag v parent h = ground (arith, h)

    linked_new :
        (tag : String) (v : A) (es' : List (Element A)) (d : Dict String (Element A))
        → link_after (some tag) next v s ≡ (d, s.head)
        → IsChain s.head es' d
        → IsDistinct (ids es')
        → ((n : ℕ) → s.tag_counter + 1 < n → lookup (tag_of s.node_id n) d ≡ none)
        → Refines (insert_after (some tag) v s).0 es'
    unfolding insert_after
    linked_new tag v es' d linked chain distinct unused = record {
      chain =
          subst (λ (r : Dict String (Element A) × Option String). IsChain r.1 es' r.0) (sym linked)
            chain;
      distinct = distinct;
      new_tags = λ n h.
          subst
            (λ (r : Dict String (Element A) × Option String).
              lookup (tag_of s.node_id n) r.0 ≡ none)
            (sym linked) (unused n h);
    }

    stored_unused :
        (v : A) (n : ℕ) → s.tag_counter + 1 < n → lookup (tag_of s.node_id n) (stored v) ≡ none
    stored_unused v n h = ground (
      arith,
      lookup-insert next (tag_of s.node_id n) (fresh v none) s.elements,
      later_tag n h,
      rep.new_tags n,
    )

    relinked_unused :
        (tag : String) (v : A) (parent : Element A)
        → lookup tag (stored v) ≡ some parent
        → (n : ℕ) → s.tag_counter + 1 < n
        → lookup (tag_of s.node_id n) (relinked tag parent (fresh v none) s.elements) ≡ none
    relinked_unused tag v parent found n h =
        let other : (tag == tag_of s.node_id n) ≡ false = beq_ne tag (tag_of s.node_id n) (λ same.
          subst (λ t. lookup t (stored v) ≡ some parent → ⊥) (sym same)
            (λ k. ground (arith, k, stored_unused v n h)) found) in
        ground (
          arith,
          other,
          later_tag n h,
          rep.new_tags n,
          lookup-relinked tag (tag_of s.node_id n) parent (fresh v none) s.elements,
        )

    -- The result of an insertion, with the list that it has.
    abbrev pub Inserted : String → A → Type ℓ
    Inserted tag v =
        (es' : List (Element A)) × Refines (insert_after (some tag) v s).0 es'
        × (items es' ≡ spec_insert (some tag) (next, v, false) (items es))

    pub insert_present : (tag : String) (v : A) → member tag (ids es) ≡ true → Inserted tag v
    insert_present tag v present =
        let other : next ≢ tag = λ same.
          ground (arith, subst (λ t. member t (ids es) ≡ true) (sym same) present, next_absent) in
        elim (Option-cases (lookup tag s.elements)) [
          | inl missing ↦
              absurd
                (ground (arith, missing, IsChain-known s.head es s.elements tag rep.chain present))
          | inr (parent, found) ↦
              let found' : lookup tag (stored v) ≡ some parent = ground (
                arith,
                found,
                beq_ne next tag other,
                lookup-insert next tag (fresh v none) s.elements,
              ) in
              (
                link_in tag (fresh v none) es,
                linked_new tag v (link_in tag (fresh v none) es)
                    (relinked tag parent (fresh v none) s.elements) (link_found tag v parent found')
                    (link_in-IsChain s.head tag parent (fresh v none) es s.elements
                      (named_tag s.node_id (s.tag_counter + 1)) found next_absent present other
                      rep.distinct rep.chain)
                    (link_in-IsDistinct tag (fresh v none) es next_absent rep.distinct)
                    (relinked_unused tag v parent found'),
                items-link_in tag (fresh v none) es,
              )
        ]

    pub insert_absent : (tag : String) (v : A) → member tag (ids es) ≡ false → Inserted tag v
    insert_absent tag v absent = (
      es,
      elim (Option-cases (lookup tag (stored v))) [
        | inl missing ↦
            linked_new tag v es (stored v) (link_missing tag v missing)
              (insert-IsChain s.head es s.elements next (fresh v none) next_absent rep.chain)
              rep.distinct (stored_unused v)
        | inr (parent, found) ↦
            linked_new tag v es (relinked tag parent (fresh v none) s.elements)
              (link_found tag v parent found)
              (relinked-IsChain s.head tag parent (fresh v none) es s.elements next_absent absent
                rep.chain)
              rep.distinct (relinked_unused tag v parent found)
      ],
      sym (spec_insert_absent tag (next, v, false) es absent),
    )
