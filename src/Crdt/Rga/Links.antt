-- ===== src/Crdt/Rga/Links.antt =====
-- crdt/rga.py: an element that is linked after another, and the edits of a plain list of tagged values.
use autonomous_rover_swarm_c.Common.{
  String, string_eq, Bool, true, false, ◌&&◌, ◌||◌, ◌≡◌, ◌≢◌, refl, subst, Option, none, some, List,
  [], ◌∷◌, if◌then◌else◌, ◌==◌, arith, Bool-cases, inl, inr, beq_refl,
}
use autonomous_rover_swarm_c.Common.Dict.{Dict, lookup, insert, lookup-insert}
use autonomous_rover_swarm_c.Common.Sets.{member, IsDistinct}
use autonomous_rover_swarm_c.Common.Text.{named}
use autonomous_rover_swarm_c.Crdt.Rga.{Element}
use autonomous_rover_swarm_c.Crdt.Rga.Chain.{ids, visible, IsChain, insert-IsChain}

-- A tagged value, and whether it is deleted.
abbrev pub Item {ℓ} : Type ℓ → Type ℓ
Item A = String × A × Bool

module _ {ℓ} {A : Type ℓ} where
  abbrev pub items : List (Element A) → List (Item A)
  items [] = []
  items (e ∷ es) = (e.id, e.value, e.deleted) ∷ items es

  -- The item after the one with the tag, at the front, or nowhere.
  abbrev pub spec_insert : Option String → Item A → List (Item A) → List (Item A)
  spec_insert none x ys = x ∷ ys
  spec_insert (some tag) x [] = []
  spec_insert (some tag) x (y ∷ ys) =
      let rest = spec_insert (some tag) x ys in if y.0 == tag then y ∷ x ∷ ys else y ∷ rest

  abbrev pub spec_delete : String → List (Item A) → List (Item A)
  spec_delete tag [] = []
  spec_delete tag (y ∷ ys) =
      let rest = spec_delete tag ys in if y.0 == tag then (y.0, y.1, true) ∷ ys else y ∷ rest

  abbrev pub shown : List (Item A) → List A
  shown [] = []
  shown (y ∷ ys) = if y.2 then shown ys else y.1 ∷ shown ys

  pub shown-items : (es : List (Element A)) → shown (items es) ≡ visible es
  shown-items [] = refl
  shown-items (e ∷ es) = ground (arith, shown-items es)

  -- The elements with `x` linked after the one with the tag.
  abbrev pub link_in : String → Element A → List (Element A) → List (Element A)
  link_in tag x [] = []
  link_in tag x (e ∷ es) =
      let rest = link_in tag x es in
      if e.id == tag
      then (record e { next = some x.id }) ∷ (record x { next = e.next }) ∷ es
      else e ∷ rest

  pub items-link_in :
      (tag : String) (x : Element A) (es : List (Element A))
      → items (link_in tag x es) ≡ spec_insert (some tag) (x.id, x.value, x.deleted) (items es)
  items-link_in tag x [] = refl
  items-link_in tag x (e ∷ es) = ground (arith, items-link_in tag x es)

  pub spec_insert_absent :
      (tag : String) (x : Item A) (es : List (Element A))
      → member tag (ids es) ≡ false
      → spec_insert (some tag) x (items es) ≡ items es
  unfolding member
  spec_insert_absent tag x [] absent = refl
  spec_insert_absent tag x (e ∷ es) absent = ground (
    arith,
    absent,
    string_eq.beq_iff tag e.id,
    string_eq.beq_iff e.id tag,
    spec_insert_absent tag x es,
  )

  pub member-link_in :
      (b tag : String) (x : Element A) (es : List (Element A))
      → member b (ids (link_in tag x es))
        ≡ (member b (ids es) || (member tag (ids es) && b == x.id))
  unfolding member
  member-link_in b tag x [] = refl
  member-link_in b tag x (e ∷ es) =
      ground
        (arith, string_eq.beq_iff tag e.id, string_eq.beq_iff e.id tag, member-link_in b tag x es)

  pub link_in-IsDistinct :
      (tag : String) (x : Element A) (es : List (Element A))
      → member x.id (ids es) ≡ false
      → IsDistinct (ids es)
      → IsDistinct (ids (link_in tag x es))
  unfolding member
  link_in-IsDistinct tag x [] absent h = tt
  link_in-IsDistinct tag x (e ∷ es) absent h = elim (Bool-cases (e.id == tag)) [
    | inl here ↦ rw here (
      ground (arith, absent, h.0, string_eq.beq_iff x.id e.id, string_eq.beq_iff e.id x.id),
      (ground (arith, absent), h.1),
    )
    | inr later ↦ rw later (
      ground (
        arith,
        absent,
        h.0,
        member-link_in e.id tag x es,
        string_eq.beq_iff x.id e.id,
        string_eq.beq_iff e.id x.id,
      ),
      link_in-IsDistinct tag x es (ground (arith, absent)) h.1,
    )
  ]

  -- What the dictionary becomes when `x` is linked after `parent`.
  abbrev pub relinked :
      String → Element A → Element A → Dict String (Element A) → Dict String (Element A)
  relinked tag parent x d =
      insert tag (record parent { next = some x.id })
        (insert x.id (record x { next = parent.next }) d)

  pub lookup-relinked :
      (tag b : String) (parent x : Element A) (d : Dict String (Element A))
      → lookup b (relinked tag parent x d) ≡ (
          if tag == b
          then some (record parent { next = some x.id })
          else if x.id == b
          then some (record x { next = parent.next })
          else lookup b d)
  lookup-relinked tag b parent x d = ground (
    arith,
    lookup-insert tag b (record parent { next = some x.id })
        (insert x.id (record x { next = parent.next }) d),
    lookup-insert x.id b (record x { next = parent.next }) d,
  )

  pub relinked-IsChain :
      (current : Option String) (tag : String) (parent x : Element A) (es : List (Element A))
      (d : Dict String (Element A))
      → member x.id (ids es) ≡ false
      → member tag (ids es) ≡ false
      → IsChain current es d
      → IsChain current es (relinked tag parent x d)
  relinked-IsChain current tag parent x es d absent elsewhere h =
      insert-IsChain current es (insert x.id (record x { next = parent.next }) d) tag
        (record parent { next = some x.id }) elsewhere
        (insert-IsChain current es d x.id (record x { next = parent.next }) absent h)

  link_here :
      (current : Option String) (e x : Element A) (es : List (Element A))
      (d : Dict String (Element A))
      → named (some x.id) ≡ some x.id
      → member x.id (ids (e ∷ es)) ≡ false
      → IsDistinct (ids (e ∷ es))
      → IsChain current (e ∷ es) d
      → IsChain current
          ((record e { next = some x.id }) ∷ (record x { next = e.next }) ∷ es)
          (relinked e.id e x d)
  unfolding member
  link_here current e x es d a_name absent distinct h = (
    h.0,
    h.1,
    ground (arith, lookup-relinked e.id e.id e x d, beq_refl e.id),
    (
      refl,
      a_name,
      ground (
        arith,
        absent,
        lookup-relinked e.id x.id e x d,
        beq_refl x.id,
        string_eq.beq_iff x.id e.id,
        string_eq.beq_iff e.id x.id,
      ),
      relinked-IsChain e.next e.id e x es d (ground (arith, absent)) distinct.0 h.3,
    ),
  )

  pub link_in-IsChain :
      (current : Option String) (tag : String) (parent x : Element A) (es : List (Element A))
      (d : Dict String (Element A))
      → named (some x.id) ≡ some x.id
      → lookup tag d ≡ some parent
      → member x.id (ids es) ≡ false
      → member tag (ids es) ≡ true
      → x.id ≢ tag
      → IsDistinct (ids es)
      → IsChain current es d
      → IsChain current (link_in tag x es) (relinked tag parent x d)
  unfolding member
  link_in-IsChain current tag parent x [] d a_name found absent present other distinct h =
      ground (arith, present)
  link_in-IsChain current tag parent x (e ∷ es) d a_name found absent present other distinct h =
      elim (Bool-cases (e.id == tag)) [
        | inl here ↦
            let same_tag : e.id ≡ tag = (string_eq.beq_iff e.id tag).0 here in
            let same : e ≡ parent = ground (arith, h.2, found, same_tag) in
            let es' = (record e { next = some x.id }) ∷ (record x { next = e.next }) ∷ es in
            let linked = link_here current e x es d a_name absent distinct h in
            rw here (
              subst (λ t. IsChain current es' (relinked t parent x d)) same_tag
                (subst (λ p. IsChain current es' (relinked e.id p x d)) same linked))
        | inr later ↦ rw later (
          h.0,
          h.1,
          ground (
            arith,
            absent,
            later,
            h.2,
            lookup-relinked tag e.id parent x d,
            string_eq.beq_iff tag e.id,
            string_eq.beq_iff e.id tag,
            string_eq.beq_iff x.id e.id,
          ),
          link_in-IsChain e.next tag parent x es d a_name found (ground (arith, absent))
              (ground
                (arith, present, later, string_eq.beq_iff tag e.id, string_eq.beq_iff e.id tag))
              other distinct.1 h.3,
        )
      ]
