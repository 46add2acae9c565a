-- ===== src/Crdt/OrSet/Local.antt =====
-- The operations of one replica: what `add` and `remove` do to membership.
use autonomous_rover_swarm_c.Common.{
  ℕ, ◌+◌, ◌<◌, String, string_eq, true, false, not, ◌||◌, ◌&&◌, ◌≡◌, refl, ap, ap₂, subst, none,
  List, [], ◌∷◌, Key, ◌==◌, beq_refl, if◌then◌else◌, arith, Bool-cases, inl, inr,
}
use autonomous_rover_swarm_c.Common.Decimal.{tag_of, tag_of-injective}
use autonomous_rover_swarm_c.Common.Dict.{lookup, insert, lookup-insert, keys, member-keys}
use autonomous_rover_swarm_c.Common.Sets
use autonomous_rover_swarm_c.Common.Sets.{
  member, union, difference, nonempty, member-add, member-union, member-difference,
  difference-nonempty, member_of_nonempty, nonempty_of_member, empty_of_no_member, IsDistinct,
}
use autonomous_rover_swarm_c.Crdt.OrSet.{
  OrSet, Tags, tags_of, visible, value, contains, add_tag, add, remove, new,
}

module _ {ℓ} {A : Type ℓ} ⦃e : Key A⦄ where
  pub tags_of-insert :
      (k j : A) (tags : List String) (d : Tags A)
      → tags_of j (insert k tags d) ≡ (if k == j then tags else tags_of j d)
  unfolding tags_of
  tags_of-insert k j tags d = ground (arith, lookup-insert k j tags d)

  -- An element is there exactly if one of its tags is not removed.
  pub contains_of_tag :
      (x : A) (s : OrSet A) (tag : String)
      → member tag (tags_of x s.add_set) ≡ true
      → member tag (tags_of x s.rem_set) ≡ false
      → contains x s ≡ true
  unfolding contains
  contains_of_tag x s tag h k =
      nonempty_of_member tag (difference (tags_of x s.add_set) (tags_of x s.rem_set))
        (ground (arith, member-difference (tags_of x s.add_set) (tags_of x s.rem_set) tag))

  pub not_contains_of_removed :
      (x : A) (s : OrSet A)
      → ((tag : String)
          → member tag (tags_of x s.add_set) ≡ true
          → member tag (tags_of x s.rem_set) ≡ true)
      → contains x s ≡ false
  unfolding contains
  not_contains_of_removed x s h =
      empty_of_no_member (difference (tags_of x s.add_set) (tags_of x s.rem_set)) (λ tag.
        ground (arith, h tag, member-difference (tags_of x s.add_set) (tags_of x s.rem_set) tag))

  pub tag_of_contains :
      (x : A) (s : OrSet A)
      → contains x s ≡ true
      → (tag : String) × (member tag (tags_of x s.add_set) ≡ true)
        × (member tag (tags_of x s.rem_set) ≡ false)
  unfolding contains
  tag_of_contains x s h =
      let (tag, m) =
        member_of_nonempty (difference (tags_of x s.add_set) (tags_of x s.rem_set)) h in
      let d = member-difference (tags_of x s.add_set) (tags_of x s.rem_set) tag in
      (tag, ground (arith, d, m), ground (arith, d, m))

  pub removed_of_not_contains :
      (x : A) (s : OrSet A) (tag : String)
      → contains x s ≡ false
      → member tag (tags_of x s.add_set) ≡ true
      → member tag (tags_of x s.rem_set) ≡ true
  removed_of_not_contains x s tag h k = elim (Bool-cases (member tag (tags_of x s.rem_set))) [
    | inl m ↦ m
    | inr m ↦ ground (arith, contains_of_tag x s tag k m)
  ]

  -- The tags that the replica will give out next are in none of its sets.
  pub record IsFresh (s : OrSet A) : Type ℓ where
    pub adds_fresh :
        (x : A) (n : ℕ)
        → s.tag_counter < n
        → member (tag_of s.node_id n) (tags_of x s.add_set) ≡ false
    pub rems_fresh :
        (x : A) (n : ℕ)
        → s.tag_counter < n
        → member (tag_of s.node_id n) (tags_of x s.rem_set) ≡ false

  -- A new set is fresh.
  pub new-IsFresh : (node : String) → IsFresh (new node none)
  unfolding new tags_of lookup member
  new-IsFresh node = record { adds_fresh = λ x n h. refl; rems_fresh = λ x n h. refl }

  -- An addition keeps the counter ahead of every tag that is in use.
  pub add-IsFresh : (a : A) (s : OrSet A) → IsFresh s → IsFresh (add a s)
  unfolding add add_tag
  add-IsFresh a s h = record {
    adds_fresh = λ x n lt.
        let tag = tag_of s.node_id n in
        let old = tag_of s.node_id (s.tag_counter + 1) in
        elim (Bool-cases (tag == old)) [
          | inl same ↦ absurd (
              omega (
                arith,
                tag_of-injective s.node_id n (s.tag_counter + 1)
                    ((string_eq.beq_iff tag old).0 same),
              ))
          | inr other ↦ ground (
            arith,
            tags_of-insert a x (Sets.add old (tags_of a s.add_set)) s.add_set,
            e.beq_iff a x,
            member-add old tag (tags_of a s.add_set),
            h.adds_fresh x n (omega arith),
            h.adds_fresh a n (omega arith),
          )
        ];
    rems_fresh = λ x n lt. h.rems_fresh x n (omega arith);
  }

  -- Membership depends on the two sets of tags alone.
  contains-eq :
      (x : A) (s t : OrSet A)
      → tags_of x s.add_set ≡ tags_of x t.add_set
      → tags_of x s.rem_set ≡ tags_of x t.rem_set
      → contains x s ≡ contains x t
  unfolding contains
  contains-eq x s t h k = ap₂ (λ adds rems. nonempty (difference adds rems)) h k

  pub tags_of-add :
      (a b : A) (s : OrSet A)
      → tags_of b (add a s).add_set ≡ (
          if a == b
          then Sets.add (tag_of s.node_id (s.tag_counter + 1)) (tags_of b s.add_set)
          else tags_of b s.add_set)
  unfolding add add_tag
  tags_of-add a b s = ground (
    arith,
    tags_of-insert a b (Sets.add (tag_of s.node_id (s.tag_counter + 1)) (tags_of a s.add_set))
        s.add_set,
    e.beq_iff a b,
  )

  pub rem_set-add : (a : A) (s : OrSet A) → (add a s).rem_set ≡ s.rem_set
  unfolding add
  rem_set-add a s = refl

  -- After an addition to a replica whose counter is ahead of its tags the element is there, and no
  -- other element has changed.
  pub contains-add :
      (a b : A) (s : OrSet A) → IsFresh s → contains b (add a s) ≡ (a == b || contains b s)
  contains-add a b s h = elim (Bool-cases (a == b)) [
    | inl same ↦
        let tag = tag_of s.node_id (s.tag_counter + 1) in
        rw same (
          contains_of_tag b (add a s) tag
            (rw (tags_of-add a b s)
              (rw same (rw member-add (ground (arith, string_eq.beq_iff tag tag)))))
            (rw rem_set-add (h.rems_fresh b (s.tag_counter + 1) (omega arith))))
    | inr other ↦ rw other (
        contains-eq b (add a s) s (rw (tags_of-add a b s) (rw other))
          (ap (tags_of b) (rem_set-add a s)))
  ]

  pub remove_absent : (a : A) (s : OrSet A) → contains a s ≡ false → remove a s ≡ s
  unfolding remove contains
  remove_absent a s h = ground arith

  abbrev pub removed_tags : A → OrSet A → List String
  removed_tags a s =
      union (tags_of a s.rem_set) (difference (tags_of a s.add_set) (tags_of a s.rem_set))

  pub remove_present :
      (a : A) (s : OrSet A)
      → contains a s ≡ true
      → ((remove a s).add_set ≡ s.add_set)
        × ((remove a s).rem_set ≡ insert a (removed_tags a s) s.rem_set)
  unfolding remove contains
  remove_present a s h =
      ground (arith, difference-nonempty (tags_of a s.add_set) (tags_of a s.rem_set) h)

  remove_present_self :
      (a : A) (s : OrSet A) → contains a s ≡ true → contains a (remove a s) ≡ false
  remove_present_self a s h = not_contains_of_removed a (remove a s) λ tag m.
      let (adds, rems) = remove_present a s h in
      rw rems (
        ground (
          arith,
          tags_of-insert a a (removed_tags a s) s.rem_set,
          beq_refl a,
          ap (λ d. member tag (tags_of a d)) adds,
          member-union (tags_of a s.rem_set)
              (difference (tags_of a s.add_set) (tags_of a s.rem_set)) tag,
          member-difference (tags_of a s.add_set) (tags_of a s.rem_set) tag,
        ))

  remove_other :
      (a b : A) (s : OrSet A)
      → (a == b) ≡ false
      → contains a s ≡ true
      → contains b (remove a s) ≡ contains b s
  remove_other a b s other h =
      let (adds, rems) = remove_present a s h in
      contains-eq b (remove a s) s (ap (tags_of b) adds)
        (rw rems (ground (arith, tags_of-insert a b (removed_tags a s) s.rem_set)))

  -- After a removal the element is gone, and no other element has changed.
  pub contains-remove :
      (a b : A) (s : OrSet A) → contains b (remove a s) ≡ (not (a == b) && contains b s)
  contains-remove a b s = elim (Bool-cases (contains a s)) [
    | inl here ↦ elim (Bool-cases (a == b)) [
      | inl same ↦ rw same (
          subst (λ x. contains x (remove a s) ≡ false) ((e.beq_iff a b).0 same)
            (remove_present_self a s here))
      | inr other ↦ rw other (remove_other a b s other here)
    ]
    | inr gone ↦ rw (remove_absent a s gone) (elim (Bool-cases (a == b)) [
      | inl same ↦ rw same (subst (λ x. contains x s ≡ false) ((e.beq_iff a b).0 same) gone)
      | inr other ↦ rw other refl
    ])
  ]

  counter-remove :
      (a : A) (s : OrSet A)
      → ((remove a s).tag_counter ≡ s.tag_counter) × ((remove a s).node_id ≡ s.node_id)
  unfolding remove
  counter-remove a s = (ground arith, ground arith)

  -- A removal keeps the counter ahead of every tag that is in use.
  pub remove-IsFresh : (a : A) (s : OrSet A) → IsFresh s → IsFresh (remove a s)
  remove-IsFresh a s h = elim (Bool-cases (contains a s)) [
    | inl here ↦
        let (adds, rems) = remove_present a s here in
        let (same_counter, same_node) = counter-remove a s in
        record {
          adds_fresh =
              λ x n lt. rw (same_node, adds) (h.adds_fresh x n (omega (arith, same_counter)));
          rems_fresh = λ x n lt.
              let below : s.tag_counter < n = omega (arith, same_counter) in
              rw (same_node, rems)
                (ground (
                  arith,
                  tags_of-insert a x (removed_tags a s) s.rem_set,
                  member-union (tags_of a s.rem_set)
                      (difference (tags_of a s.add_set) (tags_of a s.rem_set)) (tag_of s.node_id n),
                  member-difference (tags_of a s.add_set) (tags_of a s.rem_set)
                      (tag_of s.node_id n),
                  h.rems_fresh x n below,
                  h.rems_fresh a n below,
                  h.adds_fresh a n below,
                ));
        }
    | inr gone ↦ rw (remove_absent a s gone) h
  ]

  member-visible :
      (x : A) (d rems : Tags A)
      → IsDistinct (keys d)
      → member x (visible d rems) ≡ nonempty (difference (tags_of x d) (tags_of x rems))
  unfolding visible tags_of lookup keys member difference
  member-visible x [] rems h = refl
  member-visible x ((k, tags) ∷ d) rems h = ground (
    arith,
    member-visible x d rems h.1,
    member-keys k d,
    member-add k x (visible d rems),
    e.beq_iff k x,
    e.beq_iff x k,
  )

  -- `value` lists exactly the elements that `contains` finds, in a set whose dictionary has each
  -- element once.
  pub value-contains :
      (x : A) (s : OrSet A) → IsDistinct (keys s.add_set) → member x (value s) ≡ contains x s
  unfolding value contains
  value-contains x s once = member-visible x s.add_set s.rem_set once
