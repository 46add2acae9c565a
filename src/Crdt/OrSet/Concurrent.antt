-- ===== src/Crdt/OrSet/Concurrent.antt =====
-- Concurrent additions and removals, and what a merge forgets.
use autonomous_rover_swarm_c.Common.{
  ℕ, ◌+◌, ◌<◌, String, string_eq, true, false, ◌≡◌, refl, ap, none, is_some, [], Key, beq_refl,
  arith, Bool-cases, inl, inr,
}
use autonomous_rover_swarm_c.Common.Decimal.{tag_of}
use autonomous_rover_swarm_c.Common.Dict.{lookup, lookup-insert}
use autonomous_rover_swarm_c.Common.Sets
use autonomous_rover_swarm_c.Common.Sets.{
  member, union, difference, member-union, member-difference, member-add,
}
use autonomous_rover_swarm_c.Crdt.OrSet.{OrSet, tags_of, contains, add, add_tag, remove, merge}
use autonomous_rover_swarm_c.Crdt.OrSet.Local.{
  IsFresh, contains_of_tag, tag_of_contains, not_contains_of_removed, removed_of_not_contains,
  tags_of-add, rem_set-add, tags_of-insert, remove_absent, remove_present, removed_tags,
}
use autonomous_rover_swarm_c.Crdt.OrSet.Merge.{
  IsObserved, member_adds-merge, member_rems-merge, rems-merge, lookup_adds-merge, added,
}

no_member : (tag : String) → member tag [] ≡ false
unfolding member
no_member tag = refl

module _ {ℓ} {A : Type ℓ} ⦃e : Key A⦄ where
  -- `add` and `remove` keep every element with a removed tag among the additions.
  pub add-IsObserved : (a : A) (s : OrSet A) → IsObserved s → IsObserved (add a s)
  unfolding add add_tag
  add-IsObserved a s h x tag none_there = ground (
    arith,
    h x tag,
    lookup-insert a x (Sets.add (tag_of s.node_id (s.tag_counter + 1)) (tags_of a s.add_set))
        s.add_set,
  )

  present_key :
      (a : A) (s : OrSet A) → contains a s ≡ true → lookup a s.add_set ≡ none → true ≡ false
  unfolding contains tags_of difference
  present_key a s h k = ground arith

  pub remove-IsObserved : (a : A) (s : OrSet A) → IsObserved s → IsObserved (remove a s)
  remove-IsObserved a s h x tag = elim (Bool-cases (contains a s)) [
    | inl here ↦
        let (adds, rems) = remove_present a s here in
        rw (adds, rems)
          λ k. ground (
            arith,
            h x tag k,
            tags_of-insert a x (removed_tags a s) s.rem_set,
            e.beq_iff a x,
            present_key a s here,
            ap (λ y. lookup y s.add_set) {x = a} {y = x},
          )
    | inr gone ↦ rw (remove_absent a s gone) (h x tag)
  ]

  -- Of an addition and a concurrent removal of the same element the addition wins, in a merge
  -- either way round, if the adding replica's counter is ahead of its tags, the other replica has
  -- removed none of the tags to come, and on both only added elements have removed tags.
  pub add_wins :
      (a : A) (s t : OrSet A)
      → IsObserved s
      → IsObserved t
      → IsFresh s
      → ((n : ℕ) → s.tag_counter < n → member (tag_of s.node_id n) (tags_of a t.rem_set) ≡ false)
      → (contains a (merge (add a s) t) ≡ true) × (contains a (merge t (add a s)) ≡ true)
  add_wins a s t os ot fresh unseen =
      let tag = tag_of s.node_id (s.tag_counter + 1) in
      let facts_add : member tag (tags_of a (add a s).add_set) ≡ true =
        rw (tags_of-add a a s)
          (rw beq_refl (rw member-add (ground (arith, string_eq.beq_iff tag tag)))) in
      let facts_rem : member tag (tags_of a (add a s).rem_set) ≡ false =
        rw rem_set-add (fresh.rems_fresh a (s.tag_counter + 1) (omega arith)) in
      let theirs : member tag (tags_of a t.rem_set) ≡ false =
        unseen (s.tag_counter + 1) (omega arith) in
      let o = add-IsObserved a s os in
      (
        contains_of_tag a (merge (add a s) t) tag (rw member_adds-merge (rw facts_add refl))
            (rw (member_rems-merge a tag (add a s) t o ot) (rw (facts_rem, theirs) refl)),
        contains_of_tag a (merge t (add a s)) tag
            (rw member_adds-merge (rw facts_add (ground arith)))
            (rw (member_rems-merge a tag t (add a s) ot o) (rw (facts_rem, theirs) refl)),
      )

  tags_of-add_merged :
      (a : A) (s t : OrSet A)
      → tags_of a (add a (merge s t)).add_set
        ≡ Sets.add (tag_of s.node_id 1) (tags_of a (merge s t).add_set)
  unfolding merge
  tags_of-add_merged a s t = rw (tags_of-add a a (merge s t)) (rw beq_refl)

  key_of_tag :
      (a : A) (s : OrSet A) (tag : String)
      → member tag (tags_of a s.add_set) ≡ true
      → is_some (lookup a s.add_set) ≡ true
  unfolding tags_of member
  key_of_tag a s tag h = ground arith

  no_tags :
      (a : A) (s : OrSet A)
      → lookup a s.add_set ≡ none
      → (tag : String) → member tag (tags_of a s.add_set) ≡ false
  unfolding tags_of member
  no_tags a s h tag = ground arith

  -- A merged replica numbers its tags from 1 again. If it had added an element under its first tag,
  -- and the element has since been removed on both replicas, a new addition after the merge repeats
  -- that removed tag, and the element does not appear.
  pub merge_forgets_counter :
      (a : A) (s t : OrSet A)
      → contains a s ≡ false
      → contains a t ≡ false
      → member (tag_of s.node_id 1) (tags_of a s.add_set) ≡ true
      → contains a (add a (merge s t)) ≡ false
  unfolding added
  merge_forgets_counter a s t hs ht first = not_contains_of_removed a (add a (merge s t)) λ tag m.
      ground (
        arith,
        ap (member tag) (tags_of-add_merged a s t),
        member-add (tag_of s.node_id 1) tag (tags_of a (merge s t).add_set),
        string_eq.beq_iff tag (tag_of s.node_id 1),
        member_adds-merge a tag s t,
        removed_of_not_contains a s tag hs,
        removed_of_not_contains a t tag ht,
        removed_of_not_contains a s (tag_of s.node_id 1) hs first,
        key_of_tag a s (tag_of s.node_id 1) first,
        rem_set-add a (merge s t),
        rems-merge a s t,
        member-union (tags_of a s.rem_set) (tags_of a t.rem_set) tag,
      )

  -- A removal that arrived by a delta before its addition is dropped by the next merge. So the order
  -- of merges matters: `b` knows that every tag of `x` in `a` is removed and has not seen `x` itself,
  -- nor has `c`; merged first with `c`, it forgets the removal.
  pub early_removal_is_lost :
      (x : A) (a b c : OrSet A)
      → contains x a ≡ true
      → lookup x b.add_set ≡ none
      → lookup x c.add_set ≡ none
      → ((tag : String)
          → member tag (tags_of x a.add_set) ≡ true
          → member tag (tags_of x b.rem_set) ≡ true)
      → (contains x (merge (merge b c) a) ≡ true) × (contains x (merge b (merge c a)) ≡ false)
  unfolding added
  early_removal_is_lost x a b c here nb nc removed =
      let (seen, in_adds, not_removed) = tag_of_contains x a here in
      (
        contains_of_tag x (merge (merge b c) a) seen
            (rw member_adds-merge (ground (arith, in_adds)))
            (ground (
              arith,
              key_of_tag x a seen in_adds,
              rems-merge x (merge b c) a,
              rems-merge x b c,
              not_removed,
              member-union [] (tags_of x a.rem_set) seen,
              no_member seen,
            )),
        not_contains_of_removed x (merge b (merge c a)) λ tag m. ground (
          arith,
          removed tag,
          member_adds-merge x tag b (merge c a),
          member_adds-merge x tag c a,
          no_tags x b nb tag,
          no_tags x c nc tag,
          key_of_tag x a tag,
          lookup_adds-merge x c a,
          rems-merge x b (merge c a),
          member-union (tags_of x b.rem_set) (tags_of x (merge c a).rem_set) tag,
        ),
      )
