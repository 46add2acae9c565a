-- ===== src/Crdt/OrSet/Merge.antt =====
-- The merge of two replicas of a set with removal.
use autonomous_rover_swarm_c.Common.{
  String, string_eq, Bool, false, ◌||◌, ◌≡◌, none, is_some, List, [], ◌∷◌, foldl, All, Key,
  if◌then◌else◌, arith,
}
use autonomous_rover_swarm_c.Common.Dict.{lookup, keys, lookup-fill, member-keys}
use autonomous_rover_swarm_c.Common.Sets.{
  member, union, SameSet, nonempty-Same, member-union, member-difference,
}
use autonomous_rover_swarm_c.Crdt.Lattice.{Lattice, converges}
use autonomous_rover_swarm_c.Crdt.Lattice.Build.{or_lattice, product, through}
use autonomous_rover_swarm_c.Crdt.OrSet.{OrSet, tags_of, contains, merge}
use mathlib.Core.List.{Memᴰ}

module _ {ℓ} {A : Type ℓ} ⦃e : Key A⦄ where
  unfoldable pub added : (x : A) (a b : OrSet A) → Bool
  added x a b = is_some (lookup x a.add_set) || is_some (lookup x b.add_set)

  adds-merge :
      (x : A) (a b : OrSet A)
      → tags_of x (merge a b).add_set
        ≡ (if added x a b then union (tags_of x a.add_set) (tags_of x b.add_set) else [])
  unfolding merge added tags_of lookup
  adds-merge x a b =
      let nodes = union (keys a.add_set) (keys b.add_set) in
      let both = λ (k : A). union (tags_of k a.add_set) (tags_of k b.add_set) in
      ground (
        arith,
        lookup-fill both nodes [] x,
        member-union (keys a.add_set) (keys b.add_set) x,
        member-keys x a.add_set,
        member-keys x b.add_set,
      )

  pub rems-merge :
      (x : A) (a b : OrSet A)
      → tags_of x (merge a b).rem_set
        ≡ (if added x a b then union (tags_of x a.rem_set) (tags_of x b.rem_set) else [])
  unfolding merge added tags_of lookup
  rems-merge x a b =
      let nodes = union (keys a.add_set) (keys b.add_set) in
      let both = λ (k : A). union (tags_of k a.rem_set) (tags_of k b.rem_set) in
      ground (
        arith,
        lookup-fill both nodes [] x,
        member-union (keys a.add_set) (keys b.add_set) x,
        member-keys x a.add_set,
        member-keys x b.add_set,
      )

  pub lookup_adds-merge :
      (x : A) (a b : OrSet A) → is_some (lookup x (merge a b).add_set) ≡ added x a b
  unfolding merge added lookup
  lookup_adds-merge x a b =
      let nodes = union (keys a.add_set) (keys b.add_set) in
      let both = λ (k : A). union (tags_of k a.add_set) (tags_of k b.add_set) in
      ground (
        arith,
        lookup-fill both nodes [] x,
        member-union (keys a.add_set) (keys b.add_set) x,
        member-keys x a.add_set,
        member-keys x b.add_set,
      )

  -- A merge has the add tags of both replicas.
  pub member_adds-merge :
      (x : A) (tag : String) (a b : OrSet A)
      → member tag (tags_of x (merge a b).add_set)
        ≡ (member tag (tags_of x a.add_set) || member tag (tags_of x b.add_set))
  unfolding added tags_of member
  member_adds-merge x tag a b =
      ground (arith, adds-merge x a b, member-union (tags_of x a.add_set) (tags_of x b.add_set) tag)

  -- Every element with a removed tag has an entry among the additions, as `remove` leaves it.
  abbrev pub IsObserved : OrSet A → Type ℓ
  IsObserved s =
      (x : A) (tag : String) → lookup x s.add_set ≡ none → member tag (tags_of x s.rem_set) ≡ false

  pub member_rems-merge :
      (x : A) (tag : String) (a b : OrSet A)
      → IsObserved a
      → IsObserved b
      → member tag (tags_of x (merge a b).rem_set)
        ≡ (member tag (tags_of x a.rem_set) || member tag (tags_of x b.rem_set))
  unfolding added member
  member_rems-merge x tag a b ha hb = ground (
    arith,
    rems-merge x a b,
    member-union (tags_of x a.rem_set) (tags_of x b.rem_set) tag,
    ha x tag,
    hb x tag,
  )

  pub merge-IsObserved : (a b : OrSet A) → IsObserved (merge a b)
  unfolding member
  merge-IsObserved a b x tag h = ground (arith, rems-merge x a b, lookup_adds-merge x a b)

  -- The tags of every element, as two sets of pairs.
  abbrev tag_sets : OrSet A → (A × String → Bool) × (A × String → Bool)
  tag_sets s = (λ p. member p.1 (tags_of p.0 s.add_set), λ p. member p.1 (tags_of p.0 s.rem_set))

  orset_lattice : Lattice (OrSet A)
  unfolding or_lattice member_adds-merge member_rems-merge
  orset_lattice =
      through (product (or_lattice (A × String)) (or_lattice (A × String))) tag_sets merge
        IsObserved (λ s _. (tt, tt))
        (λ a b ha hb.
          (λ p. member_adds-merge p.0 p.1 a b, λ p. member_rems-merge p.0 p.1 a b ha hb))
        (λ a b _ _. merge-IsObserved a b)

  contains_of_same_tags :
      (x : A) (s t : OrSet A)
      → SameSet (tags_of x s.add_set) (tags_of x t.add_set)
      → SameSet (tags_of x s.rem_set) (tags_of x t.rem_set)
      → contains x s ≡ contains x t
  unfolding contains
  contains_of_same_tags x s t h k = nonempty-Same _ _ λ tag. ground (
    arith,
    h tag,
    k tag,
    member-difference (tags_of x s.add_set) (tags_of x s.rem_set) tag,
    member-difference (tags_of x t.add_set) (tags_of x t.rem_set) tag,
  )

  -- Two replicas that have merged the same states, in whatever order and however often, have the
  -- same elements, if in each state only added elements have removed tags.
  pub orsets_converge :
      (s t : OrSet A) (xs ys : List (OrSet A))
      → IsObserved s
      → All IsObserved xs
      → IsObserved t
      → All IsObserved ys
      → ((g : OrSet A) → Memᴰ g (s ∷ xs) → Memᴰ g (t ∷ ys))
      → ((g : OrSet A) → Memᴰ g (t ∷ ys) → Memᴰ g (s ∷ xs))
      → (x : A) → contains x (foldl merge s xs) ≡ contains x (foldl merge t ys)
  unfolding orset_lattice
  orsets_converge s t xs ys hs hxs ht hys inc cni x =
      let same = converges orset_lattice s t xs ys hs hxs ht hys inc cni in
      contains_of_same_tags x (foldl merge s xs) (foldl merge t ys) (λ tag. same.0 (x, tag))
        (λ tag. same.1 (x, tag))
