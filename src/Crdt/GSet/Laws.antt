-- ===== src/Crdt/GSet/Laws.antt =====
-- Additions, merges and deltas of crdt/gset.py.
use autonomous_rover_swarm_c.Common.{
  suc, true, ◌||◌, ◌≡◌, ◌⊎◌, List, ◌∷◌, foldl, All-always, Key, ◌==◌, arith, if◌then◌else◌,
}
use autonomous_rover_swarm_c.Common.Sets.{
  member, member-union, member-update, member-add, length-add,
}
use autonomous_rover_swarm_c.Crdt.Lattice.{Lattice, converges}
use autonomous_rover_swarm_c.Crdt.Lattice.Build.{or_lattice, through}
use autonomous_rover_swarm_c.Crdt.GSet.{GSet, add, contains, merge, delta, apply_delta, size}
use mathlib.Core.List.{Memᴰ}

module _ {ℓ} {A : Type ℓ} ⦃e : Key A⦄ where
  -- An addition puts in its element and touches no other; the size grows by one exactly when the
  -- element is new.
  pub add-contains :
      (a b : A) (s : GSet A)
      → (contains b (add a s) ≡ (b == a || contains b s))
        × (size (add a s) ≡ (if contains a s then size s else suc (size s)))
  unfolding add contains size
  add-contains a b s = (
    ground (arith, member-add a b s.elements, e.beq_iff b a),
    ground (arith, length-add a s.elements),
  )

  contains-merge : (a b : GSet A) (x : A) → contains x (merge a b) ≡ (contains x a || contains x b)
  unfolding contains merge
  contains-merge a b x = member-union a.elements b.elements x

  unfoldable pub set_lattice : Lattice (GSet A)
  unfolding contains-merge or_lattice
  set_lattice =
      through (or_lattice A) (λ s x. contains x s) merge (λ s. Unit) (λ s _. tt)
        (λ a b _ _ x. contains-merge a b x) (λ a b _ _. tt)

  -- Two replicas that have merged the same states, in whatever order and however often, have the
  -- same elements.
  pub sets_converge :
      (s t : GSet A) (xs ys : List (GSet A))
      → ((g : GSet A) → Memᴰ g (s ∷ xs) → Memᴰ g (t ∷ ys))
      → ((g : GSet A) → Memᴰ g (t ∷ ys) → Memᴰ g (s ∷ xs))
      → (a : A) → contains a (foldl merge s xs) ≡ contains a (foldl merge t ys)
  unfolding set_lattice
  sets_converge s t xs ys inc cni =
      converges set_lattice s t xs ys tt (All-always (λ _. tt) xs) tt (All-always (λ _. tt) ys) inc
        cni

  -- To apply a set's delta gives the elements of a full merge, if the peer had seen the elements
  -- that the delta leaves out and the delta names only elements of the set.
  pub apply_delta-eq-merge_elements :
      (sender peer : GSet A)
      → ((a : A)
          → contains a sender ≡ true
          → (member a sender.delta_elements ≡ true) ⊎ (contains a peer ≡ true))
      → ((a : A) → member a sender.delta_elements ≡ true → contains a sender ≡ true)
      → (a : A) → contains a (apply_delta (delta sender) peer) ≡ contains a (merge peer sender)
  unfolding apply_delta delta merge contains
  apply_delta-eq-merge_elements sender peer seen own a = ground (
    arith,
    member-update peer.elements sender.delta_elements a,
    member-union peer.elements sender.elements a,
    seen a,
    own a,
  )
