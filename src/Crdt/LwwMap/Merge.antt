-- ===== src/Crdt/LwwMap/Merge.antt =====
-- The merge of maps of crdt/lwwmap.py, register by register.
use autonomous_rover_swarm_c.Common.{
  String, string_eq, ◌≡◌, refl, ap, Option, none, some, List, [], ◌∷◌, foldl, All, arith, OnSome,
  subst, sym,
}
use autonomous_rover_swarm_c.Common.Dict
use autonomous_rover_swarm_c.Common.Dict.{Dict, lookup, lookup-fill_some, member-keys}
use autonomous_rover_swarm_c.Common.Sets.{union, member-union}
use autonomous_rover_swarm_c.Crdt.Base.{Timestamp}
use autonomous_rover_swarm_c.Crdt.Lattice.{Lattice, converges}
use autonomous_rover_swarm_c.Crdt.Lattice.Build.{pointwise, through}
use autonomous_rover_swarm_c.Crdt.Lattice.Optional.{optional, merge_option, SameOption}
use autonomous_rover_swarm_c.Crdt.LwwReg
use autonomous_rover_swarm_c.Crdt.LwwReg.{LwwReg}
use autonomous_rover_swarm_c.Crdt.LwwReg.Merge.{IsWritten, register_lattice, Content}
use autonomous_rover_swarm_c.Crdt.LwwMap.{LwwMap, get, merge, merge_registers, value_or}
use mathlib.Core.List.{Memᴰ}

module _ {ℓ} {V : Type ℓ} where
  -- A merged map has at each key the merge of the two registers, or the one that is there.
  pub lookup-merge :
      (a b : LwwMap V) (key : String)
      → lookup key (merge a b).registers
        ≡ merge_registers (lookup key a.registers) (lookup key b.registers)
  unfolding merge
  lookup-merge a b key =
      let f = λ (k : String). merge_registers (lookup k a.registers) (lookup k b.registers) in
      ground (
        arith,
        lookup-fill_some f (union (Dict.keys a.registers) (Dict.keys b.registers)) [] key,
        member-union (Dict.keys a.registers) (Dict.keys b.registers) key,
        member-keys key a.registers,
        member-keys key b.registers,
        lookup_nothing key,
      )
    where
      lookup_nothing : (k : String) → lookup {V = LwwReg V} k [] ≡ none
      lookup_nothing k = unfold lookup in refl

-- `written key` tells for each key what the write with a given time and node has written.
module _ {ℓ} {V : Type ℓ} (written : String → Timestamp → String → Option V) where
  -- Each register of the map holds a write of the history.
  abbrev pub IsHistory : LwwMap V → Type ℓ
  IsHistory m = (key : String) → OnSome (IsWritten (written key)) (lookup key m.registers)

  abbrev registers_lattice : Lattice (String → Option (LwwReg V))
  registers_lattice = pointwise (λ key. optional (register_lattice (written key)))

  abbrev registers_of : LwwMap V → String → Option (LwwReg V)
  registers_of m key = lookup key m.registers

  merge_registers-Same :
      (key : String) (x y : Option (LwwReg V))
      → SameOption
          (register_lattice (written key))
          (merge_registers x y)
          (merge_option (register_lattice (written key)) x y)
  unfolding register_lattice
  merge_registers-Same key none none = tt
  merge_registers-Same key none (some y) = (register_lattice (written key)).same_refl y
  merge_registers-Same key (some x) none = (register_lattice (written key)).same_refl x
  merge_registers-Same key (some x) (some y) =
      (register_lattice (written key)).same_refl (LwwReg.merge x y)

  merge_registers-OnSome :
      (key : String) (x y : Option (LwwReg V))
      → OnSome (IsWritten (written key)) x
      → OnSome (IsWritten (written key)) y
      → OnSome (IsWritten (written key)) (merge_registers x y)
  unfolding register_lattice
  merge_registers-OnSome key none y h k = k
  merge_registers-OnSome key (some x) none h k = h
  merge_registers-OnSome key (some x) (some y) h k =
      (register_lattice (written key)).merge-Valid x y h k

  same_value_or :
      (key : String) (default : Option V) (x y : Option (LwwReg V))
      → SameOption (register_lattice (written key)) x y
      → value_or default x ≡ value_or default y
  unfolding register_lattice
  same_value_or key default none none h = refl
  same_value_or key default none (some y) h = elim h [ ]
  same_value_or key default (some x) none h = elim h [ ]
  same_value_or key default (some x) (some y) h = ap (λ (c : Content V). c.2) h.0

  module _ (a b : LwwMap V) where
    same_registers :
        registers_lattice.Same
          (registers_of (merge a b))
          (registers_lattice.merge (registers_of a) (registers_of b))
    unfolding optional register_lattice
    same_registers key =
        subst
          (λ o. SameOption (register_lattice (written key)) o (
            merge_option (register_lattice (written key)) (registers_of a key)
              (registers_of b key)))
          (sym (lookup-merge a b key))
          (merge_registers-Same key (registers_of a key) (registers_of b key))

    merge-IsHistory : IsHistory a → IsHistory b → IsHistory (merge a b)
    merge-IsHistory h k key =
        subst (OnSome (IsWritten (written key))) (sym (lookup-merge a b key))
          (merge_registers-OnSome key (registers_of a key) (registers_of b key) (h key) (k key))

  map_lattice : Lattice (LwwMap V)
  unfolding optional register_lattice
  map_lattice =
      through registers_lattice registers_of merge IsHistory (λ m h. h)
        (λ a b _ _. same_registers a b) merge-IsHistory

  same_value :
      (key : String) (default : Option V) (s t : LwwMap V)
      → SameOption (register_lattice (written key)) (registers_of s key) (registers_of t key)
      → get key default s ≡ get key default t
  unfolding get
  same_value key default s t h =
      same_value_or key default (registers_of s key) (registers_of t key) h

  -- Two replicas of a map that have merged the same states, in whatever order and however often,
  -- hold the same value at every key, if at each key a stamp stands for one write.
  pub maps_converge :
      (s t : LwwMap V) (xs ys : List (LwwMap V))
      → IsHistory s
      → All IsHistory xs
      → IsHistory t
      → All IsHistory ys
      → ((m : LwwMap V) → Memᴰ m (s ∷ xs) → Memᴰ m (t ∷ ys))
      → ((m : LwwMap V) → Memᴰ m (t ∷ ys) → Memᴰ m (s ∷ xs))
      → (key : String) (default : Option V)
      → get key default (foldl merge s xs) ≡ get key default (foldl merge t ys)
  unfolding map_lattice optional
  maps_converge s t xs ys hs hxs ht hys inc cni key default =
      same_value key default (foldl merge s xs) (foldl merge t ys)
        (converges map_lattice s t xs ys hs hxs ht hys inc cni key)
