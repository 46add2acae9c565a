-- ===== src/Crdt/Lattice/Optional.antt =====
-- The lattice of a state that may be missing, as under a key of a dictionary.
use autonomous_rover_swarm_c.Common.{Option, none, some, OnSome}
use autonomous_rover_swarm_c.Crdt.Lattice.{Lattice}

-- No two states, at any level.
pub data Never {ℓ} : Type ℓ where

-- A state that may be missing: one that is there wins over none.
module _ {ℓ} {S : Type ℓ} (L : Lattice S) where
  abbrev pub merge_option : Option S → Option S → Option S
  merge_option (some a) (some b) = some (L.merge a b)
  merge_option (some a) none = some a
  merge_option none o = o

  abbrev pub SameOption : Option S → Option S → Type ℓ
  SameOption none none = Unit
  SameOption (some a) (some b) = L.Same a b
  SameOption _ _ = Never

  abbrev ValidOption : Option S → Type ℓ
  ValidOption = OnSome L.Valid

  same_option_refl : (a : Option S) → SameOption a a
  same_option_refl none = tt
  same_option_refl (some a) = L.same_refl a

  same_option_sym : (a b : Option S) → SameOption a b → SameOption b a
  same_option_sym none none h = tt
  same_option_sym (some a) (some b) h = L.same_sym a b h
  same_option_sym none (some b) h = h
  same_option_sym (some a) none h = h

  same_option_trans : (a b c : Option S) → SameOption a b → SameOption b c → SameOption a c
  same_option_trans none none c h k = k
  same_option_trans none (some b) c h k = elim h [ ]
  same_option_trans (some a) none c h k = elim h [ ]
  same_option_trans (some a) (some b) none h k = k
  same_option_trans (some a) (some b) (some c) h k = L.same_trans a b c h k

  merge_option-Valid :
      (a b : Option S) → ValidOption a → ValidOption b → ValidOption (merge_option a b)
  merge_option-Valid none b h k = k
  merge_option-Valid (some a) none h k = h
  merge_option-Valid (some a) (some b) h k = L.merge-Valid a b h k

  merge_option-Same :
      (a b c d : Option S)
      → ValidOption a
      → ValidOption b
      → ValidOption c
      → ValidOption d
      → SameOption a b
      → SameOption c d
      → SameOption (merge_option a c) (merge_option b d)
  merge_option-Same none none c d va vb vc vd h k = k
  merge_option-Same none (some b) c d va vb vc vd h k = elim h [ ]
  merge_option-Same (some a) none c d va vb vc vd h k = elim h [ ]
  merge_option-Same (some a) (some b) none none va vb vc vd h k = h
  merge_option-Same (some a) (some b) none (some d) va vb vc vd h k = elim k [ ]
  merge_option-Same (some a) (some b) (some c) none va vb vc vd h k = elim k [ ]
  merge_option-Same (some a) (some b) (some c) (some d) va vb vc vd h k =
      L.merge-Same a b c d va vb vc vd h k

  merge_option_comm :
      (a b : Option S)
      → ValidOption a
      → ValidOption b
      → SameOption (merge_option a b) (merge_option b a)
  merge_option_comm none none h k = tt
  merge_option_comm none (some b) h k = L.same_refl b
  merge_option_comm (some a) none h k = L.same_refl a
  merge_option_comm (some a) (some b) h k = L.merge_comm a b h k

  merge_option_assoc :
      (a b c : Option S)
      → ValidOption a
      → ValidOption b
      → ValidOption c
      → SameOption (merge_option (merge_option a b) c) (merge_option a (merge_option b c))
  merge_option_assoc none b c va vb vc = same_option_refl (merge_option b c)
  merge_option_assoc (some a) none c va vb vc = same_option_refl (merge_option (some a) c)
  merge_option_assoc (some a) (some b) none va vb vc = L.same_refl (L.merge a b)
  merge_option_assoc (some a) (some b) (some c) va vb vc = L.merge_assoc a b c va vb vc

  merge_option_idem : (a : Option S) → ValidOption a → SameOption (merge_option a a) a
  merge_option_idem none h = tt
  merge_option_idem (some a) h = L.merge_idem a h

  unfoldable pub optional : Lattice (Option S)
  unfolding same_option_refl same_option_sym same_option_trans merge_option-Valid merge_option-Same
      merge_option_comm merge_option_assoc merge_option_idem
  optional = record {
    merge = merge_option;
    Same = SameOption;
    Valid = ValidOption;
    same_refl = same_option_refl;
    same_sym = same_option_sym;
    same_trans = same_option_trans;
    merge-Valid = merge_option-Valid;
    merge-Same = merge_option-Same;
    merge_comm = merge_option_comm;
    merge_assoc = merge_option_assoc;
    merge_idem = merge_option_idem;
  }
