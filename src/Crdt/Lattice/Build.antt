-- ===== src/Crdt/Lattice/Build.antt =====
-- Lattices of composite states: pairs, a record seen through its mergeable parts, fewer states.
use autonomous_rover_swarm_c.Common.{◌≡◌, refl, sym, ◌∙◌, Bool, ◌||◌, arith}
use autonomous_rover_swarm_c.Crdt.Lattice.{Lattice}

module _ {ℓ κ} {A : Type ℓ} {B : Type κ} (L : Lattice A) (M : Lattice B) where
  abbrev pub product : Lattice (A × B)
  product = record {
    merge = λ a b. (L.merge a.0 b.0, M.merge a.1 b.1);
    Same = λ a b. L.Same a.0 b.0 × M.Same a.1 b.1;
    Valid = λ a. L.Valid a.0 × M.Valid a.1;
    same_refl = λ a. (L.same_refl a.0, M.same_refl a.1);
    same_sym = λ a b h. (L.same_sym _ _ h.0, M.same_sym _ _ h.1);
    same_trans = λ a b c h k. (L.same_trans _ _ _ h.0 k.0, M.same_trans _ _ _ h.1 k.1);
    merge-Valid = λ a b va vb. (L.merge-Valid _ _ va.0 vb.0, M.merge-Valid _ _ va.1 vb.1);
    merge-Same = λ a b c d va vb vc vd h k. (
      L.merge-Same _ _ _ _ va.0 vb.0 vc.0 vd.0 h.0 k.0,
      M.merge-Same _ _ _ _ va.1 vb.1 vc.1 vd.1 h.1 k.1,
    );
    merge_comm = λ a b va vb. (L.merge_comm _ _ va.0 vb.0, M.merge_comm _ _ va.1 vb.1);
    merge_assoc =
        λ a b c va vb vc. (L.merge_assoc _ _ _ va.0 vb.0 vc.0, M.merge_assoc _ _ _ va.1 vb.1 vc.1);
    merge_idem = λ a va. (L.merge_idem _ va.0, M.merge_idem _ va.1);
  }

-- A record that merges part by part: `view` gives the parts, up to `Same`.
module _ {ℓ} {S T : Type ℓ} (L : Lattice T) (view : S → T) (merge : S → S → S) (Valid : S → Type ℓ)
    (valid : (a : S) → Valid a → L.Valid (view a))
    (view-merge : (a b : S)
      → Valid a
      → Valid b
      → L.Same (view (merge a b)) (L.merge (view a) (view b)))
    (merge-Valid : (a b : S) → Valid a → Valid b → Valid (merge a b)) where
  abbrev pub through : Lattice S
  through = record {
    merge = merge;
    Same = λ a b. L.Same (view a) (view b);
    Valid = Valid;
    same_refl = λ a. L.same_refl _;
    same_sym = λ a b h. L.same_sym _ _ h;
    same_trans = λ a b c h k. L.same_trans _ _ _ h k;
    merge-Valid = merge-Valid;
    merge-Same = λ a b c d va vb vc vd h k. L.same_trans _ _ _ (view-merge a c va vc) (
        L.same_trans _ _ _
          (L.merge-Same _ _ _ _ (valid a va) (valid b vb) (valid c vc) (valid d vd) h k)
          (L.same_sym _ _ (view-merge b d vb vd)));
    merge_comm = λ a b va vb. L.same_trans _ _ _ (view-merge a b va vb) (
        L.same_trans _ _ _ (L.merge_comm _ _ (valid a va) (valid b vb))
          (L.same_sym _ _ (view-merge b a vb va)));
    merge_assoc = λ a b c va vb vc.
        let vab = valid (merge a b) (merge-Valid a b va vb) in
        let vbc = valid (merge b c) (merge-Valid b c vb vc) in
        let mab = L.merge-Valid _ _ (valid a va) (valid b vb) in
        let mbc = L.merge-Valid _ _ (valid b vb) (valid c vc) in
        L.same_trans _ _ _ (view-merge (merge a b) c (merge-Valid a b va vb) vc) (
          L.same_trans _ _ _
            (L.merge-Same _ _ _ _ vab mab (valid c vc) (valid c vc) (view-merge a b va vb)
              (L.same_refl _))
            (L.same_trans _ _ _ (L.merge_assoc _ _ _ (valid a va) (valid b vb) (valid c vc)) (
              L.same_sym _ _ (
                L.same_trans _ _ _ (view-merge a (merge b c) va (merge-Valid b c vb vc)) (
                  L.merge-Same _ _ _ _ (valid a va) (valid a va) vbc mbc (L.same_refl _)
                    (view-merge b c vb vc))))));
    merge_idem = λ a va. L.same_trans _ _ _ (view-merge a a va va) (L.merge_idem _ (valid a va));
  }

or_congr : (a b c d : Bool) → a ≡ b → c ≡ d → (a || c) ≡ (b || d)
or_congr a b c d h k = ground arith

or_comm : (a b : Bool) → (a || b) ≡ (b || a)
or_comm a b = ground arith

or_assoc : (a b c : Bool) → ((a || b) || c) ≡ (a || (b || c))
or_assoc a b c = ground arith

or_idem : (a : Bool) → (a || a) ≡ a
or_idem a = ground arith

-- Sets, by their membership, form a lattice under union.
unfoldable pub or_lattice {ℓ} : (A : Type ℓ) → Lattice (A → Bool)
unfolding or_congr or_comm or_assoc or_idem
or_lattice A = record {
  merge = λ f g a. f a || g a;
  Same = λ f g. (a : A) → f a ≡ g a;
  Valid = λ f. Unit;
  same_refl = λ f a. refl;
  same_sym = λ f g h a. sym (h a);
  same_trans = λ f g k p q a. p a ∙ q a;
  merge-Valid = λ f g _ _. tt;
  merge-Same = λ f g h k _ _ _ _ p q a. or_congr _ _ _ _ (p a) (q a);
  merge_comm = λ f g _ _ a. or_comm (f a) (g a);
  merge_assoc = λ f g h _ _ _ a. or_assoc (f a) (g a) (h a);
  merge_idem = λ f _ a. or_idem (f a);
}

-- A family of lattices, one at each key.
module _ {ℓ} {K : Type 0} {S : Type ℓ} (L : K → Lattice S) where
  abbrev pub pointwise : Lattice (K → S)
  pointwise = record {
    merge = λ f g k. (L k).merge (f k) (g k);
    Same = λ f g. (k : K) → (L k).Same (f k) (g k);
    Valid = λ f. (k : K) → (L k).Valid (f k);
    same_refl = λ f k. (L k).same_refl _;
    same_sym = λ f g h k. (L k).same_sym _ _ (h k);
    same_trans = λ f g h p q k. (L k).same_trans _ _ _ (p k) (q k);
    merge-Valid = λ f g vf vg k. (L k).merge-Valid _ _ (vf k) (vg k);
    merge-Same = λ f g h j vf vg vh vj p q k.
        (L k).merge-Same _ _ _ _ (vf k) (vg k) (vh k) (vj k) (p k) (q k);
    merge_comm = λ f g vf vg k. (L k).merge_comm _ _ (vf k) (vg k);
    merge_assoc = λ f g h vf vg vh k. (L k).merge_assoc _ _ _ (vf k) (vg k) (vh k);
    merge_idem = λ f vf k. (L k).merge_idem _ (vf k);
  }
