-- ===== src/Crdt/MvReg/Prune.antt =====
-- What `_prune_ancestors` does to a register.
use autonomous_rover_swarm_c.Common.{
  String, string_eq, true, false, ◌≡◌, ◌≢◌, refl, none, List, [], ◌∷◌, arith, Bool-cases, inl, inr,
  beq_refl, beq_ne, subst, sym,
}
use autonomous_rover_swarm_c.Common.Errors.{ok, err, key_error}
use autonomous_rover_swarm_c.Common.Dict
use autonomous_rover_swarm_c.Common.Dict.{Dict, lookup, keys, lookup-remove}
use autonomous_rover_swarm_c.Crdt.VectorClock.{VectorClock, happens_before}
use autonomous_rover_swarm_c.Crdt.MvReg.{MvReg, prune_from, prune_each, prune_ancestors}

module _ {ℓ} {V : Type ℓ} where
  -- A tag that is gone raises as soon as it is compared.
  prune_gone :
      (t : String) (t' : String) (ts : List String) (d : Dict String (V × VectorClock))
      → lookup t d ≡ none
      → prune_from t (t' ∷ ts) d ≡ err key_error
  unfolding prune_from
  prune_gone t t' ts d h = ground arith

  module _ (t1 t2 t3 : String) (e1 e2 e3 : V × VectorClock) where
    three : Dict String (V × VectorClock)
    three = (t1, e1) ∷ (t2, e2) ∷ (t3, e3) ∷ []

    -- The first tag drops the second.
    first_round :
        t1 ≢ t2
        → t1 ≢ t3
        → t2 ≢ t3
        → happens_before e2.1 e1.1 ≡ true
        → happens_before e1.1 e2.1 ≡ false
        → happens_before e1.1 e3.1 ≡ false
        → (d : Dict String (V × VectorClock)) × (prune_from t1 (t2 ∷ t3 ∷ []) three ≡ ok d)
          × (lookup t2 d ≡ none)
    unfolding three prune_from lookup Dict.remove
    first_round n12 n13 n23 h21 h12 h13 = elim (Bool-cases (happens_before e3.1 e1.1)) [
      | inl third ↦ (
        (t1, e1) ∷ [],
        ground (
          arith,
          beq_refl t1,
          beq_refl t2,
          beq_refl t3,
          beq_ne t1 t2 n12,
          beq_ne t1 t3 n13,
          beq_ne t2 t3 n23,
          string_eq.beq_iff t1 t2,
          string_eq.beq_iff t2 t1,
          string_eq.beq_iff t3 t2,
          string_eq.beq_iff t3 t1,
          string_eq.beq_iff t1 t3,
        ),
        ground (arith, beq_ne t1 t2 n12),
      )
      | inr other ↦ (
        (t1, e1) ∷ (t3, e3) ∷ [],
        ground (
          arith,
          beq_refl t1,
          beq_refl t2,
          beq_refl t3,
          beq_ne t1 t2 n12,
          beq_ne t1 t3 n13,
          beq_ne t2 t3 n23,
          string_eq.beq_iff t1 t2,
          string_eq.beq_iff t2 t1,
          string_eq.beq_iff t3 t2,
          string_eq.beq_iff t3 t1,
          string_eq.beq_iff t1 t3,
        ),
        ground (arith, beq_ne t1 t2 n12, string_eq.beq_iff t3 t2),
      )
    ]

    three_raises :
        t1 ≢ t2
        → t1 ≢ t3
        → t2 ≢ t3
        → happens_before e2.1 e1.1 ≡ true
        → happens_before e1.1 e2.1 ≡ false
        → happens_before e1.1 e3.1 ≡ false
        → prune_each (t1 ∷ t2 ∷ t3 ∷ []) three ≡ err key_error
    unfolding prune_each
    three_raises n12 n13 n23 h21 h12 h13 =
        let (d, pruned, gone) = first_round n12 n13 n23 h21 h12 h13 in
        rw pruned (rw (prune_gone t2 t3 [] d gone) refl)

  prune_of :
      (r : MvReg V)
      → prune_each (keys r.entries) r.entries ≡ err key_error
      → prune_ancestors r ≡ err key_error
  unfolding prune_ancestors
  prune_of r h = rw h refl

  -- With three writes of which the second is an ancestor of the first, and the first of neither
  -- other, a prune drops the second and then looks it up again: it raises a key error.
  pub prune_raises :
      (t1 t2 t3 : String) (v1 v2 v3 : V) (c1 c2 c3 : VectorClock) (r : MvReg V)
      → r.entries ≡ (t1, (v1, c1)) ∷ (t2, (v2, c2)) ∷ (t3, (v3, c3)) ∷ []
      → t1 ≢ t2
      → t1 ≢ t3
      → t2 ≢ t3
      → happens_before c2 c1 ≡ true
      → happens_before c1 c2 ≡ false
      → happens_before c1 c3 ≡ false
      → prune_ancestors r ≡ err key_error
  prune_raises t1 t2 t3 v1 v2 v3 c1 c2 c3 r shape n12 n13 n23 h21 h12 h13 =
      let raises = three_raises t1 t2 t3 (v1, c1) (v2, c2) (v3, c3) n12 n13 n23 h21 h12 h13 in
      prune_of r (
        subst (λ d. prune_each (keys d) d ≡ err key_error) (sym shape)
          (unfold keys three in raises))
