-- ===== src/Crdt/Lattice.antt =====
-- What a replicated data type owes its replicas, whatever it stores: `merge` is commutative,
-- associative and idempotent up to what a reader can tell apart, on the states that arise.
pub mod Build
pub mod Optional
use autonomous_rover_swarm_c.Common.{List, [], ◌∷◌, foldl, All, refl, sym, subst}
use mathlib.Core.List.{Memᴰ}

pub record Lattice {ℓ} (S : Type ℓ) : Type (ℓ + 1) where
  pub merge : S → S → S
  -- no reader tells the two states apart
  pub Same : S → S → Type ℓ
  -- the states that replicas can be in
  pub Valid : S → Type ℓ
  pub same_refl : (a : S) → Same a a
  pub same_sym : (a b : S) → Same a b → Same b a
  pub same_trans : (a b c : S) → Same a b → Same b c → Same a c
  pub merge-Valid : (a b : S) → Valid a → Valid b → Valid (merge a b)
  pub merge-Same :
      (a b c d : S)
      → Valid a
      → Valid b
      → Valid c
      → Valid d
      → Same a b
      → Same c d
      → Same (merge a c) (merge b d)
  pub merge_comm : (a b : S) → Valid a → Valid b → Same (merge a b) (merge b a)
  pub merge_assoc :
      (a b c : S) → Valid a → Valid b → Valid c → Same (merge (merge a b) c) (merge a (merge b c))
  pub merge_idem : (a : S) → Valid a → Same (merge a a) a

module _ {ℓ} {S : Type ℓ} (L : Lattice S) where
  open L use {
    merge, Same, Valid, same_refl, same_sym, same_trans, merge-Valid, merge-Same, merge_comm,
    merge_assoc, merge_idem,
  }

  -- A replica that receives states and merges each into its own, in the order of arrival.
  abbrev pub merge_all : S → List S → S
  merge_all = foldl merge

  -- `b` has already seen `a`.
  abbrev Below : S → S → Type ℓ
  Below a b = Same (merge a b) b

  pub merge_all-Valid : (s : S) (xs : List S) → Valid s → All Valid xs → Valid (merge_all s xs)
  merge_all-Valid s [] v h = v
  merge_all-Valid s (x ∷ xs) v h = merge_all-Valid (merge s x) xs (merge-Valid s x v h.0) h.1

  -- a ≤ a ∨ b
  Below-left : (a b : S) → Valid a → Valid b → Below a (merge a b)
  Below-left a b va vb =
      same_trans _ (merge (merge a a) b) _ (same_sym _ _ (merge_assoc a a b va va vb))
        (merge-Same _ _ _ _ (merge-Valid a a va va) va vb vb (merge_idem a va) (same_refl b))

  Below-right : (a b : S) → Valid a → Valid b → Below b (merge a b)
  Below-right a b va vb =
      same_trans _ (merge b (merge b a)) _
        (merge-Same _ _ _ _ vb vb (merge-Valid a b va vb) (merge-Valid b a vb va) (same_refl b)
          (merge_comm a b va vb))
        (same_trans _ (merge b a) _ (Below-left b a vb va) (merge_comm b a vb va))

  Below-trans : (a b c : S) → Valid a → Valid b → Valid c → Below a b → Below b c → Below a c
  Below-trans a b c va vb vc h k =
      same_trans _ (merge a (merge b c)) _
        (merge-Same _ _ _ _ va va vc (merge-Valid b c vb vc) (same_refl a) (same_sym _ _ k))
        (same_trans _ (merge (merge a b) c) _ (same_sym _ _ (merge_assoc a b c va vb vc)) (
          same_trans _ (merge b c) _
            (merge-Same _ _ _ _ (merge-Valid a b va vb) vb vc vc h (same_refl c)) k))

  -- `merge` is the least upper bound.
  merge_least :
      (a b c : S) → Valid a → Valid b → Valid c → Below a c → Below b c → Below (merge a b) c
  merge_least a b c va vb vc h k =
      same_trans _ (merge a (merge b c)) _ (merge_assoc a b c va vb vc) (
        same_trans _ (merge a c) _
          (merge-Same _ _ _ _ va va (merge-Valid b c vb vc) vc (same_refl a) k) h)

  Below-antisym : (a b : S) → Valid a → Valid b → Below a b → Below b a → Same a b
  Below-antisym a b va vb h k =
      same_trans _ (merge b a) _ (same_sym _ _ k)
        (same_trans _ (merge a b) _ (merge_comm b a vb va) h)

  -- Everything that was merged in has been seen.
  merge_all_upper :
      (s : S) (xs : List S) {x : S}
      → Valid s
      → All Valid xs
      → Valid x
      → Memᴰ x (s ∷ xs)
      → Below x (merge_all s xs)
  merge_all_upper s [] vs vxs vx (Memᴰ.head e) = subst (λ y. Below y s) (sym e) (merge_idem s vs)
  merge_all_upper s [] vs vxs vx (Memᴰ.tail m) = elim m [ ]
  merge_all_upper s (y ∷ ys) vs vxs vx (Memᴰ.head e) =
      Below-trans _ (merge s y) _ vx (merge-Valid s y vs vxs.0)
        (merge_all-Valid (merge s y) ys (merge-Valid s y vs vxs.0) vxs.1)
        (subst (λ z. Below z (merge s y)) (sym e) (Below-left s y vs vxs.0))
        (merge_all_upper (merge s y) ys (merge-Valid s y vs vxs.0) vxs.1 (merge-Valid s y vs vxs.0)
          (Memᴰ.head refl))
  merge_all_upper s (y ∷ ys) vs vxs vx (Memᴰ.tail (Memᴰ.head e)) =
      Below-trans _ (merge s y) _ vx (merge-Valid s y vs vxs.0)
        (merge_all-Valid (merge s y) ys (merge-Valid s y vs vxs.0) vxs.1)
        (subst (λ z. Below z (merge s y)) (sym e) (Below-right s y vs vxs.0))
        (merge_all_upper (merge s y) ys (merge-Valid s y vs vxs.0) vxs.1 (merge-Valid s y vs vxs.0)
          (Memᴰ.head refl))
  merge_all_upper s (y ∷ ys) vs vxs vx (Memᴰ.tail (Memᴰ.tail m)) =
      merge_all_upper (merge s y) ys (merge-Valid s y vs vxs.0) vxs.1 vx (Memᴰ.tail m)

  -- Nothing else has been.
  merge_all_least :
      (s : S) (xs : List S) (u : S)
      → Valid s
      → All Valid xs
      → Valid u
      → Below s u
      → ((x : S) → Memᴰ x xs → Below x u)
      → Below (merge_all s xs) u
  merge_all_least s [] u vs vxs vu h hs = h
  merge_all_least s (y ∷ ys) u vs vxs vu h hs =
      merge_all_least (merge s y) ys u (merge-Valid s y vs vxs.0) vxs.1 vu
        (merge_least s y u vs vxs.0 vu h (hs y (Memᴰ.head refl))) (λ x m. hs x (Memᴰ.tail m))

  Valid-mem : (xs : List S) {x : S} → All Valid xs → Memᴰ x xs → Valid x
  Valid-mem [] h m = elim m [ ]
  Valid-mem (y ∷ ys) h (Memᴰ.head e) = subst Valid (sym e) h.0
  Valid-mem (y ∷ ys) h (Memᴰ.tail m) = Valid-mem ys h.1 m

  -- One replica has merged only states that the other has merged too: it is below the other.
  merge_all-Below :
      (s t : S) (xs ys : List S)
      → Valid s
      → All Valid xs
      → Valid t
      → All Valid ys
      → ((x : S) → Memᴰ x (s ∷ xs) → Memᴰ x (t ∷ ys))
      → Below (merge_all s xs) (merge_all t ys)
  merge_all-Below s t xs ys vs vxs vt vys inc =
      merge_all_least s xs (merge_all t ys) vs vxs (merge_all-Valid t ys vt vys)
        (merge_all_upper t ys vt vys vs (inc s (Memᴰ.head refl)))
        (λ x m. merge_all_upper t ys vt vys (Valid-mem xs vxs m) (inc x (Memᴰ.tail m)))

  -- Strong eventual consistency: two replicas that have merged the same set of states, each in its
  -- own order and each state as often as it arrived, cannot be told apart.
  pub converges :
      (s t : S) (xs ys : List S)
      → Valid s
      → All Valid xs
      → Valid t
      → All Valid ys
      → ((x : S) → Memᴰ x (s ∷ xs) → Memᴰ x (t ∷ ys))
      → ((x : S) → Memᴰ x (t ∷ ys) → Memᴰ x (s ∷ xs))
      → Same (merge_all s xs) (merge_all t ys)
  converges s t xs ys vs vxs vt vys inc cni =
      Below-antisym _ _ (merge_all-Valid s xs vs vxs) (merge_all-Valid t ys vt vys)
        (merge_all-Below s t xs ys vs vxs vt vys inc) (merge_all-Below t s ys xs vt vys vs vxs cni)
