-- ===== src/Crdt/LwwReg/Merge.antt =====
-- The merge of registers of crdt/lwwreg.py, on states in which a stamp determines what was written.
use autonomous_rover_swarm_c.Common.{
  ℕ, String, true, false, ◌≡◌, ◌⊎◌, inl, inr, refl, sym, ◌∙◌, Option, List, ◌∷◌, foldl, All, arith,
  if◌then◌else◌, ap, ap₂, subst, Bool-cases,
}
use autonomous_rover_swarm_c.Common.Text.{
  str_ltb_irrefl, str_ltb_trans, str_ltb_antisym, str_ltb_asym,
}
use autonomous_rover_swarm_c.Crdt.Base.{Timestamp}
use autonomous_rover_swarm_c.Crdt.Lattice.{Lattice, converges}
use autonomous_rover_swarm_c.Crdt.Lattice.Build.{product, through}
use autonomous_rover_swarm_c.Common.Dict.{Dict}
use autonomous_rover_swarm_c.Crdt.VectorClock
use autonomous_rover_swarm_c.Crdt.VectorClock.{count_of}
use autonomous_rover_swarm_c.Crdt.VectorClock.Merge.{counts_lattice}
use autonomous_rover_swarm_c.Crdt.LwwReg.{LwwReg, later, merge}
use mathlib.Core.List.{Memᴰ}

pub later_irrefl : (t : Timestamp) (n : String) → later t n t n ≡ false
unfolding later
later_irrefl t n = ground (arith, str_ltb_irrefl n)

pub later_asym : (t u : Timestamp) (m n : String) → later t m u n ≡ true → later u n t m ≡ false
unfolding later
later_asym t u m n h = ground (arith, str_ltb_asym n m)

pub later_trans :
    (t u v : Timestamp) (m n o : String)
    → later t m u n ≡ true
    → later u n v o ≡ true
    → later t m v o ≡ true
unfolding later
later_trans t u v m n o h k = ground (arith, str_ltb_trans o n m)

-- Two stamps of which neither is later are one.
pub later_total :
    (t u : Timestamp) (m n : String)
    → later t m u n ≡ false
    → later u n t m ≡ false
    → (t ≡ u) × (m ≡ n)
unfolding later
later_total t u m n h k = (ground arith, str_ltb_antisym m n (ground arith) (ground arith))

-- What a reader sees, and the stamp that decides.
abbrev pub Content {ℓ} : Type ℓ → Type ℓ
Content V = Timestamp × String × Option V

module _ {ℓ} {V : Type ℓ} where
  abbrev pub content : LwwReg V → Content V
  content r = (r.timestamp, r.node_id, r.value)

  abbrev pub pick : Content V → Content V → Content V
  pick (t, n, v) (t', n', v') = if later t' n' t n then (t', n', v') else (t, n, v)

  pub content-merge : (a b : LwwReg V) → content (merge a b) ≡ pick (content a) (content b)
  unfolding merge
  content-merge a b = ground arith

-- A history of writes: what the write with a given time and node has written.
module _ {ℓ} {V : Type ℓ} (written : Timestamp → String → Option V) where
  abbrev pub IsWritten : LwwReg V → Type ℓ
  IsWritten r = r.value ≡ written r.timestamp r.node_id

  abbrev Agrees : Content V → Type ℓ
  Agrees (t, n, v) = v ≡ written t n

  pick-Agrees : (a b : Content V) → Agrees a → Agrees b → Agrees (pick a b)
  pick-Agrees (t, n, v) (t', n', v') h k = ground arith

  pick_comm : (a b : Content V) → Agrees a → Agrees b → pick a b ≡ pick b a
  pick_comm (t, n, v) (t', n', v') h k = ground (arith, later_asym t t' n n', later_total t t' n n')

  pick_assoc :
      (a b c : Content V) → Agrees a → Agrees b → Agrees c → pick (pick a b) c ≡ pick a (pick b c)
  pick_assoc (t, n, v) (u, m, w) (s, o, x) h k l = ground (
    arith,
    later_trans s u t o m n,
    later_trans t u s n m o,
    later_asym u t m n,
    later_asym s u o m,
    later_asym s t o n,
    later_total t u n m,
    later_total u s m o,
    later_total t s n o,
  )

  pick_idem : (a : Content V) → pick a a ≡ a
  pick_idem (t, n, v) = ground (arith, later_irrefl t n)

  abbrev content_lattice : Lattice (Content V)
  content_lattice = record {
    merge = pick;
    Same = λ a b. a ≡ b;
    Valid = Agrees;
    same_refl = λ a. refl;
    same_sym = λ a b h. sym h;
    same_trans = λ a b c h k. h ∙ k;
    merge-Valid = pick-Agrees;
    merge-Same = λ a b c d _ _ _ _ h k. ap₂ pick h k;
    merge_comm = pick_comm;
    merge_assoc = pick_assoc;
    merge_idem = λ a _. pick_idem a;
  }

  clock-merge :
      (a b : LwwReg V) → VectorClock.merge a.vector_clock b.vector_clock ≡ (merge a b).vector_clock
  unfolding merge
  clock-merge a b = ground arith

  parts : LwwReg V → Content V × Dict String ℕ
  parts r = (content r, r.vector_clock.clocks)

  merge-IsWritten : (a b : LwwReg V) → IsWritten a → IsWritten b → IsWritten (merge a b)
  merge-IsWritten a b h k =
      subst Agrees (sym (content-merge a b)) (pick-Agrees (content a) (content b) h k)

  -- Registers whose stamps determine their values form a lattice.
  unfoldable pub register_lattice : Lattice (LwwReg V)
  unfolding parts counts_lattice VectorClock.merge pick-Agrees pick_comm pick_assoc pick_idem
      clock-merge merge-IsWritten
  register_lattice =
      through (product content_lattice counts_lattice) parts merge IsWritten (λ r h. (h, tt))
        (λ a b _ _.
          (content-merge a b, λ node. ap (λ c. count_of c.clocks node) (sym (clock-merge a b))))
        merge-IsWritten

  -- Two replicas of a register that have merged the same states, in whatever order and however
  -- often, hold the same value under the same stamp, if each stamp stands for one write.
  pub registers_converge :
      (s t : LwwReg V) (xs ys : List (LwwReg V))
      → IsWritten s
      → All IsWritten xs
      → IsWritten t
      → All IsWritten ys
      → ((r : LwwReg V) → Memᴰ r (s ∷ xs) → Memᴰ r (t ∷ ys))
      → ((r : LwwReg V) → Memᴰ r (t ∷ ys) → Memᴰ r (s ∷ xs))
      → content (foldl merge s xs) ≡ content (foldl merge t ys)
  unfolding register_lattice
  registers_converge s t xs ys hs hxs ht hys inc cni =
      (converges register_lattice s t xs ys hs hxs ht hys inc cni).0

module _ {ℓ} {V : Type ℓ} where
  -- A merged register is one of the two, and neither has a later stamp.
  pub merge-latest :
      (a b : LwwReg V)
      → ((content (merge a b) ≡ content a) ⊎ (content (merge a b) ≡ content b))
        × (later a.timestamp a.node_id (merge a b).timestamp (merge a b).node_id ≡ false)
        × (later b.timestamp b.node_id (merge a b).timestamp (merge a b).node_id ≡ false)
  unfolding merge
  merge-latest a b = elim (Bool-cases (later b.timestamp b.node_id a.timestamp a.node_id)) [
    | inl e ↦ (
      inr (ground arith),
      ground (arith, later_asym b.timestamp a.timestamp b.node_id a.node_id e),
      ground (arith, later_irrefl b.timestamp b.node_id),
    )
    | inr e ↦ (inl (ground arith), ground (arith, later_irrefl a.timestamp a.node_id), ground arith)
  ]
