-- ===== src/Crdt/LwwReg/Writes.antt =====
-- Writes to a register, deltas, and a write after a merge.
use autonomous_rover_swarm_c.Common.{String, true, ◌≡◌, ◌<◌, ◌≤◌, ◌∙◌, ap₂, Option, some, arith}
use autonomous_rover_swarm_c.Common.Text.{str_ltb_irrefl}
use autonomous_rover_swarm_c.Crdt.Base.{Timestamp}
use autonomous_rover_swarm_c.Crdt.LwwReg.{LwwReg, later, set, merge, delta, apply_delta}
use autonomous_rover_swarm_c.Crdt.LwwReg.Merge.{content, pick, later_irrefl, content-merge}

module _ {ℓ} {V : Type ℓ} where
  -- The register's own writes are under its own name.
  abbrev pub IsOwn : LwwReg V → Type 0
  IsOwn r = r.delta_node_id ≡ r.node_id

  -- A write by the owner is taken exactly when its time is later than the stored one; a write that
  -- is not later is dropped, and the register stays as it was.
  pub set_iff_later :
      (v : Option V) (ts : Timestamp) (now : Timestamp) (r : LwwReg V)
      → IsOwn r
      → (r.timestamp < ts → content (set v (some ts) now r) ≡ (ts, r.node_id, v))
        × (ts ≤ r.timestamp → set v (some ts) now r ≡ r)
  unfolding set later
  set_iff_later v ts now r own = (λ h. ground arith, λ h. ground (arith, str_ltb_irrefl r.node_id))

  -- The delta of a register holds the register's last state.
  abbrev pub IsPending : LwwReg V → Type ℓ
  IsPending r =
      (r.delta_value ≡ r.value) × (r.delta_timestamp ≡ r.timestamp) × (r.delta_node_id ≡ r.node_id)

  -- To apply the delta of a register whose last write is pending has the effect of a merge on what
  -- a reader sees and on the stamp.
  pub apply_delta-eq-merge_content :
      (sender peer : LwwReg V)
      → IsPending sender
      → content (apply_delta (delta sender) peer) ≡ content (merge peer sender)
  unfolding apply_delta delta merge
  apply_delta-eq-merge_content sender peer h = ground arith

  set_later :
      (v : Option V) (ts now : Timestamp) (r : LwwReg V)
      → r.timestamp < ts
      → content (set v (some ts) now r) ≡ (ts, r.node_id, v)
  unfolding set later
  set_later v ts now r h = ground arith

  -- Of two registers with one stamp a merge keeps its own.
  merge_own :
      (a b : LwwReg V) (t : Timestamp) (n : String) (v w : Option V)
      → content a ≡ (t, n, v)
      → content b ≡ (t, n, w)
      → content (merge a b) ≡ (t, n, v)
  merge_own a b t n v w h k = content-merge a b ∙ ap₂ pick h k ∙ ground (arith, later_irrefl t n)

  write_as_peer :
      (a b : LwwReg V) (v : Option V) (ts now : Timestamp)
      → later b.timestamp b.node_id a.timestamp a.node_id ≡ true
      → b.timestamp < ts
      → content (set v (some ts) now (merge a b)) ≡ (ts, b.node_id, v)
  unfolding merge
  write_as_peer a b v ts now h lt = ground (arith, set_later v ts now (merge a b))

  -- After merging in a later write of a peer, a register writes under the peer's name: it and the
  -- peer can then write two values under one stamp, and the two replicas, having merged each
  -- other's state, keep different values under the same time and node.
  pub same_stamp_diverges :
      (a b : LwwReg V) (v w : Option V) (ts now : Timestamp)
      → later b.timestamp b.node_id a.timestamp a.node_id ≡ true
      → b.timestamp < ts
      → let a' = set v (some ts) now (merge a b) in
        let b' = set w (some ts) now b in
        (content (merge a' b') ≡ (ts, b.node_id, v)) × (content (merge b' a') ≡ (ts, b.node_id, w))
  same_stamp_diverges a b v w ts now h lt =
      let p = write_as_peer a b v ts now h lt in
      let q = set_later w ts now b lt in
      (merge_own _ _ ts b.node_id v w p q, merge_own _ _ ts b.node_id w v q p)
