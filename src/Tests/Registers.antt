-- ===== src/Tests/Registers.antt =====
-- Registers and maps of the rovers "alpha" and "beta"; a value is a number.
use autonomous_rover_swarm_c.Tests.{swap}
use autonomous_rover_swarm_c.Common.{
  true, ℕ, ◌≡◌, refl, false, foldl, [], ◌∷◌, some, none, Option, String, string_eq, arith,
  if◌then◌else◌, ◌==◌,
}
use autonomous_rover_swarm_c.Common.Text.{str_ltb}
use autonomous_rover_swarm_c.Common.Dict
use autonomous_rover_swarm_c.Common.Dict.{lookup}
use autonomous_rover_swarm_c.Common.Sets.{member}
use autonomous_rover_swarm_c.Crdt.Base.{Timestamp}
use autonomous_rover_swarm_c.Common.Sets
use autonomous_rover_swarm_c.Common.Errors.{err, key_error}
use autonomous_rover_swarm_c.Crdt.VectorClock
use autonomous_rover_swarm_c.Crdt.VectorClock.{VectorClock, happens_before}
use autonomous_rover_swarm_c.Crdt.MvReg.{MvReg, prune_ancestors}
use autonomous_rover_swarm_c.Crdt.MvReg.Prune.{prune_raises}
use autonomous_rover_swarm_c.Crdt.LwwReg
use autonomous_rover_swarm_c.Crdt.LwwReg.{LwwReg, later}
use autonomous_rover_swarm_c.Crdt.LwwReg.Merge.{content, IsWritten, registers_converge}
use autonomous_rover_swarm_c.Crdt.LwwReg.Writes.{same_stamp_diverges}
use autonomous_rover_swarm_c.Crdt.LwwMap
use autonomous_rover_swarm_c.Crdt.LwwMap.{LwwMap}
use autonomous_rover_swarm_c.Crdt.LwwMap.Merge.{IsHistory, maps_converge}
use autonomous_rover_swarm_c.Crdt.LwwMap.Keys.{deltas_swap}

-- The register of a node that wrote `v` at the time `t`.
abbrev register : String → Timestamp → ℕ → LwwReg ℕ
register node t v = record {
  value = some v;
  timestamp = t;
  node_id = node;
  vector_clock = VectorClock.fresh node;
  delta_value = some v;
  delta_timestamp = t;
  delta_node_id = node;
}

abbrev first : LwwReg ℕ
first = register "alpha" 5 10

abbrev second : LwwReg ℕ
second = register "beta" 5 20

-- What was written at the time 5.
abbrev history : Timestamp → String → Option ℕ
history t node = if node == "alpha" then some 10 else some 20

registers_converge_example :
    content (foldl LwwReg.merge first (second ∷ []))
    ≡ content (foldl LwwReg.merge second (first ∷ []))
registers_converge_example =
    registers_converge history first second (second ∷ []) (first ∷ []) refl (refl, tt) refl
      (refl, tt) (λ r m. swap m) (λ r m. swap m)

same_stamp_diverges_example :
    let a' = LwwReg.set (some 1) (some 8) 9 (LwwReg.merge first second) in
    let b' = LwwReg.set (some 2) (some 8) 9 second in
    (content (LwwReg.merge a' b') ≡ (8, "beta", some 1))
    × (content (LwwReg.merge b' a') ≡ (8, "beta", some 2))
same_stamp_diverges_example =
    same_stamp_diverges first second (some 1) (some 2) 8 9 (unfold later str_ltb in refl)
      (omega arith)

abbrev mode : String
mode = "mode"

abbrev one_key : String → LwwReg ℕ → LwwMap ℕ
one_key node r = record {
  node_id = node;
  vector_clock = VectorClock.fresh node;
  registers = ("mode", r) ∷ [];
  delta_keys = "mode" ∷ [];
}

abbrev here : LwwMap ℕ
here = one_key "alpha" first

abbrev there : LwwMap ℕ
there = one_key "beta" second

one_key-IsHistory :
    (node : String) (r : LwwReg ℕ)
    → IsWritten history r
    → IsHistory (λ key. history) (one_key node r)
unfolding lookup
one_key-IsHistory node r h key = ground arith

maps_converge_example :
    LwwMap.get "mode" none (foldl LwwMap.merge here (there ∷ []))
    ≡ LwwMap.get "mode" none (foldl LwwMap.merge there (here ∷ []))
maps_converge_example =
    maps_converge (λ key. history) here there (there ∷ []) (here ∷ [])
      (one_key-IsHistory "alpha" first refl) (one_key-IsHistory "beta" second refl, tt)
      (one_key-IsHistory "beta" second refl) (one_key-IsHistory "alpha" first refl, tt)
      (λ m p. swap p) (λ m p. swap p) "mode" none

mode_register : (node : String) (r : LwwReg ℕ) → lookup "mode" (one_key node r).registers ≡ some r
unfolding lookup
mode_register node r = refl

deltas_swap_example :
    (LwwMap.get "mode" none (LwwMap.apply_delta (LwwMap.delta there) (λ i. 9) here) ≡ some 20)
    × (LwwMap.get "mode" none (LwwMap.apply_delta (LwwMap.delta here) (λ i. 9) there) ≡ some 10)
deltas_swap_example =
    deltas_swap "mode" none here there first second (λ i. 9) (λ i. 9) refl refl
      (mode_register "alpha" first) (mode_register "beta" second) (omega arith) (omega arith)

-- "beta" wrote 2, then "alpha" saw that and wrote 1, and "gamma" wrote 3 beside them.
abbrev first_clock : VectorClock
first_clock = record { node_id = "alpha"; clocks = ("beta", 1) ∷ ("alpha", 1) ∷ [] }

abbrev second_clock : VectorClock
second_clock = record { node_id = "beta"; clocks = ("beta", 1) ∷ [] }

abbrev third_clock : VectorClock
third_clock = record { node_id = "gamma"; clocks = ("gamma", 1) ∷ [] }

abbrev writes : MvReg ℕ
writes = record {
  node_id = "alpha";
  vector_clock = first_clock;
  entries =
      ("alpha:1", (1, first_clock))
      ∷ ("beta:1", (2, second_clock))
      ∷ ("gamma:1", (3, third_clock))
      ∷ [];
}

orders :
    (happens_before second_clock first_clock ≡ true)
    × (happens_before first_clock second_clock ≡ false)
    × (happens_before first_clock third_clock ≡ false)
unfolding happens_before VectorClock.get lookup Sets.union Dict.keys member Sets.add
orders = (refl, refl, refl)

prune_raises_example : prune_ancestors writes ≡ err key_error
prune_raises_example =
    prune_raises "alpha:1" "beta:1" "gamma:1" 1 2 3 first_clock second_clock third_clock writes refl
      (ground (arith, string_eq.beq_iff "alpha:1" "beta:1"))
      (ground (arith, string_eq.beq_iff "alpha:1" "gamma:1"))
      (ground (arith, string_eq.beq_iff "beta:1" "gamma:1")) orders.0 orders.1 orders.2
