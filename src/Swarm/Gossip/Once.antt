-- ===== src/Swarm/Gossip/Once.antt =====
-- swarm/gossip.py: how often a message is taken, whatever the node does in between.
use Prim.Native.String.{◌++◌ as append}
use autonomous_rover_swarm_c.Common.{
  ◌+◌, ◌≤◌, String, string_eq, true, false, not, ◌&&◌, ◌≡◌, refl, or_else, List, [], ◌∷◌, length,
  arith, beq_refl, Bool-cases, inl, inr, ◌==◌,
}
use autonomous_rover_swarm_c.Common.Sets.{add, member, member-add, length-add}
use autonomous_rover_swarm_c.Swarm.Gossip.{
  Gossip, Message, prune, update_peers, gossip, disseminate, receive, stop,
}

-- What a node is asked to do.
pub data Event {ℓ} (P : Type ℓ) : Type ℓ where
  meets : (peers : List String) → Event P
  gossips : (now : String) → Message P → Event P
  sends : (targets : List String) → Event P
  receives : Message P → Event P
  stops : Event P

prune_few :
    (listed : List String → List String) (seen : List String)
    → length seen ≤ 10000
    → prune listed seen ≡ seen
unfolding prune
prune_few listed seen h = ground arith

-- An id that is added is not pruned while there are few.
prune-add :
    (listed : List String → List String) (id : String) (seen : List String)
    → length seen + 1 ≤ 10000
    → (length (prune listed (add id seen)) ≤ length seen + 1)
      × ((k : String) → member k seen ≡ true → member k (prune listed (add id seen)) ≡ true)
prune-add listed id seen few =
    let unpruned = prune_few listed (add id seen) (ground (arith, length-add id seen)) in
    rw unpruned
      (ground (arith, length-add id seen), λ k known. ground (arith, known, member-add id k seen))

module _ {ℓ} {P : Type ℓ} (listed : List String → List String) where
  unfoldable pub step : Event P → Gossip P → Gossip P
  step (meets peers) s = update_peers peers s
  step (gossips now m) s = gossip listed now m s
  step (sends targets) s = (disseminate targets s).0
  step (receives m) s = receive m s
  step stops s = stop s

  unfoldable pub run : List (Event P) → Gossip P → Gossip P
  unfolding step
  run [] s = s
  run (e ∷ es) s = run es (step e s)

  -- A step learns at most one id, and forgets none while at most ten thousand are known.
  abbrev Keeps : Gossip P → Gossip P → Type 0
  Keeps s s' =
      (length s'.seen_messages ≤ length s.seen_messages + 1)
      × ((id : String) → member id s.seen_messages ≡ true → member id s'.seen_messages ≡ true)

  gossip-Keeps :
      (now : String) (m : Message P) (s : Gossip P)
      → length s.seen_messages + 1 ≤ 10000
      → Keeps s (gossip listed now m s)
  unfolding gossip
  gossip-Keeps now m s few =
      let id = or_else m.id (append s.node_id (append ":" now)) in
      elim (Bool-cases (member id s.seen_messages)) [
        | inl known ↦ rw known (omega arith, λ k h. h)
        | inr fresh ↦ rw fresh (prune-add listed id s.seen_messages few)
      ]

  receive-Keeps : (m : Message P) (s : Gossip P) → Keeps s (receive m s)
  unfolding receive
  receive-Keeps m s = (
    ground (arith, length-add (or_else m.id "") s.seen_messages),
    λ id known. ground (arith, known, member-add (or_else m.id "") id s.seen_messages),
  )

  step-Keeps :
      (e : Event P) (s : Gossip P) → length s.seen_messages + 1 ≤ 10000 → Keeps s (step e s)
  unfolding step update_peers disseminate stop
  step-Keeps (meets peers) s few = (omega arith, λ id known. known)
  step-Keeps (gossips now m) s few = gossip-Keeps now m s few
  step-Keeps (sends targets) s few = (ground arith, λ id known. ground (arith, known))
  step-Keeps (receives m) s few = receive-Keeps m s
  step-Keeps stops s few = (omega arith, λ id known. known)

  run-keeps :
      (es : List (Event P)) (s : Gossip P) (id : String)
      → length s.seen_messages + length es ≤ 10000
      → member id s.seen_messages ≡ true
      → member id (run es s).seen_messages ≡ true
  unfolding run
  run-keeps [] s id few known = known
  run-keeps (e ∷ es) s id few known =
      let kept = step-Keeps e s (omega arith) in
      run-keeps es (step e s) id (omega (arith, kept.0)) (kept.1 id known)

  -- After a message has been received, its id is known, unless it is empty.
  receive-knows :
      (m : Message P) (s : Gossip P)
      → (or_else m.id "" == "") ≡ false
      → member (or_else m.id "") (receive m s).seen_messages ≡ true
  unfolding receive
  receive-knows m s named = ground (
    arith,
    named,
    member-add (or_else m.id "") (or_else m.id "") s.seen_messages,
    beq_refl (or_else m.id ""),
  )

  receive-known :
      (m : Message P) (s : Gossip P)
      → not (or_else m.id "" == "") && not (member (or_else m.id "") s.seen_messages) ≡ false
      → receive m s ≡ s
  unfolding receive
  receive-known m s h = rw h refl

  -- A message is taken once: whatever the node is asked to do after it has received one, another with
  -- the same id changes nothing, as long as the ids that it knew at first and the steps in between
  -- are fewer than ten thousand, so that none is pruned.
  pub receive_once :
      (m m' : Message P) (es : List (Event P)) (s : Gossip P)
      → m'.id ≡ m.id
      → length s.seen_messages + 1 + length es ≤ 10000
      → receive m' (run es (receive m s)) ≡ run es (receive m s)
  receive_once m m' es s same few = elim (Bool-cases (or_else m.id "" == "")) [
    | inl nameless ↦ receive-known m' (run es (receive m s)) (rw same (rw nameless refl))
    | inr named ↦
        let grown = (receive-Keeps m s).0 in
        let known =
          run-keeps es (receive m s) (or_else m.id "") (omega arith) (receive-knows m s named) in
        receive-known m' (run es (receive m s)) (rw same (rw named (rw known refl)))
  ]
