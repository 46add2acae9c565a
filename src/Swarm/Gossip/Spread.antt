-- ===== src/Swarm/Gossip/Spread.antt =====
-- How far a message of swarm/gossip.py spreads in one round.
use autonomous_rover_swarm_c.Common.{
  ℕ, zero, suc, ◌-◌, ◌≤◌, String, string_eq, false, ◌≡◌, refl, Option, none, some, or_else, List,
  [], ◌∷◌, ◌++◌, length, arith, take, ltb, if◌then◌else◌,
}
use autonomous_rover_swarm_c.Common.Int.{ℤ, pos, negsuc, pred, is_natural}
use autonomous_rover_swarm_c.Common.Sets.{member}
use autonomous_rover_swarm_c.Swarm.Gossip.{
  Gossip, Message, others, update_peers, send_batch, send_all, aged,
}

-- The sends that are left to a message.
abbrev pub sends_left : Option ℤ → ℕ
sends_left none = 3
sends_left (some (pos n)) = n
sends_left (some (negsuc n)) = 0

sends_left-pred : (o : Option ℤ) → sends_left (some (pred (or_else o (pos 3)))) ≡ sends_left o - 1
sends_left-pred none = omega arith
sends_left-pred (some (pos zero)) = omega arith
sends_left-pred (some (pos (suc n))) = omega arith
sends_left-pred (some (negsuc n)) = omega arith

others_self : (node : String) (ps : List String) → member node (others node ps) ≡ false
unfolding others member
others_self node [] = refl
others_self node (p ∷ ps) =
    ground (arith, others_self node ps, string_eq.beq_iff p node, string_eq.beq_iff node p)

member-take :
    (n : ℕ) (x : String) (xs : List String) → member x xs ≡ false → member x (take n xs) ≡ false
unfolding member
member-take zero x xs h = refl
member-take (suc n) x [] h = refl
member-take (suc n) x (y ∷ ys) h = ground (arith, member-take n x ys)

length-take : (n : ℕ) (xs : List String) → length (take n xs) ≤ n
length-take zero xs = omega arith
length-take (suc n) [] = omega arith
length-take (suc n) (x ∷ xs) = omega (arith, length-take n xs)

module _ {ℓ} {P : Type ℓ} where
  -- The messages of a batch whose ttl is greater than i, each with what is left of it after the i-th
  -- target (from 0) has taken one off.
  abbrev pub due : ℕ → List (Message P) → List (Message P)
  due i [] = []
  due i (m ∷ ms) =
      if ltb i (sends_left m.ttl)
      then record m { ttl = some (pos (sends_left m.ttl - i - 1)) } ∷ due i ms
      else due i ms

  abbrev pub addressed : String → List (Message P) → List (String × Message P)
  addressed t [] = []
  addressed t (m ∷ ms) = (t, m) ∷ addressed t ms

  -- What the targets get, from the i-th on.
  abbrev pub due_from : ℕ → List String → List (Message P) → List (String × Message P)
  due_from i [] batch = []
  due_from i (t ∷ ts) batch = addressed t (due i batch) ++ due_from (suc i) ts batch

  abbrev aged_all : List (Message P) → List (Message P)
  aged_all [] = []
  aged_all (m ∷ ms) = aged m ∷ aged_all ms

  due-aged : (i : ℕ) (ms : List (Message P)) → due i (aged_all ms) ≡ due (suc i) ms
  due-aged i [] = refl
  due-aged i (m ∷ ms) = ground (arith, sends_left-pred m.ttl, due-aged i ms)

  due_from-aged :
      (i : ℕ) (ts : List String) (ms : List (Message P))
      → due_from i ts (aged_all ms) ≡ due_from (suc i) ts ms
  due_from-aged i [] ms = refl
  due_from-aged i (t ∷ ts) ms = rw (due-aged i ms) (rw (due_from-aged (suc i) ts ms) refl)

  -- The first message is sent to the first target exactly if it is due.
  due-first :
      (o : Option ℤ) (t : String) (m : Message P) (sent : List (String × Message P))
      → (if is_natural (pred (or_else o (pos 3)))
          then (t, record m { ttl = some (pred (or_else o (pos 3))) }) ∷ sent
          else sent)
        ≡ (if ltb 0 (sends_left o)
            then (t, record m { ttl = some (pos (sends_left o - 0 - 1)) }) ∷ sent
            else sent)
  due-first none t m sent = ground arith
  due-first (some (pos zero)) t m sent = ground arith
  due-first (some (pos (suc n))) t m sent = ground arith
  due-first (some (negsuc n)) t m sent = ground arith

  send_batch-due :
      (t : String) (ms : List (Message P))
      → ((send_batch t ms).0 ≡ aged_all ms) × ((send_batch t ms).1 ≡ addressed t (due 0 ms))
  unfolding send_batch
  send_batch-due t [] = (refl, refl)
  send_batch-due t (m ∷ ms) =
      let (older, sent) = send_batch-due t ms in
      (rw older refl, ground (arith, sent, due-first m.ttl t m (addressed t (due 0 ms))))

  -- In one round the i-th target (from 0) is sent, in the order of the batch, exactly those messages
  -- whose ttl, 3 where there is none, is greater than i, and each with its ttl less i + 1: every
  -- target takes one off the ttl that they share.
  pub sends-ttl :
      (targets : List String) (batch : List (Message P))
      → send_all targets batch ≡ due_from 0 targets batch
  unfolding send_all
  sends-ttl [] batch = refl
  sends-ttl (t ∷ ts) batch =
      let (older, sent) = send_batch-due t batch in
      rw older (rw sent (rw (sends-ttl ts (aged_all batch)) (rw (due_from-aged 0 ts batch) refl)))

  -- A node has at most twenty peers, and is not its own peer.
  pub update_peers_lem :
      (peers : List String) (s : Gossip P)
      → (length (update_peers peers s).peers ≤ 20)
        × (member s.node_id (update_peers peers s).peers ≡ false)
  unfolding update_peers
  update_peers_lem peers s = (
    length-take 20 (others s.node_id peers),
    member-take 20 s.node_id (others s.node_id peers) (others_self s.node_id peers),
  )
