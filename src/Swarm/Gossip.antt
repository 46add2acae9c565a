-- ===== src/Swarm/Gossip.antt =====
-- swarm/gossip.py: a buffer of messages, each sent on to a few peers. A message is a dictionary with
-- the keys "id", "origin" and "ttl", each of which may be missing, and a body of type `P`.
pub mod Spread
pub mod Once
use Prim.Native.String.{◌++◌ as append}
use autonomous_rover_swarm_c.Common.{
  ℕ, suc, ◌-◌, String, string_eq, Bool, true, false, not, ◌&&◌, Option, none, some, or_else, List,
  [], ◌∷◌, ◌++◌, ltb, length, if◌then◌else◌, ◌==◌, take, drop,
}
use autonomous_rover_swarm_c.Common.Int.{ℤ, pos, pred, is_positive, is_natural}
use autonomous_rover_swarm_c.Common.Sets.{add, member, nonempty}

pub record Message {ℓ} (P : Type ℓ) : Type ℓ where
  pub id : Option String
  pub origin : Option String
  pub ttl : Option ℤ
  pub body : P

-- `GossipProtocol`; the callbacks are what a send is output to.
pub record Gossip {ℓ} (P : Type ℓ) : Type ℓ where
  pub node_id : String
  pub fanout : ℕ
  pub peers : List String
  pub message_buffer : List (Message P)
  pub seen_messages : List String
  pub running : Bool

-- `[p for p in peers if p != self._node_id]`
unfoldable pub others : String → List String → List String
others node_id [] = []
others node_id (p ∷ ps) = let rest = others node_id ps in if p == node_id then rest else p ∷ rest

-- `set(list(seen)[-5000:])`; Python lists a set in an order of its own, which `listed` gives.
unfoldable pub prune : (List String → List String) → List String → List String
prune listed seen =
    if ltb 10000 (length seen) then drop (length seen - 5000) (listed seen) else seen

module _ {ℓ} {P : Type ℓ} where
  unfoldable pub new : String → ℕ → Gossip P
  new node_id fanout = record {
    node_id = node_id;
    fanout = fanout;
    peers = [];
    message_buffer = [];
    seen_messages = [];
    running = false;
  }

  -- `GOSSIP_MAX_PEERS` is 20.
  unfoldable pub update_peers : List String → Gossip P → Gossip P
  unfolding others
  update_peers peers s = record s { peers = take 20 (others s.node_id peers) }

  -- `now` is the text of `time.time()`.
  unfoldable pub gossip : (List String → List String) → String → Message P → Gossip P → Gossip P
  unfolding prune
  gossip listed now message s =
      let msg_id = or_else message.id (append s.node_id (append ":" now)) in
      let marked : Message P = record message {
        id = some msg_id;
        origin = some s.node_id;
        ttl = some (or_else message.ttl (pos 3));
      } in
      if not (member msg_id s.seen_messages)
      then record s {
        message_buffer = s.message_buffer ++ (marked ∷ []);
        seen_messages = prune listed (add msg_id s.seen_messages);
      }
      else s

  -- `msg["ttl"] = msg.get("ttl", 3) - 1`, in the message that all targets share
  abbrev pub aged : Message P → Message P
  aged m = record m { ttl = some (pred (or_else m.ttl (pos 3))) }

  -- The inner loop: the messages after it, and what was sent to one target.
  unfoldable pub send_batch :
      String → List (Message P) → List (Message P) × List (String × Message P)
  send_batch target [] = ([], [])
  send_batch target (m ∷ ms) =
      let (rest, sent) = send_batch target ms in
      (
        aged m ∷ rest,
        if is_natural (pred (or_else m.ttl (pos 3))) then (target, aged m) ∷ sent else sent,
      )

  -- The outer loop over the targets.
  unfoldable pub send_all : List String → List (Message P) → List (String × Message P)
  unfolding send_batch
  send_all [] batch = []
  send_all (target ∷ targets) batch =
      let (batch', sent) = send_batch target batch in sent ++ send_all targets batch'

  -- One round of `disseminate`: `targets` is what `random.sample` chose among the peers.
  unfoldable pub disseminate : List String → Gossip P → Gossip P × List (String × Message P)
  unfolding send_all
  disseminate targets s =
      if ltb 0 (length s.message_buffer) && ltb 0 (length s.peers)
      then (
        record s { running = true; message_buffer = drop 50 s.message_buffer },
        send_all targets (take 50 s.message_buffer),
      )
      else (record s { running = true }, [])

  -- `message.get("ttl", 0) > 0`, and then `message["ttl"] -= 1`
  unfoldable pub buffered : Message P → List (Message P)
  buffered m =
      let ttl = or_else m.ttl (pos 0) in
      if is_positive ttl then record m { ttl = some (pred ttl) } ∷ [] else []

  unfoldable pub receive : Message P → Gossip P → Gossip P
  unfolding buffered
  receive message s =
      let msg_id = or_else message.id "" in
      if not (msg_id == "") && not (member msg_id s.seen_messages)
      then record s {
        seen_messages = add msg_id s.seen_messages;
        message_buffer = s.message_buffer ++ buffered message;
      }
      else s

  unfoldable pub stop : Gossip P → Gossip P
  stop s = record s { running = false }

  -- `stats`: peers, buffer size, seen messages
  unfoldable pub stats : Gossip P → ℕ × ℕ × ℕ
  stats s = (length s.peers, length s.message_buffer, length s.seen_messages)
