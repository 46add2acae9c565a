-- ===== src/Communication/ConnectionManager.antt =====
-- communication/connection_manager.py: the peers of a node. `F` is the floats, `now` what
-- `time.time()` returns in a call. A callback is what a call outputs: the ids that the connect or
-- the disconnect callbacks are called with.
use autonomous_rover_swarm_c.Common.{
  ℕ, String, string_eq, Bool, true, false, not, ◌&&◌, Option, none, some, is_some, List, [], ◌∷◌,
  leb, length, if◌then◌else◌, ◌==◌,
}
use autonomous_rover_swarm_c.Common.Floats.{Floats}
use autonomous_rover_swarm_c.Common.Dict
use autonomous_rover_swarm_c.Common.Dict.{Dict, lookup, insert, values}

pub record PeerConnection {ℓ} (F : Type ℓ) : Type ℓ where
  pub node_id : String
  pub address : String
  pub connected_at : F
  pub last_heartbeat : F
  pub latency_ms : F
  pub protocol : String
  pub is_active : Bool

pub record ConnectionManager {ℓ} (F : Type ℓ) : Type ℓ where
  pub node_id : String
  pub peers : Dict String (PeerConnection F)
  pub running : Bool

module _ {ℓ} {F : Type ℓ} where
  unfoldable pub new : String → ConnectionManager F
  new node_id = record { node_id = node_id; peers = []; running = false }

  unfoldable pub get_peer : String → ConnectionManager F → Option (PeerConnection F)
  get_peer node_id s = lookup node_id s.peers

  unfoldable pub all_peers : ConnectionManager F → List (PeerConnection F)
  all_peers s = values s.peers

  -- The new state, and the disconnect callbacks.
  unfoldable pub remove_peer : String → ConnectionManager F → ConnectionManager F × List String
  remove_peer node_id s = (
    record s { peers = Dict.remove node_id s.peers },
    if is_some (lookup node_id s.peers) then node_id ∷ [] else [],
  )

  unfoldable pub stop : ConnectionManager F → ConnectionManager F
  stop s = record s { running = false; peers = [] }

module _ {ℓ} {F : Type ℓ} (fl : Floats F) where
  open fl use {of_nat, sub, lt}

  -- `min(keys, key=connected_at)`: the first of the earliest. `best` is the earliest so far.
  unfoldable pub oldest_from : String × F → Dict String (PeerConnection F) → String
  oldest_from best [] = best.0
  oldest_from best ((k, p) ∷ d) =
      let earlier = oldest_from (k, p.connected_at) d in
      let same = oldest_from best d in if lt p.connected_at best.1 then earlier else same

  -- `MAX_PEERS` is 100: a full table drops its oldest peer, even for a peer that it has.
  unfoldable pub make_room : Dict String (PeerConnection F) → Dict String (PeerConnection F)
  unfolding oldest_from
  make_room [] = []
  make_room ((k, p) ∷ d) =
      if leb 100 (length ((k, p) ∷ d))
      then Dict.remove (oldest_from (k, p.connected_at) d) ((k, p) ∷ d)
      else (k, p) ∷ d

  -- `connected` and `now` are the two times that are read.
  store_peer :
      Option (PeerConnection F)
      → String
      → String
      → String
      → (connected now : F) → Dict String (PeerConnection F)
      → Dict String (PeerConnection F) × List String
  store_peer none node_id address protocol connected now d = (
    insert node_id
        (record {
          node_id = node_id;
          address = address;
          connected_at = connected;
          last_heartbeat = now;
          latency_ms = of_nat 0;
          protocol = protocol;
          is_active = true;
        })
        d,
    node_id ∷ [],
  )
  store_peer (some p) node_id address protocol connected now d = (
    insert node_id (record p { last_heartbeat = now; address = address; is_active = true }) d,
    [],
  )

  -- The new state, and the connect callbacks.
  unfoldable pub register_peer :
      String
      → String
      → String
      → (connected now : F) → ConnectionManager F
      → ConnectionManager F × List String
  unfolding make_room store_peer
  register_peer node_id address protocol connected now s =
      let room = make_room s.peers in
      let (d, called) =
        store_peer (lookup node_id room) node_id address protocol connected now room in
      (record s { peers = d }, called)

  beat :
      Option (PeerConnection F)
      → String
      → String
      → (connected now : F) → ConnectionManager F
      → ConnectionManager F × List String
  unfolding register_peer
  beat (some p) node_id address connected now s = (
    record s {
      peers = insert node_id (record p { last_heartbeat = now; is_active = true }) s.peers;
    },
    [],
  )
  beat none node_id address connected now s =
      let registered = register_peer node_id address "mqtt" connected now s in
      if not (address == "") then registered else (s, [])

  unfoldable pub handle_heartbeat :
      String
      → String
      → (connected now : F) → ConnectionManager F
      → ConnectionManager F × List String
  unfolding beat
  handle_heartbeat node_id address connected now s =
      beat (lookup node_id s.peers) node_id address connected now s

  -- `HEARTBEAT_TIMEOUT` is 15 seconds.
  abbrev pub answers : F → PeerConnection F → Bool
  answers now p = p.is_active && lt (sub now p.last_heartbeat) (of_nat 15)

  active_among : F → List (PeerConnection F) → List (PeerConnection F)
  active_among now [] = []
  active_among now (p ∷ ps) =
      let rest = active_among now ps in if answers now p then p ∷ rest else rest

  unfoldable pub active_peers : F → ConnectionManager F → List (PeerConnection F)
  unfolding active_among
  active_peers now s = active_among now (values s.peers)

  unfoldable pub peer_count : F → ConnectionManager F → ℕ
  unfolding active_peers
  peer_count now s = length (active_peers now s)

  -- `STALE_ROVER_TIMEOUT` is 30 seconds.
  abbrev pub is_stale : F → PeerConnection F → Bool
  is_stale now p = p.is_active && lt (of_nat 30) (sub now p.last_heartbeat)

  -- The two loops of a round of `monitor`: the peers after it, and the disconnect callbacks.
  unfoldable pub mark_stale :
      F → Dict String (PeerConnection F) → Dict String (PeerConnection F) × List String
  mark_stale now [] = ([], [])
  mark_stale now ((k, p) ∷ d) =
      let (rest, called) = mark_stale now d in
      if is_stale now p
      then ((k, record p { is_active = false }) ∷ rest, k ∷ called)
      else ((k, p) ∷ rest, called)

  unfoldable pub monitor : F → ConnectionManager F → ConnectionManager F × List String
  unfolding mark_stale
  monitor now s =
      let (d, called) = mark_stale now s.peers in (record s { running = true; peers = d }, called)
