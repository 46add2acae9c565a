-- ===== src/Swarm/Consensus/Safety.antt =====
-- Who can be leader in swarm/consensus.py.
use autonomous_rover_swarm_c.Common.{
  ◌≤◌, String, string_eq, true, ◌≡◌, ◌≢◌, refl, ◌∙◌, some, List, [], ◌∷◌, arith, length, beq_refl,
}
use autonomous_rover_swarm_c.Common.Sets.{
  add, member, IsDistinct, add-IsDistinct, member-add, length-add,
}
use autonomous_rover_swarm_c.Swarm.Consensus.{
  Consensus, follower, leader, Clock, Event, starts, stops, steps, resets, heartbeat, vote_request,
  vote_response, handle, handle_vote_request, handle_vote_response, start_election, step, run, new,
  is_leader,
}

-- What a node's role says of its ballot.
pub record IsValid (c : Consensus) : Type 0 where
  pub distinct : IsDistinct c.votes_received
  pub stands : c.state.role ≢ follower → c.state.voted_for ≡ some c.node_id
  pub own_vote : c.state.role ≢ follower → member c.node_id c.votes_received ≡ true
  pub elected : c.state.role ≡ leader → 2 ≤ length c.votes_received
  pub announced : c.state.role ≡ leader → c.state.leader_id ≡ some c.node_id

new-IsValid : (node : String) (clock : Clock) → IsValid (new node clock)
unfolding new
new-IsValid node clock = ground arith

step-IsValid : (clock : Clock) (c : Consensus) → IsValid c → IsValid (step clock c).0
unfolding step member
step-IsValid clock c h = ground (arith, beq_refl c.node_id)

handle-IsValid : (ev : Event) (c : Consensus) → IsValid c → IsValid (handle ev c)
unfolding handle
handle-IsValid starts c h = ground arith
handle-IsValid stops c h = ground arith
handle-IsValid (steps clock) c h = step-IsValid clock c h
handle-IsValid (resets clock) c h = ground arith
handle-IsValid (heartbeat leader_id term clock) c h = ground arith
handle-IsValid (vote_request candidate_id term clock) c h =
    ground (arith, string_eq.beq_iff c.node_id candidate_id)
handle-IsValid (vote_response voter_id) c h = ground (
  arith,
  add-IsDistinct voter_id c.votes_received,
  length-add voter_id c.votes_received,
  member-add voter_id c.node_id c.votes_received,
)

run-IsValid : (c : Consensus) (evs : List Event) → IsValid c → IsValid (run c evs)
unfolding run
run-IsValid c [] h = h
run-IsValid c (ev ∷ evs) h = run-IsValid (handle ev c) evs (handle-IsValid ev c h)

node_id-handle : (ev : Event) (c : Consensus) → (handle ev c).node_id ≡ c.node_id
unfolding handle
node_id-handle starts c = refl
node_id-handle stops c = refl
node_id-handle (steps clock) c = ground arith
node_id-handle (resets clock) c = refl
node_id-handle (heartbeat leader_id term clock) c = ground arith
node_id-handle (vote_request candidate_id term clock) c = ground arith
node_id-handle (vote_response voter_id) c = ground arith

node_id-run : (c : Consensus) (evs : List Event) → (run c evs).node_id ≡ c.node_id
unfolding run
node_id-run c [] = refl
node_id-run c (ev ∷ evs) = node_id-run (handle ev c) evs ∙ node_id-handle ev c

elected :
    (node : String) (c : Consensus)
    → IsValid c
    → c.node_id ≡ node
    → is_leader c ≡ true
    → (c.state.voted_for ≡ some node)
      × (c.state.leader_id ≡ some node)
      × (2 ≤ length c.votes_received)
      × IsDistinct c.votes_received
      × (member node c.votes_received ≡ true)
unfolding is_leader
elected node c h same lead =
    let role : c.state.role ≡ leader = ground arith in
    let not_follower : c.state.role ≢ follower = λ e. cc in
    (
      rw (← same) (h.stands not_follower),
      rw (← same) (h.announced role),
      h.elected role,
      h.distinct,
      rw (← same) (h.own_vote not_follower),
    )

-- Whatever a new node goes through, if it is leader in the end then it has voted for itself, it
-- names itself as the leader, and it holds the votes of itself and of at least one other node.
pub leader_was_elected :
    (node : String) (clock : Clock) (evs : List Event)
    → let c = run (new node clock) evs in
      is_leader c ≡ true
      → (c.state.voted_for ≡ some node)
        × (c.state.leader_id ≡ some node)
        × (2 ≤ length c.votes_received)
        × IsDistinct c.votes_received
        × (member node c.votes_received ≡ true)
leader_was_elected node clock evs lead =
    let h = run-IsValid (new node clock) evs (new-IsValid node clock) in
    let same : (run (new node clock) evs).node_id ≡ node =
      node_id-run (new node clock) evs ∙ (unfold new in refl) in
    elected node (run (new node clock) evs) h same lead

-- Two votes elect, however large the cluster is. Two nodes in one term that both stand, each granted
-- the vote of one other node that is not ahead of them, both become leader of the
-- same term.
pub two_leaders :
    (a b c d : Consensus) (x y : String) (clock : Clock)
    → a.state.current_term ≡ b.state.current_term
    → c.state.current_term ≤ a.state.current_term
    → d.state.current_term ≤ b.state.current_term
    → x ≢ a.node_id
    → y ≢ b.node_id
    → let a' = (start_election clock a).0 in
      let b' = (start_election clock b).0 in
      let term = a'.state.current_term in
      let elected_a = (handle_vote_response x a').0 in
      let elected_b = (handle_vote_response y b').0 in
      ((handle_vote_request a.node_id term clock c).1 ≡ true)
      × ((handle_vote_request b.node_id term clock d).1 ≡ true)
      × (is_leader elected_a ≡ true)
      × (is_leader elected_b ≡ true)
      × (elected_a.state.current_term ≡ elected_b.state.current_term)
unfolding start_election handle_vote_request handle_vote_response is_leader add member
two_leaders a b c d x y clock same behind_c behind_d nx ny = (
  ground arith,
  ground arith,
  ground (arith, string_eq.beq_iff x a.node_id),
  ground (arith, string_eq.beq_iff y b.node_id),
  ground (arith, string_eq.beq_iff x a.node_id, string_eq.beq_iff y b.node_id),
)
