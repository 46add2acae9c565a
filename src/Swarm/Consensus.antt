-- ===== src/Swarm/Consensus.antt =====
-- swarm/consensus.py: leader election for one node. Terms are natural numbers. A `Clock` gives a
-- call what it reads from outside: `now` is `time.time()`, and `timeout` is what `_random_timeout()`
-- returns; both are compared and never computed with.
pub mod Votes
pub mod Safety
use Prim.Native.String.{◌++◌}
use autonomous_rover_swarm_c.Common.{
  ℕ, ◌+◌, String, string_eq, Bool, true, false, ◌&&◌, ◌||◌, Option, none, some, List, [], ◌∷◌, ltb,
  leb, length, if◌then◌else◌, ◌==◌,
}
use autonomous_rover_swarm_c.Common.Decimal.{show}
use autonomous_rover_swarm_c.Common.Sets.{add}
use autonomous_rover_swarm_c.Crdt.Base.{Timestamp}

pub data RaftRole : Type 0 where
  follower candidate leader : RaftRole

pub record RaftState : Type 0 where
  pub current_term : ℕ
  pub voted_for : Option String
  pub leader_id : Option String
  pub role : RaftRole
  pub commit_index : ℕ
  pub last_applied : ℕ

-- `ConsensusModule`
pub record Consensus : Type 0 where
  pub node_id : String
  pub state : RaftState
  pub election_timeout : Timestamp
  pub last_heartbeat : Timestamp
  pub running : Bool
  pub votes_received : List String

pub record Clock : Type 0 where
  pub now : Timestamp
  pub timeout : Timestamp

-- `__init__`
unfoldable pub new : String → Clock → Consensus
new node_id clock = record {
  node_id = node_id;
  state = record {
    current_term = 0;
    voted_for = none;
    leader_id = none;
    role = follower;
    commit_index = 0;
    last_applied = 0;
  };
  election_timeout = clock.timeout;
  last_heartbeat = clock.now;
  running = false;
  votes_received = [];
}

unfoldable pub start : Consensus → Consensus
start c = record c { running = true }

unfoldable pub send_heartbeats : Clock → Consensus → Consensus × Option String
unfolding show
send_heartbeats clock c =
    (record c { last_heartbeat = clock.now }, some ("heartbeat:term=" ++ show c.state.current_term))

unfoldable pub start_election : Clock → Consensus → Consensus × Option String
unfolding show
start_election clock c =
    let term = c.state.current_term + 1 in
    (
      record c {
        state = record c.state {
          current_term = term;
          role = candidate;
          voted_for = some c.node_id;
        };
        votes_received = c.node_id ∷ [];
        election_timeout = clock.timeout;
      },
      some ("vote_request:term=" ++ (show term ++ (",candidate=" ++ c.node_id))),
    )

-- The three branches of `step` on the role.
step_role : RaftRole → Clock → Consensus → Consensus × Option String
unfolding send_heartbeats start_election
step_role leader clock c = send_heartbeats clock c
step_role follower clock c =
    if ltb c.election_timeout clock.now then start_election clock c else (c, none)
step_role candidate clock c =
    if ltb c.election_timeout clock.now then start_election clock c else (c, none)

-- The new state, and the message to broadcast.
unfoldable pub step : Clock → Consensus → Consensus × Option String
unfolding step_role
step clock c = if c.running then step_role c.state.role clock c else (c, none)

unfoldable pub receive_heartbeat : String → ℕ → Clock → Consensus → Consensus × Bool
receive_heartbeat leader_id term clock c =
    if leb c.state.current_term term
    then (
      record c {
        state = record c.state { current_term = term; leader_id = some leader_id; role = follower };
        last_heartbeat = clock.now;
        election_timeout = clock.timeout;
      },
      true,
    )
    else (c, false)

-- The first `if` of `handle_vote_request`: a higher term is adopted.
unfoldable pub adopt_term : ℕ → RaftState → RaftState
adopt_term term s =
    if ltb s.current_term term
    then record s { current_term = term; voted_for = none; role = follower }
    else s

-- `voted_for is None or voted_for == candidate_id`
abbrev pub may_vote : Option String → String → Bool
may_vote none candidate_id = true
may_vote (some v) candidate_id = v == candidate_id

unfoldable pub handle_vote_request : String → ℕ → Clock → Consensus → Consensus × Bool
unfolding adopt_term
handle_vote_request candidate_id term clock c =
    let s = adopt_term term c.state in
    if may_vote s.voted_for candidate_id
    then (
      record c { state = record s { voted_for = some candidate_id }; last_heartbeat = clock.now },
      true,
    )
    else (record c { state = s }, false)

abbrev is_candidate : RaftRole → Bool
is_candidate candidate = true
is_candidate _ = false

unfoldable pub handle_vote_response : String → Consensus → Consensus × ℕ
handle_vote_response voter_id c =
    let votes = add voter_id c.votes_received in
    let d = record c { votes_received = votes } in
    if ltb 1 (length votes) && is_candidate c.state.role
    then (
      record d { state = record c.state { role = leader; leader_id = some c.node_id } },
      length votes,
    )
    else (d, length votes)

unfoldable pub is_leader : Consensus → Bool
is_leader c = elim c.state.role [ leader ↦ true | _ ↦ false ]

unfoldable pub stop : Consensus → Consensus
stop c = record c { running = false; state = record c.state { role = follower } }

unfoldable pub reset_election_timer : Clock → Consensus → Consensus
reset_election_timer clock c = record c { election_timeout = clock.timeout }

-- What can happen to a node, in whatever order.
pub data Event : Type 0 where
  starts stops : Event
  steps resets : Clock → Event
  heartbeat : String → ℕ → Clock → Event
  vote_request : String → ℕ → Clock → Event
  vote_response : String → Event

unfoldable pub handle : Event → Consensus → Consensus
unfolding start stop step reset_election_timer receive_heartbeat handle_vote_request
    handle_vote_response
handle starts c = start c
handle stops c = stop c
handle (steps clock) c = (step clock c).0
handle (resets clock) c = reset_election_timer clock c
handle (heartbeat leader_id term clock) c = (receive_heartbeat leader_id term clock c).0
handle (vote_request candidate_id term clock) c = (handle_vote_request candidate_id term clock c).0
handle (vote_response voter_id) c = (handle_vote_response voter_id c).0

unfoldable pub run : Consensus → List Event → Consensus
run c [] = c
run c (ev ∷ evs) = run (handle ev c) evs
