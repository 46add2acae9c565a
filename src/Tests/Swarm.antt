-- ===== src/Tests/Swarm.antt =====
-- Elections and allocations.
use autonomous_rover_swarm_c.Common.{
  ℕ, ◌≤◌, ◌<◌, ◌≡◌, ◌≢◌, refl, true, List, [], ◌∷◌, some, none, String, string_eq, arith, length,
}
use autonomous_rover_swarm_c.Common.Int
use autonomous_rover_swarm_c.Swarm.Consensus
use autonomous_rover_swarm_c.Common.Sets
use autonomous_rover_swarm_c.Common.Sets.{member, IsDistinct}
use autonomous_rover_swarm_c.Types.{Task, TaskStatus, explore, pending, completed}
use autonomous_rover_swarm_c.Swarm.Consensus.{
  Consensus, RaftRole, follower, candidate, leader, Clock, Event, starts, steps, vote_request,
  vote_response, new, run, is_leader, may_vote, handle_vote_request, handle_vote_response,
  start_election, receive_heartbeat,
}
use autonomous_rover_swarm_c.Swarm.Consensus.Votes.{vote_once, handle_vote_request_lem}
use autonomous_rover_swarm_c.Swarm.Consensus.Safety.{leader_was_elected, two_leaders}
use autonomous_rover_swarm_c.Swarm.TaskAllocation.{Engine, allocate}
use autonomous_rover_swarm_c.Swarm.TaskAllocation.Allocate.{AllocatesAll, allocate_all_pending}

abbrev clock : Clock
clock = record { now = 9; timeout = 5 }

abbrev node : String → Consensus
node name = new name clock

-- "a" stands, and "b" votes for it.
abbrev election : List Event
election = starts ∷ steps clock ∷ vote_response "b" ∷ []

wins : is_leader (run (node "a") election) ≡ true
unfolding is_leader run Consensus.handle Consensus.start Consensus.step handle_vote_response
    start_election new Sets.add member
wins = refl

leader_was_elected_example :
    ((run (node "a") election).state.voted_for ≡ some "a")
    × ((run (node "a") election).state.leader_id ≡ some "a")
    × (2 ≤ length (run (node "a") election).votes_received)
    × IsDistinct (run (node "a") election).votes_received
    × (member "a" (run (node "a") election).votes_received ≡ true)
leader_was_elected_example = leader_was_elected "a" clock election wins

-- "c" has voted for "a" in term 3.
abbrev voter : Consensus
voter = record {
  node_id = "c";
  state = record {
    current_term = 3;
    voted_for = some "a";
    leader_id = none;
    role = follower;
    commit_index = 0;
    last_applied = 0;
  };
  election_timeout = 5;
  last_heartbeat = 0;
  running = true;
  votes_received = [];
}

abbrev asked : List Event
asked = vote_request "b" 3 clock ∷ vote_request "d" 2 clock ∷ []

same_term : (run voter asked).state.current_term ≡ 3
unfolding run Consensus.handle handle_vote_request
same_term = refl

vote_once_example : (run voter asked).state.voted_for ≡ some "a"
vote_once_example = vote_once voter asked "a" refl same_term

handle_vote_request_lem_example :
    (3 < 4
      → ((handle_vote_request "b" 4 clock voter).1 ≡ true)
        × ((handle_vote_request "b" 4 clock voter).0.state.current_term ≡ 4)
        × ((handle_vote_request "b" 4 clock voter).0.state.voted_for ≡ some "b")
        × ((handle_vote_request "b" 4 clock voter).0.state.role ≡ follower))
    × (4 ≤ 3
        → ((handle_vote_request "b" 4 clock voter).1 ≡ may_vote (some "a") "b")
          × ((handle_vote_request "b" 4 clock voter).0.state.current_term ≡ 3)
          × ((handle_vote_request "b" 4 clock voter).0.state.role ≡ follower))
handle_vote_request_lem_example = handle_vote_request_lem "b" 4 clock voter

abbrev stand : String → Consensus
stand name = (start_election clock (node name)).0

two_leaders_example :
    ((handle_vote_request "a" (stand "a").state.current_term clock (node "c")).1 ≡ true)
    × ((handle_vote_request "b" (stand "a").state.current_term clock (node "d")).1 ≡ true)
    × (is_leader (handle_vote_response "c" (stand "a")).0 ≡ true)
    × (is_leader (handle_vote_response "d" (stand "b")).0 ≡ true)
    × ((handle_vote_response "c" (stand "a")).0.state.current_term
        ≡ (handle_vote_response "d" (stand "b")).0.state.current_term)
unfolding new
two_leaders_example =
    two_leaders (node "a") (node "b") (node "c") (node "d") "c" "d" clock refl (omega arith)
      (omega arith) (ground (arith, string_eq.beq_iff "c" "a"))
      (ground (arith, string_eq.beq_iff "d" "b"))

abbrev task : String → TaskStatus → Task ℕ
task id status = record {
  task_id = id;
  task_type = explore;
  status = status;
  assigned_to = none;
  priority = Int.pos 5;
  payload = 0;
  created_at = 0;
  deadline = none;
}

abbrev three : Engine ℕ
three = record {
  node_id = "base";
  tasks = ("t1", task "t1" pending) ∷ ("t2", task "t2" completed) ∷ ("t3", task "t3" pending) ∷ [];
  assignments = [];
}

abbrev rovers : List String
rovers = "r1" ∷ "r2" ∷ []

has_rovers : rovers ≢ []
has_rovers e = cc

allocate_all_pending_example : AllocatesAll rovers (λ i. i) three (allocate rovers (λ i. i) three)
allocate_all_pending_example = allocate_all_pending rovers (λ i. i) three has_rovers
