-- ===== src/Swarm/Consensus/Votes.antt =====
-- The term and the vote of one node of swarm/consensus.py.
use autonomous_rover_swarm_c.Common.{
  Bool-cases, ltb, ℕ, ◌≤◌, ◌<◌, String, string_eq, true, false, ◌≡◌, ◌≢◌, ◌⊎◌, inl, inr, refl, some,
  List, [], ◌∷◌, arith,
}
use autonomous_rover_swarm_c.Swarm.Consensus.{
  Consensus, follower, Clock, Event, starts, stops, steps, resets, heartbeat, vote_request,
  vote_response, handle, handle_vote_request, receive_heartbeat, may_vote, run,
}

-- What happened to a node's ballot: the term rose, or it stayed and so did a vote for `x`.
abbrev Advances : String → Consensus → Consensus → Type 0
Advances x c d =
    (c.state.current_term < d.state.current_term)
    ⊎ ((d.state.current_term ≡ c.state.current_term)
        × (c.state.voted_for ≡ some x → d.state.voted_for ≡ some x))

handle-Advances : (x : String) (ev : Event) (c : Consensus) → Advances x c (handle ev c)
unfolding handle
handle-Advances x starts c = inr (refl, λ h. h)
handle-Advances x stops c = inr (refl, λ h. h)
handle-Advances x (steps clock) c = grind arith
handle-Advances x (resets clock) c = inr (refl, λ h. h)
handle-Advances x (heartbeat leader_id term clock) c = grind arith
handle-Advances x (vote_request candidate_id term clock) c =
    elim (Bool-cases (ltb c.state.current_term term)) [
      | inl higher ↦ inl (ground arith)
      | inr same ↦ inr (ground arith, λ h. ground (arith, string_eq.beq_iff x candidate_id))
    ]
handle-Advances x (vote_response voter_id) c = grind arith

run-Advances : (x : String) (c : Consensus) (evs : List Event) → Advances x c (run c evs)
unfolding run
run-Advances x c [] = inr (refl, λ h. h)
run-Advances x c (ev ∷ evs) =
    grind (arith, handle-Advances x ev c, run-Advances x (handle ev c) evs)

-- Whatever happens to a node, its term does not fall.
pub term_monotone :
    (c : Consensus) (evs : List Event) → c.state.current_term ≤ (run c evs).state.current_term
term_monotone c evs = elim (run-Advances "" c evs) [
  | inl rises ↦ omega arith
  | inr stays ↦ omega (arith, stays.0)
]

-- A node that has voted keeps its vote for as long as its term stays the same, whatever it receives
-- in between.
pub vote_once :
    (c : Consensus) (evs : List Event) (x : String)
    → c.state.voted_for ≡ some x
    → (run c evs).state.current_term ≡ c.state.current_term
    → (run c evs).state.voted_for ≡ some x
vote_once c evs x voted same = elim (run-Advances x c evs) [
  | inl rises ↦ absurd (omega arith)
  | inr stays ↦ stays.1 voted
]

-- What a vote request does. A term above the node's own is adopted, and the vote is granted; at any
-- other term, also one that has passed, it is granted exactly if the node has no vote in its term
-- or has voted for this candidate, and the term stays.
pub handle_vote_request_lem :
    (x : String) (term : ℕ) (clock : Clock) (c : Consensus)
    → (c.state.current_term < term
        → ((handle_vote_request x term clock c).1 ≡ true)
          × ((handle_vote_request x term clock c).0.state.current_term ≡ term)
          × ((handle_vote_request x term clock c).0.state.voted_for ≡ some x)
          × ((handle_vote_request x term clock c).0.state.role ≡ follower))
      × (term ≤ c.state.current_term
          → ((handle_vote_request x term clock c).1 ≡ may_vote c.state.voted_for x)
            × ((handle_vote_request x term clock c).0.state.current_term ≡ c.state.current_term)
            × ((handle_vote_request x term clock c).0.state.role ≡ c.state.role))
unfolding handle_vote_request
handle_vote_request_lem x term clock c = (
  λ h. (ground arith, ground arith, ground arith, ground arith),
  λ h. (ground arith, ground arith, ground arith),
)

-- A node that learns of a higher term by a heartbeat, and that had voted in its old term, takes its
-- old vote into the new term: it refuses every other candidate there, though it has voted for none.
pub heartbeat_keeps_old_vote :
    (x y l : String) (term : ℕ) (clock later : Clock) (c : Consensus)
    → c.state.voted_for ≡ some x
    → x ≢ y
    → c.state.current_term < term
    → let d = (receive_heartbeat l term clock c).0 in
      (d.state.current_term ≡ term) × ((handle_vote_request y term later d).1 ≡ false)
unfolding receive_heartbeat handle_vote_request
heartbeat_keeps_old_vote x y l term clock later c voted ne lt =
    (ground arith, ground (arith, string_eq.beq_iff x y))
