-- ===== src/Lib.antt =====
-- The core of the rover swarm: the replicated data types (CRDTs) that rovers exchange, and the
-- modules that coordinate the swarm, limit requests and grant rights. Paths are from the
-- repository's root.
--
-- Common: what the parts share. Python's dictionaries are association lists in insertion order
--   (Common/Dict), its sets are lists with a membership test (Common/Sets); Python fixes no
--   order of a set, so statements read dictionaries by key and sets by membership.
--   Common/Decimal is `str` of a number, Common/Text the order of texts, Common/Errors the
--   exceptions. Common/Floats is an interface: where floats are computed with, the model takes
--   them as a parameter, with the order laws of finite floats as hypotheses; the tests put
--   natural numbers in their place.
-- Types: src/rover_swarm/types.py, the enumerations and tasks that are used.
-- Crdt: src/rover_swarm/crdt. A time stamp is only compared, and stands as the bits of a non-
--   negative double (Crdt/Base). Each data type is a module with its state as a record and one
--   function for each method, which returns the new state: VectorClock (vector_clock.py),
--   GCounter (gcounter.py), PnCounter (pncounter.py), LwwReg (lwwreg.py), GSet (gset.py), OrSet
--   (orset.py), LwwMap (lwwmap.py), MvReg (mvreg.py), Rga (rga.py). MergeEngine is
--   merge_engine.py. RoverState, MissionState and SwarmState
--   (rover_state.py, mission_state.py, swarm_state.py) are put together of these. Crdt/Lattice
--   is the contract of a replicated type: a merge that is commutative, associative and
--   idempotent up to what a reader sees. `apply_delta` of the program drops the clock that it
--   merges, and so do the definitions.
-- Swarm: src/rover_swarm/swarm. Consensus (consensus.py) is one node and the events that reach
--   it; TaskAllocation (task_allocation.py); Gossip (gossip.py), where the targets of a round
--   are an argument; HealthMonitor (health_monitor.py). What a call reads of the clock or of a
--   random source is an argument of the definition, and what it hands to callbacks is a result.
--   RoleAssignment (role_assignment.py) hands out roles by need.
-- Security: src/rover_swarm/security. RateLimiter and RateLimitMiddleware (rate_limiter.py);
--   Rbac, ApiKeys, Jwt and AuthMiddleware (auth.py), where PyJWT and PBKDF2 are parameters;
--   AuditEvent, AuditLog and AuditQuery (audit.py), where the hash of an event and the JSON of a
--   line are parameters;
--   InputValidator (input_validator.py), with its regular expressions written out.
-- Sensor: src/rover_swarm/sensor. Pipeline (pipeline.py): a batch that is being published stands in
--   the state, so that whatever runs while it waits is a step between two of its attempts.
-- Communication: src/rover_swarm/communication. ConnectionManager (connection_manager.py),
--   NetworkSimulator (network_simulator.py), Discovery (discovery.py: what a message does to the
--   table) and MessageEnvelope (message_envelope.py, over msgpack as a parameter).
-- VectorDb: src/rover_swarm/vector_db/manager.py, and Ai: src/rover_swarm/ai/engine_manager.py: how a
--   request is routed to backends and engines, which are parameters, and falls back to others.
-- Tests: the theorems at concrete inputs.
--
-- Two loops need fuel, both along the links of Crdt/Rga: `value` takes one more than there are
-- elements, which is enough for any links, and `append` takes it as an argument. Every other loop of
-- the modelled code runs over a list, a text or a dictionary, and an endless loop of the program is
-- modelled by one round of it.
--
-- Not modelled: the binary formats of the data types (msgpack), network transports, web routes,
-- clients of databases and of inference engines, sensor drivers and simulation, floating-point
-- geometry, TLS, logging and metrics, which are input and output or calls of libraries.
pub mod Common
pub mod Crdt
pub mod Swarm
pub mod Communication
pub mod Security
pub mod Sensor
pub mod VectorDb
pub mod Ai
pub mod Types
pub mod Tests
