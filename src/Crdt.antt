-- ===== src/Crdt.antt =====
-- rover_swarm/crdt: the replicated data types, each in a module of its own.
pub mod Base
pub mod Lattice
pub mod VectorClock
pub mod GCounter
pub mod PnCounter
pub mod LwwReg
pub mod GSet
pub mod OrSet
pub mod LwwMap
pub mod RoverState
pub mod MissionState
pub mod SwarmState
pub mod MergeEngine
pub mod MvReg
pub mod Rga
