-- ===== src/Swarm.antt =====
-- rover_swarm/swarm: how the rovers of a swarm coordinate.
pub mod Consensus
pub mod Gossip
pub mod HealthMonitor
pub mod RoleAssignment
pub mod TaskAllocation
