-- ===== src/Communication.antt =====
-- communication/: the table of peers, discovery, messages and the simulated network.
pub mod ConnectionManager
pub mod Discovery
pub mod MessageEnvelope
pub mod NetworkSimulator
