-- ===== src/Ice.antt =====
-- pkg/p2p/ice: candidates, the gatherer of local ones, the agent and its connection.
pub mod Candidate
pub mod Scan
pub mod Line
pub mod Gatherer
pub mod Agent
pub mod Connection
