-- ===== src/P2P.antt =====
-- src/p2p: the search for a direct path between two peers.
pub mod Candidates
pub mod Connectivity
mod Tests
