-- ===== src/Consensus.antt =====
-- gserver/internal/gsi/consensusstrategy.go: what the driver's side of consensus proposes and
-- votes for.
pub mod Proposer
pub mod Propose
pub mod Consider
