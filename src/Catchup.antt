-- ===== src/Catchup.antt =====
-- gserver/internal/gp2papi: blocks that a node which lags behind fetches from its peers.
pub mod Peers
pub mod DataHost
pub mod Fetch
