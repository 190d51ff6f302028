-- ===== src/Server.antt =====
-- The servers through which a user reads the chain and sends transactions, and the client of them.
pub mod Node
pub mod Json
pub mod Http
pub mod Grpc
pub mod Client
pub mod Serving
