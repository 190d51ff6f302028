-- ===== src/Tests.antt =====
-- The theorems at concrete inputs: a small transaction type, codec and application stand for the code
-- of other modules.
mod Fixtures
mod Codec
mod Blocks
mod Stores
mod Rounds
mod Wire
mod Peers
mod Chain
mod Genesis
mod Agreed
mod Powers
mod Retrieval
mod Backend
mod Servers
mod Routing
mod Client
mod Serving
mod Lifecycle
mod Connections
