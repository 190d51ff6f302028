-- ===== src/Server/Http/Routes.antt =====
-- The routes of the HTTP server: `newMux` of gserver/internal/gsi/http.go, `setDebugRoutes` of http_debug.go
-- and http_compat.go. The router is gorilla/mux.
pub mod Reached
use gcosmos.Base.{
  ℕ, List, [], ◌∷◌, ◌++◌, map, Option, none, some, Bytes, codes, Result, ok, err, panic,
}
use gcosmos.Server.Http.{
  Response, http_error, handle_blocks_watermark, handle_validators, handle_submit_tx,
  handle_simulate_tx, handle_pending_txs, handle_account_balance,
}
use gcosmos.Server.Node.{Node, TxResult}

-- The handlers of the CometBFT endpoints.
pub data Compat : Type 0 where
  abci_info abci_query block block_by_hash block_results block_search blockchain : Compat
  broadcast_evidence broadcast_tx_async broadcast_tx_commit broadcast_tx_sync check_tx : Compat
  commit consensus_params consensus_state dump_consensus_state genesis genesis_chunked : Compat
  header header_by_hash health net_info num_unconfirmed_txs status subscribe tx tx_search : Compat
  unconfirmed_txs unsubscribe unsubscribe_all validators : Compat

pub data Handler : Type 0 where
  blocks_watermark get_validators submit_tx simulate_tx pending_txs account_balance : Handler
  compat : Compat → Handler

pub record Route : Type 0 where
  pub template : Bytes
  pub method : Bytes
  pub handler : Handler

abbrev route : Bytes → Bytes → Handler → Route
route template method handler = record { template = template; method = method; handler = handler }

unfoldable pub debug_routes : List Route
debug_routes =
    route (codes "/debug/submit_tx") (codes "POST") submit_tx
    ∷ route (codes "/debug/simulate_tx") (codes "POST") simulate_tx
    ∷ route (codes "/debug/pending_txs") (codes "GET") pending_txs
    ∷ route (codes "/debug/accounts/{id}/balance") (codes "GET") account_balance
    ∷ []

unfoldable pub compat_routes : List Route
compat_routes =
    route (codes "abci_info") (codes "GET") (compat abci_info)
    ∷ route (codes "abci_query") (codes "POST") (compat abci_query)
    ∷ route (codes "block") (codes "POST") (compat block)
    ∷ route (codes "block_by_hash") (codes "GET") (compat block_by_hash)
    ∷ route (codes "block_results") (codes "POST") (compat block_results)
    ∷ route (codes "block_search") (codes "POST") (compat block_search)
    ∷ route (codes "blockchain") (codes "GET") (compat blockchain)
    ∷ route (codes "broadcast_evidence") (codes "POST") (compat broadcast_evidence)
    ∷ route (codes "broadcast_tx_async") (codes "POST") (compat broadcast_tx_async)
    ∷ route (codes "broadcast_tx_commit") (codes "POST") (compat broadcast_tx_commit)
    ∷ route (codes "broadcast_tx_sync") (codes "POST") (compat broadcast_tx_sync)
    ∷ route (codes "check_tx") (codes "POST") (compat check_tx)
    ∷ route (codes "commit") (codes "POST") (compat commit)
    ∷ route (codes "consensus_params") (codes "GET") (compat consensus_params)
    ∷ route (codes "consensus_state") (codes "GET") (compat consensus_state)
    ∷ route (codes "dump_consensus_state") (codes "GET") (compat dump_consensus_state)
    ∷ route (codes "genesis") (codes "GET") (compat genesis)
    ∷ route (codes "genesis_chunked") (codes "GET") (compat genesis_chunked)
    ∷ route (codes "header") (codes "GET") (compat header)
    ∷ route (codes "header_by_hash") (codes "GET") (compat header_by_hash)
    ∷ route (codes "health") (codes "GET") (compat health)
    ∷ route (codes "net_info") (codes "GET") (compat net_info)
    ∷ route (codes "num_unconfirmed_txs") (codes "GET") (compat num_unconfirmed_txs)
    ∷ route (codes "status") (codes "GET") (compat status)
    ∷ route (codes "subscribe") (codes "GET") (compat subscribe)
    ∷ route (codes "tx") (codes "POST") (compat tx)
    ∷ route (codes "tx_search") (codes "GET") (compat tx_search)
    ∷ route (codes "unconfirmed_txs") (codes "GET") (compat unconfirmed_txs)
    ∷ route (codes "unsubscribe") (codes "GET") (compat unsubscribe)
    ∷ route (codes "unsubscribe_all") (codes "GET") (compat unsubscribe_all)
    ∷ route (codes "validators") (codes "GET") (compat validators)
    ∷ []

unfoldable pub new_mux : List Route
unfolding debug_routes compat_routes
new_mux =
    route (codes "/blocks/watermark") (codes "GET") blocks_watermark
    ∷ route (codes "/validators") (codes "GET") get_validators
    ∷ (debug_routes ++ compat_routes)

-- `body` is `none` if it cannot be read.
pub record Request : Type 0 where
  pub method : Bytes
  pub path : Bytes
  pub body : Option Bytes

abbrev not_implemented : ℕ
not_implemented = 501

-- Each of the CometBFT handlers answers this.
unfoldable pub handle_compat : Compat → Response
handle_compat endpoint = http_error (codes "not yet implemented") not_implemented

-- The response of a handler that does not touch the buffer.
abbrev pub keeping : {B : Type 0} → B → Result Response Response → Result (Unit {0}) (Response × B)
keeping b (ok r) = ok (r, b)
keeping b (err r) = ok (r, b)
keeping b panic = panic

-- `select` is the router: the route that takes a request, with the text that stands for `id` in its
-- template, if there is one. `unmatched` is the answer otherwise.
module _ {Tx B Q V : Type 0} (node : Node Tx B Q V) (encode_result : TxResult → Option Bytes)
    (encode_raw : List Bytes → Option Bytes)
    (select : List Route → Request → Option (Route × Bytes)) (unmatched : Request → Response) where
  unfoldable pub handle : B → Handler → Bytes → Option Bytes → Result (Unit {0}) (Response × B)
  handle b blocks_watermark id body = keeping b (handle_blocks_watermark node)
  handle b get_validators id body = keeping b (handle_validators node)
  handle b submit_tx id body = handle_submit_tx node encode_result encode_raw b body
  handle b simulate_tx id body = keeping b (handle_simulate_tx node encode_result encode_raw body)
  handle b pending_txs id body = keeping b (handle_pending_txs node encode_result encode_raw b)
  handle b account_balance id body = keeping b (handle_account_balance node id)
  handle b (compat endpoint) id body = ok (handle_compat endpoint, b)

  abbrev routed : B → Request → Option (Route × Bytes) → Result (Unit {0}) (Response × B)
  routed b req none = ok (unmatched req, b)
  routed b req (some (r, id)) = handle b r.handler id req.body

  unfoldable pub serve : B → Request → Result (Unit {0}) (Response × B)
  unfolding new_mux
  serve b req = routed b req (select new_mux req)
