-- ===== src/Server/Client/Queried.antt =====
-- What the client learns of a transaction that the node's transaction store has.
use gcosmos.Base.{◌≡◌, List, [], some, Bytes, arith, false, ok}
use gcosmos.Server.Client.{GrpcClient, tx}
use gcosmos.Server.Grpc.{
  Event, to_int64, convert_event, get_gordian_response_from_sdk_result, query_tx,
}
use gcosmos.Server.Node.{TxResult}
use gcosmos.TxStore.{Store, IndexedTx, load_tx_by_hash}

module _ {B : Type 0} (gclient : GrpcClient B) where
  -- The client's answer for a transaction that the store has: its height, its bytes, its events and its gas,
  -- and code 0 with an empty log, whatever error the stored result holds, so that a transaction that
  -- failed looks like one that succeeded. The events can be read, and the stub brings the server's response.
  pub tx-stored :
      (txs : Store TxResult) (hash : Bytes) (itx : IndexedTx TxResult) (events : List Event)
      → gclient.query_tx hash ≡ query_tx (some txs) hash
      → load_tx_by_hash txs hash ≡ ok itx
      → convert_event itx.result.events ≡ ok events
      → tx gclient hash false
        ≡ ok (record {
          hash = hash;
          height = to_int64 itx.height;
          code = 0;
          payload = [];
          log = [];
          info = [];
          gas_wanted = to_int64 itx.result.gas_wanted;
          gas_used = to_int64 itx.result.gas_used;
          events = events;
          codespace = [];
          tx = itx.tx_bytes;
        })
  unfolding tx query_tx get_gordian_response_from_sdk_result
  tx-stored txs hash itx events relayed found converted = ground arith
