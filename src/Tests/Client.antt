-- ===== src/Tests/Client.antt =====
-- The client of the gRPC server.
use gcosmos.Base.{◌≡◌, refl, false, some, List, [], ◌∷◌, Bytes, codes, lookup, bytes_key, ok, err}
use gcosmos.Server.Client.{
  GrpcClient, TxConfig, ResultBroadcastTx, broadcast_tx_sync, validators, status, tx,
}
use gcosmos.Server.Client.Broadcast.{Broadcast, broadcast_tx_sync-Broadcast}
use gcosmos.Server.Client.Queried.{tx-stored}
use gcosmos.Server.Client.Stub.{IsStub}
use gcosmos.Server.Grpc.{
  convert_event, get_gordian_response_from_sdk_result, get_blocks_watermark, get_validators,
  submit_transaction, simulate_transaction, query_tx,
}
use gcosmos.Server.Node.{TxResult}
use gcosmos.Strconv.Integer.{pos}
use gcosmos.TxStore.{IndexedTx, Store, load_tx_by_hash}
use gcosmos.Tests.Fixtures.{zeros}
use gcosmos.Tests.Backend.{broke, node}

abbrev stored : Store TxResult
stored = (zeros 32, record { height = 6; tx_bytes = codes "ab"; result = broke }) ∷ []

abbrev gclient : GrpcClient (List Bytes)
gclient = record {
  get_blocks_watermark = get_blocks_watermark node;
  get_validators = get_validators node;
  submit_transaction = submit_transaction node;
  simulate_transaction = simulate_transaction node;
  query_tx = query_tx (some stored);
}

gclient-IsStub : IsStub node gclient
gclient-IsStub = record { simulate = λ raw r e. e; submit = λ b b' raw r e. e }

abbrev plain : TxConfig Bytes
plain = record { decode = λ b. ok b; encode_json = λ t. ok t }

abbrev done : ResultBroadcastTx
done = record { code = 0; payload = []; log = []; hash = codes "ab"; codespace = [] }

broadcast_done :
    broadcast_tx_sync gclient (ok plain) (λ b. b) [] (codes "ab") ≡ (ok done, codes "ab" ∷ [])
unfolding broadcast_tx_sync submit_transaction simulate_transaction
    get_gordian_response_from_sdk_result convert_event
broadcast_done = refl

broadcast_tx_sync-Broadcast_example :
    Broadcast node (ok plain) (λ b. b) [] (codes "ab") done (codes "ab" ∷ [])
broadcast_tx_sync-Broadcast_example =
    broadcast_tx_sync-Broadcast node gclient (ok plain) (λ b. b) [] (codes "ab" ∷ []) (codes "ab")
      done gclient-IsStub broadcast_done

-- Invalid transactions are refused by the simulation already.
broadcast_refused : broadcast_tx_sync gclient (ok plain) (λ b. b) [] (codes "x") ≡ (
  err (codes "failure expecting simulated transaction: failed to simulate transaction: broke"),
  [],
)
unfolding broadcast_tx_sync submit_transaction simulate_transaction
    get_gordian_response_from_sdk_result convert_event
broadcast_refused = refl

status_before_committing : status gclient ≡ ok (pos 6)
unfolding status get_blocks_watermark
status_before_committing = refl

validators_shown :
    validators gclient
    ≡ ok (record {
      block_height = 0;
      validators = record { pub_key = codes "Man"; voting_power = pos 10 } ∷ [];
      count = 1;
      total = 1;
    })
unfolding validators get_validators
validators_shown = refl

abbrev failed_tx : IndexedTx TxResult
failed_tx = record { height = 6; tx_bytes = codes "ab"; result = broke }

failed_tx_found : load_tx_by_hash stored (zeros 32) ≡ ok failed_tx
unfolding load_tx_by_hash lookup
failed_tx_found = refl

no_events : convert_event [] ≡ ok []
unfolding convert_event
no_events = refl

-- The transaction failed, and the client is told code 0.
tx-stored_example :
    tx gclient (zeros 32) false
    ≡ ok (record {
      hash = zeros 32;
      height = pos 6;
      code = 0;
      payload = [];
      log = [];
      info = [];
      gas_wanted = pos 9;
      gas_used = pos 5;
      events = [];
      codespace = [];
      tx = codes "ab";
    })
tx-stored_example = tx-stored gclient stored (zeros 32) failed_tx [] refl failed_tx_found no_events
