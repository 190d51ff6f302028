-- ===== src/Server/Client.antt =====
-- gserver/cmtclient.go: the client that the SDK's commands take for a CometBFT node.
pub mod Stub
pub mod Broadcast
pub mod Queried
use gcosmos.Base.{
  ℕ, zero, suc, ◌-◌, ◌^◌, Bool, true, false, List, [], ◌∷◌, ◌++◌, map, Option, none, some, Bytes,
  codes, length, nat_eq, Result, ok, err, panic, ◌>>=◌, ◌>>◌, if◌then◌else◌,
}
use gcosmos.Server.Grpc.{Event, TxResultResponse, QueryTxResponse, EncodedValidator, to_int64, wrap}
use gcosmos.Server.Node.{HeightRound, Attribute}
use gcosmos.Strconv.Integer.{ℤ, pos, negsuc}

-- The generated stub of the gRPC client, which calls a server with the buffer `B`.
pub record GrpcClient (B : Type 0) : Type 0 where
  pub get_blocks_watermark : Result Bytes HeightRound
  pub get_validators : Result Bytes (List EncodedValidator)
  pub submit_transaction : B → Bytes → Result Bytes TxResultResponse × B
  pub simulate_transaction : Bytes → Result Bytes TxResultResponse
  pub query_tx : Bytes → Result Bytes QueryTxResponse

-- The SDK's client context of a command, with its transactions `T`.
pub record TxConfig (T : Type 0) : Type 0 where
  pub decode : Bytes → Result Bytes T
  pub encode_json : T → Result Bytes Bytes

pub record ResultBroadcastTx : Type 0 where
  pub code : ℕ
  pub payload : Bytes
  pub log : Bytes
  pub hash : Bytes
  pub codespace : Bytes

pub record CmtValidator : Type 0 where
  pub pub_key : Bytes
  pub voting_power : ℤ

pub record ResultValidators : Type 0 where
  pub block_height : ℕ
  pub validators : List CmtValidator
  pub count : ℕ
  pub total : ℕ

pub record ResultTx : Type 0 where
  pub hash : Bytes
  pub height : ℤ
  pub code : ℕ
  pub payload : Bytes
  pub log : Bytes
  pub info : Bytes
  pub gas_wanted : ℤ
  pub gas_used : ℤ
  pub events : List Event
  pub codespace : Bytes
  pub tx : Bytes

-- `if res.Error != "" { return nil, fmt.Errorf(…) }`
abbrev pub no_error : Bytes → Bytes → Result Bytes (Unit {0})
no_error msg [] = ok tt
no_error msg (c ∷ e) = err (msg ++ (c ∷ e))

-- `n - 1` for an int64, which wraps around at its least value.
abbrev pred_int64 : ℤ → ℤ
pred_int64 (pos zero) = negsuc 0
pred_int64 (pos (suc n)) = pos n
pred_int64 (negsuc n) = if nat_eq n (2 ^ 63 - 1) then pos (2 ^ 63 - 1) else negsuc (suc n)

-- `context` is the client context of the command, and `hash_of` is CometBFT's hash of a transaction.
module _ {B T : Type 0} (gclient : GrpcClient B) (context : Result Bytes (TxConfig T))
    (hash_of : Bytes → Bytes) where
  -- Up to the simulation: the JSON of the transaction.
  abbrev pub simulated : Bytes → Result Bytes Bytes
  simulated tx = do
    config ← wrap (codes "failed to get client tx context: ") context
    sdk_tx ← wrap (codes "failed to decode tx: ") (config.decode tx)
    tx_json ← wrap (codes "failed to encode tx: ") (config.encode_json sdk_tx)
    res ← wrap (codes "failed to simulate transaction: ") (gclient.simulate_transaction tx_json)
    no_error (codes "failure expecting simulated transaction: ") res.error
    ok tx_json

  -- From the answer to the submission on.
  abbrev finished : Bytes → Result Bytes TxResultResponse → Result Bytes ResultBroadcastTx
  finished tx answer = do
    res ← wrap (codes "failed to submit transaction: ") answer
    no_error (codes "failure expecting transaction: ") res.error
    ok (record {
      code = res.code;
      payload = res.payload;
      log = res.log;
      hash = hash_of tx;
      codespace = res.codespace;
    })

  abbrev pub sent : B → Bytes → Result Bytes Bytes → Result Bytes ResultBroadcastTx × B
  sent b tx (ok tx_json) =
      let (answer, b') = gclient.submit_transaction b tx_json in (finished tx answer, b')
  sent b tx (err e) = (err e, b)
  sent b tx panic = (panic, b)

  unfoldable pub broadcast_tx_sync : B → Bytes → Result Bytes ResultBroadcastTx × B
  broadcast_tx_sync b tx = sent b tx (simulated tx)

  unfoldable pub broadcast_tx_async : B → Bytes → Result Bytes ResultBroadcastTx × B
  unfolding broadcast_tx_sync
  broadcast_tx_async b tx = broadcast_tx_sync b tx

abbrev cmt_validator : EncodedValidator → CmtValidator
cmt_validator v = record { pub_key = v.encoded_pub_key; voting_power = to_int64 v.power }

module _ {B : Type 0} (gclient : GrpcClient B) where
  unfoldable pub validators : Result Bytes ResultValidators
  validators = do
    vals ← wrap (codes "failed to get validators: ") gclient.get_validators
    ok (record {
      block_height = 0;
      validators = map cmt_validator vals;
      count = length vals;
      total = length vals;
    })

  -- The latest block height of the status, the only field that is filled in.
  unfoldable pub status : Result Bytes ℤ
  status = do
    res ← wrap (codes "failed to get blocks watermark: ") gclient.get_blocks_watermark
    ok (pred_int64 (to_int64 res.committing_height))

  pub tx : Bytes → Bool → Result Bytes ResultTx
  tx hash true = panic
  tx hash false = do
    res ← wrap (codes "failed to query transaction: ") (gclient.query_tx hash)
    ok (record {
      hash = res.tx_hash;
      height = res.height;
      code = res.result.code;
      payload = res.result.payload;
      log = res.result.log;
      info = res.result.info;
      gas_wanted = to_int64 res.result.gas_wanted;
      gas_used = to_int64 res.result.gas_used;
      events = res.result.events;
      codespace = res.result.codespace;
      tx = res.tx_bytes;
    })

-- The methods that only say that they are not implemented: an error, or a panic.
pub data Unimplemented : Type 0 where
  abci_info abci_query abci_query_with_options block block_by_hash block_results : Unimplemented
  blockchain_info commit tx_search block_search broadcast_tx_commit : Unimplemented

unfoldable unimplemented : {A : Type 0} → Unimplemented → Result Bytes A
unimplemented broadcast_tx_commit = err (codes "not implemented")
unimplemented _ = panic
