-- ===== src/Server/Grpc.antt =====
-- gserver/internal/ggrpc/server.go and server_compat.go: the methods of the gRPC server.
pub mod Submitted
use gcosmos.Base.{
  ℕ, ◌-◌, ◌^◌, List, [], ◌∷◌, ◌++◌, map, Option, none, some, Bytes, codes, Result, ok, err, panic,
  ◌>>=◌, ◌>>◌, ltb, if◌then◌else◌,
}
use gcosmos.Consensus.Proposer.{Validator}
use gcosmos.Server.Node.{Node, HeightRound, Attribute, CoreEvent, TxResult}
use gcosmos.Strconv.Integer.{ℤ, pos, negsuc}
use gcosmos.TxStore.{Store, IndexedTx, LoadError, load_tx_by_hash}

-- `int64(n)` for a uint64.
abbrev pub to_int64 : ℕ → ℤ
to_int64 n = if ltb n (2 ^ 63) then pos n else negsuc (2 ^ 64 - 1 - n)

-- The messages of the protocol. An index that the server never sets is left out.
pub record Event : Type 0 where
  pub type_name : Bytes
  pub attributes : List Attribute

pub record TxResultResponse : Type 0 where
  pub events : List Event
  pub error : Bytes
  pub code : ℕ
  pub payload : Bytes
  pub log : Bytes
  pub info : Bytes
  pub gas_wanted : ℕ
  pub gas_used : ℕ
  pub codespace : Bytes

pub record QueryTxResponse : Type 0 where
  pub tx_hash : Bytes
  pub height : ℤ
  pub result : TxResultResponse
  pub tx_bytes : Bytes

pub record EncodedValidator : Type 0 where
  pub encoded_pub_key : Bytes
  pub power : ℕ

-- `&TxResultResponse{Error: e}`
abbrev error_response : Bytes → TxResultResponse
error_response e = record {
  events = [];
  error = e;
  code = 0;
  payload = [];
  log = [];
  info = [];
  gas_wanted = 0;
  gas_used = 0;
  codespace = [];
}

unfoldable pub convert_event : List CoreEvent → Result Bytes (List Event)
convert_event [] = ok []
convert_event (ev ∷ evs) = do
  attributes ← ev.attributes
  events ← convert_event evs
  ok (record { type_name = ev.type_name; attributes = attributes } ∷ events)

-- The text of an error, empty if there is none.
abbrev error_text : Option Bytes → Bytes
error_text none = []
error_text (some e) = e

abbrev with_events : TxResult → Result Bytes (List Event) → Result Bytes TxResultResponse
with_events res (ok events) = ok (record (error_response (error_text res.error)) {
  events = events;
  gas_wanted = res.gas_wanted;
  gas_used = res.gas_used;
})
with_events res (err e) = ok (error_response (codes "failed to extract result events: " ++ e))
with_events res panic = panic

unfoldable pub get_gordian_response_from_sdk_result : TxResult → Result Bytes TxResultResponse
get_gordian_response_from_sdk_result res = with_events res (convert_event res.events)

-- What a method returns early: a response, or an error.
pub data Early : Type 0 where
  respond fail : Bytes → Early

abbrev or_early : {A : Type 0} → Result Bytes A → (Bytes → Early) → Result Early A
or_early (ok a) early = ok a
or_early (err e) early = err (early e)
or_early panic early = panic

abbrev respond_with : Bytes → Bytes → Early
respond_with msg e = respond (msg ++ e)

abbrev fail_with : Bytes → Bytes → Early
fail_with msg e = fail (msg ++ e)

-- A result that holds an error is a response with that error.
abbrev pub no_error : Bytes → Option Bytes → Result Early (Unit {0})
no_error msg none = ok tt
no_error msg (some e) = err (respond_with msg e)

-- What a method returned, with the buffer, which an early return has left alone.
abbrev pub returned :
    {B : Type 0}
    → B
    → Result Early (Result Bytes TxResultResponse × B)
    → Result Bytes TxResultResponse × B
returned b (ok (r, b')) = (r, b')
returned b (err (respond e)) = (ok (error_response e), b)
returned b (err (fail e)) = (err e, b)
returned b panic = (panic, b)

-- `fmt.Errorf("msg: %w", err)`
abbrev pub wrap : {A : Type 0} → Bytes → Result Bytes A → Result Bytes A
wrap msg (ok a) = ok a
wrap msg (err e) = err (msg ++ e)
wrap msg panic = panic

module _ {Tx B Q V : Type 0} (node : Node Tx B Q V) where
  unfoldable pub get_blocks_watermark : Result Bytes HeightRound
  get_blocks_watermark =
      wrap (codes "failed to get network height and round: ") node.network_height_round

  unfoldable pub get_validators : Result Bytes (List EncodedValidator)
  get_validators = do
    hr ← wrap (codes "failed to get network height and round: ") node.network_height_round
    vals ←
        wrap (codes "failed to load finalization by height: ")
          (node.load_finalization_by_height hr.committing_height)
    ok (map (λ v. record { encoded_pub_key = node.marshal_key v.pub_key; power = v.power }) vals)

  abbrev pub submitted : B → Bytes → Result Early (Result Bytes TxResultResponse × B)
  submitted b raw = do
    tx ←
        or_early (node.decode_json raw) (respond_with (codes "failed to decode transaction json: "))
    res ← or_early (node.validate_tx tx) (fail_with (codes "failed to validate transaction: "))
    no_error (codes "failed to validate transaction: ") res.error
    b' ← or_early (node.add_tx b tx) (fail_with (codes "failed to add transaction to buffer: "))
    ok (get_gordian_response_from_sdk_result res, b')

  unfoldable pub submit_transaction : B → Bytes → Result Bytes TxResultResponse × B
  submit_transaction b raw = returned b (submitted b raw)

  abbrev pub simulated : Bytes → Result Early (Result Bytes TxResultResponse × Unit {0})
  simulated raw = do
    tx ←
        or_early (node.decode_json raw) (respond_with (codes "failed to decode transaction json: "))
    res ← or_early (node.simulate tx) (fail_with (codes "failed to simulate transaction: "))
    no_error (codes "failed to simulate transaction: ") res.error
    ok (get_gordian_response_from_sdk_result res, tt)

  unfoldable pub simulate_transaction : Bytes → Result Bytes TxResultResponse
  simulate_transaction raw = (returned tt (simulated raw)).0

  unfoldable encode_txs : List Tx → Result Bytes (List Bytes)
  encode_txs [] = ok []
  encode_txs (tx ∷ txs) = do
    j ← wrap (codes "failed to encode transaction: ") (node.marshal_tx tx)
    js ← encode_txs txs
    ok (j ∷ js)

  unfoldable pending_transactions : B → Result Bytes (List Bytes)
  pending_transactions b = encode_txs (node.buffered b)

  abbrev or_stake : Bytes → Bytes
  or_stake [] = codes "stake"
  or_stake (c ∷ s) = c ∷ s

  unfoldable query_account_balance : Bytes → Bytes → Result Bytes V
  query_account_balance [] denom = err (codes "address field is required")
  query_account_balance (c ∷ address) denom = do
    msg ←
        wrap (codes "failed to query account balance: ")
          (node.query_balance (c ∷ address) (or_stake denom))
    j ← wrap (codes "failed to encode response: ") (node.marshal_answer msg)
    wrap (codes "failed to decode response: ") (node.unmarshal_answer j)

abbrev loaded : Bytes → Result LoadError (IndexedTx TxResult) → Result Bytes QueryTxResponse
loaded hash (ok itx) = do
  result ← get_gordian_response_from_sdk_result itx.result
  ok (record {
    tx_hash = hash;
    height = to_int64 itx.height;
    result = result;
    tx_bytes = itx.tx_bytes;
  })
loaded hash (err e) = panic
loaded hash panic = panic

-- The store is a nil interface if the server was configured with none: then the call is a panic, as is
-- every error of the store.
unfoldable pub query_tx : Option (Store TxResult) → Bytes → Result Bytes QueryTxResponse
query_tx none hash = panic
query_tx (some txs) hash = loaded hash (load_tx_by_hash txs hash)
