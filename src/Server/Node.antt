-- ===== src/Server/Node.antt =====
-- What gserver/internal/gsi/http.go and gserver/internal/ggrpc/server.go are configured with: Gordian's
-- stores and key registry, the SDK's application manager and codecs, and the transaction buffer. They are
-- other modules' code. An error value is its text.
use gcosmos.Base.{ℕ, List, Option, Bytes, Result}
use gcosmos.Consensus.Proposer.{Validator}

pub record HeightRound : Type 0 where
  pub voting_height : ℕ
  pub voting_round : ℕ
  pub committing_height : ℕ
  pub committing_round : ℕ

pub record Attribute : Type 0 where
  pub key : Bytes
  pub value : Bytes

-- An event of the SDK; reading its attributes may fail.
pub record CoreEvent : Type 0 where
  pub type_name : Bytes
  pub attributes : Result Bytes (List Attribute)

-- The fields of the SDK's `TxResult` that the code reads.
pub record TxResult : Type 0 where
  pub events : List CoreEvent
  pub gas_wanted : ℕ
  pub gas_used : ℕ
  pub error : Option Bytes

-- `Q` is the answer to a balance query, `V` that answer as the gRPC server reads it from JSON, and `B` the
-- transaction buffer, which an `AddTx` that fails leaves alone.
pub record Node (Tx B Q V : Type 0) : Type 0 where
  pub network_height_round : Result Bytes HeightRound
  pub load_finalization_by_height : ℕ → Result Bytes (List Validator)
  pub marshal_key : Bytes → Bytes
  pub decode_json : Bytes → Result Bytes Tx
  pub validate_tx : Tx → Result Bytes TxResult
  pub simulate : Tx → Result Bytes TxResult
  pub query_balance : Bytes → Bytes → Result Bytes Q
  pub marshal_answer : Q → Result Bytes Bytes
  pub unmarshal_answer : Bytes → Result Bytes V
  pub add_tx : B → Tx → Result Bytes B
  pub buffered : B → List Tx
  pub marshal_tx : Tx → Result Bytes Bytes
