-- ===== src/Server/Http.antt =====
-- gserver/internal/gsi/http.go and http_debug.go: the handlers of the HTTP server.
pub mod Statuses
pub mod Routes
use gcosmos.Base.{
  ℕ, List, [], ◌∷◌, ◌++◌, map, Option, none, some, Bytes, codes, Result, ok, err, panic, ◌>>=◌,
  ◌>>◌,
}
use gcosmos.Consensus.Proposer.{Validator}
use gcosmos.Server.Json.{uint_field, bytes_field, json_object, json_array}
use gcosmos.Server.Node.{Node, HeightRound, TxResult}

pub record Response : Type 0 where
  pub status : ℕ
  pub body : Bytes

abbrev status_ok : ℕ
status_ok = 200

abbrev bad_request : ℕ
bad_request = 400

abbrev internal_server_error : ℕ
internal_server_error = 500

-- `http.Error` ends the message with a newline.
abbrev pub http_error : Bytes → ℕ → Response
http_error msg status = record { status = status; body = msg ++ codes "\n" }

-- `json.NewEncoder(w).Encode(v)` ends the JSON with a newline. If there is none, nothing is written, and
-- the answer is empty.
abbrev pub encoded : Option Bytes → Response
encoded none = record { status = status_ok; body = [] }
encoded (some j) = record { status = status_ok; body = j ++ codes "\n" }

-- A handler that writes a response and returns early ends in `err` of that response.
abbrev pub or_answer : {A : Type 0} → Result Bytes A → (Bytes → Response) → Result Response A
or_answer (ok a) answer = ok a
or_answer (err e) answer = err (answer e)
or_answer panic answer = panic

-- `http.Error` with the text of the error behind a message.
abbrev with_text : Bytes → ℕ → Bytes → Response
with_text msg status e = http_error (msg ++ e) status

abbrev with_message : Bytes → ℕ → Bytes → Response
with_message msg status e = http_error msg status

-- The response that a handler wrote, and the buffer, which an early return has left alone.
abbrev pub written :
    {B : Type 0} → B → Result Response (Response × B) → Result (Unit {0}) (Response × B)
written b (ok (r, b')) = ok (r, b')
written b (err r) = ok (r, b)
written b panic = panic

abbrev pub read_body : Option Bytes → Result Response Bytes
read_body none = err (http_error (codes "failed to read request body") bad_request)
read_body (some b) = ok b

-- A result that holds an error ends the handler.
abbrev pub no_error : Bytes → Option Bytes → Result Response (Unit {0})
no_error msg none = ok tt
no_error msg (some e) = err (with_text msg bad_request e)

module _ {Tx B Q V : Type 0} (node : Node Tx B Q V) where
  abbrev current_block : HeightRound → Bytes
  current_block hr = json_object (
      uint_field (codes "VotingHeight") hr.voting_height
      ∷ uint_field (codes "VotingRound") hr.voting_round
      ∷ uint_field (codes "CommittingHeight") hr.committing_height
      ∷ uint_field (codes "CommittingRound") hr.committing_round
      ∷ [])

  unfoldable pub handle_blocks_watermark : Result Response Response
  handle_blocks_watermark = do
    hr ← or_answer node.network_height_round (with_text [] internal_server_error)
    ok (encoded (some (current_block hr)))

  abbrev json_validator : Validator → Bytes
  json_validator v = json_object (
      bytes_field (codes "PubKey") (node.marshal_key v.pub_key)
      ∷ uint_field (codes "Power") v.power
      ∷ [])

  abbrev validators_json : ℕ → List Validator → Bytes
  validators_json height vals = json_object (
      uint_field (codes "FinalizationHeight") height
      ∷ (codes "\"Validators\":" ++ json_array (map json_validator vals))
      ∷ [])

  -- The validators at the committing height.
  unfoldable pub handle_validators : Result Response Response
  handle_validators = do
    hr ←
        or_answer node.network_height_round
          (with_text (codes "failed to get committing height: ") internal_server_error)
    vals ←
        or_answer (node.load_finalization_by_height hr.committing_height)
          (with_text (codes "failed to load finalization: ") internal_server_error)
    ok (encoded (some (validators_json hr.committing_height vals)))

  module _ (encode_result : TxResult → Option Bytes) (encode_raw : List Bytes → Option Bytes) where
    abbrev pub submit : B → Option Bytes → Result Response (Response × B)
    submit b body = do
      raw ← read_body body
      tx ←
          or_answer (node.decode_json raw)
            (with_message (codes "failed to decode transaction") bad_request)
      res ← or_answer (node.validate_tx tx) (
          with_message (codes "internal error while attempting to validate transaction")
            internal_server_error)
      no_error (codes "transaction validation failed: ") res.error
      b' ←
          or_answer (node.add_tx b tx)
            (with_text (codes "failed to add transaction to buffer: ") bad_request)
      ok (encoded (encode_result res), b')

    unfoldable pub handle_submit_tx : B → Option Bytes → Result (Unit {0}) (Response × B)
    handle_submit_tx b body = written b (submit b body)

    pub handle_simulate_tx : Option Bytes → Result Response Response
    handle_simulate_tx body = do
      raw ← read_body body
      tx ←
          or_answer (node.decode_json raw)
            (with_message (codes "failed to decode transaction") bad_request)
      res ← or_answer (node.simulate tx) (
          with_message (codes "internal error while attempting to simulate transaction")
            internal_server_error)
      no_error (codes "transaction simulation failed: ") res.error
      ok (encoded (encode_result res))

    pub marshal_txs : List Tx → Result Response (List Bytes)
    marshal_txs [] = ok []
    marshal_txs (tx ∷ txs) = do
      j ←
          or_answer (node.marshal_tx tx)
            (with_text (codes "failed to encode transaction: ") internal_server_error)
      js ← marshal_txs txs
      ok (j ∷ js)

    pub handle_pending_txs : B → Result Response Response
    handle_pending_txs b = do js ← marshal_txs (node.buffered b); ok (encoded (encode_raw js))

  pub handle_account_balance : Bytes → Result Response Response
  handle_account_balance id = do
    msg ←
        or_answer (node.query_balance id (codes "stake"))
          (with_message (codes "query failed") bad_request)
    j ←
        or_answer (node.marshal_answer msg)
          (with_text (codes "failed to encode response: ") internal_server_error)
    ok (record { status = status_ok; body = j })
