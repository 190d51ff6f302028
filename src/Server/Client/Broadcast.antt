-- ===== src/Server/Client/Broadcast.antt =====
-- What a broadcast that succeeds has done.
use gcosmos.Base.{◌≡◌, ◌∙◌, refl, inl, inr, [], Bytes, arith, Result, ok, err, panic, Result-cases}
use gcosmos.Server.Client.{
  GrpcClient, TxConfig, ResultBroadcastTx, simulated, sent, broadcast_tx_sync,
}
use gcosmos.Server.Client.Stub.{IsStub}
use gcosmos.Server.Grpc.{TxResultResponse}
use gcosmos.Server.Grpc.Submitted.{Accepted, Simulated, submitted_lem, simulated_lem}
use gcosmos.Server.Node.{Node}

-- `json` is the transaction as the client wrote it for the server.
pub record Broadcast {Tx B Q V T : Type 0} (node : Node Tx B Q V)
    (context : Result Bytes (TxConfig T)) (hash_of : Bytes → Bytes) (b : B) (tx : Bytes)
    (out : ResultBroadcastTx) (b' : B) : Type 0 where
  pub config : TxConfig T
  pub sdk_tx : T
  pub json : Bytes
  in_context : context ≡ ok config
  pub read : config.decode tx ≡ ok sdk_tx
  pub written : config.encode_json sdk_tx ≡ ok json
  pub accepted : Accepted node b json b'
  pub simulation : Simulated node json
  pub hash : out.hash ≡ hash_of tx
  pub success : out.code ≡ 0

module _ {Tx B Q V T : Type 0} (node : Node Tx B Q V) (gclient : GrpcClient B)
    (context : Result Bytes (TxConfig T)) (hash_of : Bytes → Bytes) where
  sent-ok :
      (b b' : B) (tx : Bytes) (out : ResultBroadcastTx) (m : Result Bytes Bytes)
      → sent gclient context hash_of b tx m ≡ (ok out, b')
      → (json : Bytes) × (r : TxResultResponse) × (m ≡ ok json)
        × (gclient.submit_transaction b json ≡ (ok r, b'))
        × (r.error ≡ [])
        × (out.hash ≡ hash_of tx)
        × (out.code ≡ r.code)
  sent-ok b b' tx out (ok json) e = elim (Result-cases (gclient.submit_transaction b json).0) [
    | inr failed ↦ absurd (ground arith)
    | inl (r, answered) ↦ (json, r, refl, ground arith, ground arith, ground arith, ground arith)
  ]
  sent-ok b b' tx out (err x) e = cc
  sent-ok b b' tx out panic e = cc

  simulated-ok :
      (tx json : Bytes)
      → simulated gclient context hash_of tx ≡ ok json
      → (config : TxConfig T) × (sdk_tx : T) × (r : TxResultResponse) × (context ≡ ok config)
        × (config.decode tx ≡ ok sdk_tx)
        × (config.encode_json sdk_tx ≡ ok json)
        × (gclient.simulate_transaction json ≡ ok r)
        × (r.error ≡ [])
  simulated-ok tx json e = elim (Result-cases context) [
    | inr failed ↦ absurd (ground arith)
    | inl (config, c) ↦ elim (Result-cases (config.decode tx)) [
      | inr failed ↦ absurd (ground arith)
      | inl (sdk_tx, d) ↦ elim (Result-cases (config.encode_json sdk_tx)) [
        | inr failed ↦ absurd (ground arith)
        | inl (j, w) ↦ elim (Result-cases (gclient.simulate_transaction j)) [
          | inr failed ↦ absurd (ground arith)
          | inl (r, s) ↦ (config, sdk_tx, r, c, d, ground arith, ground arith, ground arith)
        ]
      ]
    ]
  ]

  -- A broadcast succeeds only for a transaction that the client can read and write as JSON, whose
  -- simulation on the server has no error, which is valid there, and which the buffer took: the buffer is
  -- then the one that AddTx left. The answer has code 0 and the hash of the transaction's bytes. The stub
  -- brings only responses that the server returned.
  pub broadcast_tx_sync-Broadcast :
      (b b' : B) (tx : Bytes) (out : ResultBroadcastTx)
      → IsStub node gclient
      → broadcast_tx_sync gclient context hash_of b tx ≡ (ok out, b')
      → Broadcast node context hash_of b tx out b'
  unfolding broadcast_tx_sync
  broadcast_tx_sync-Broadcast b b' tx out stub e =
      let (json, r, m, answered, no_text, hash, out_code) =
        sent-ok b b' tx out (simulated gclient context hash_of tx) e in
      let (config, sdk_tx, s, c, d, w, simulation, no_sim_text) = simulated-ok tx json m in
      let (accepted, zero_code) =
        submitted_lem node b b' json r (stub.submit b b' json r answered) no_text in
      record {
        config = config;
        sdk_tx = sdk_tx;
        json = json;
        in_context = c;
        read = d;
        written = w;
        accepted = accepted;
        simulation = simulated_lem node json s (stub.simulate json s simulation) no_sim_text;
        hash = hash;
        success = out_code ∙ zero_code;
      }
