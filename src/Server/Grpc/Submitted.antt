-- ===== src/Server/Grpc/Submitted.antt =====
-- What it takes for a transaction to enter the buffer, and that both servers ask for it.
use gcosmos.Base.{
  ◌≡◌, ◌≢◌, inl, inr, ◌⊎◌, Option, none, some, List, [], Bytes, arith, Result, ok, err, panic,
  Result-cases, Option-cases,
}
use gcosmos.Server.Grpc.{
  TxResultResponse, submit_transaction, simulate_transaction, get_gordian_response_from_sdk_result,
  convert_event,
}
use gcosmos.Server.Http.{Response, handle_submit_tx}
use gcosmos.Server.Node.{Node, TxResult}

-- The JSON is a transaction, which is valid, and which the buffer takes.
pub record Accepted {Tx B Q V : Type 0} (node : Node Tx B Q V) (b : B) (raw : Bytes) (b' : B)
    : Type 0 where
  pub tx : Tx
  pub res : TxResult
  pub decoded : node.decode_json raw ≡ ok tx
  validated : node.validate_tx tx ≡ ok res
  pub no_error : res.error ≡ none
  pub added : node.add_tx b tx ≡ ok b'

-- The JSON is a transaction whose simulation has no error.
pub record Simulated {Tx B Q V : Type 0} (node : Node Tx B Q V) (raw : Bytes) : Type 0 where
  pub tx : Tx
  pub res : TxResult
  pub decoded : node.decode_json raw ≡ ok tx
  pub simulated : node.simulate tx ≡ ok res
  pub no_error : res.error ≡ none

-- How far a transaction comes, by the JSON and a check of it: validation or simulation.
pub data Tried {Tx B Q V : Type 0} (node : Node Tx B Q V) (check : Tx → Result Bytes TxResult)
    (raw : Bytes) : Type 0 where
  passed :
      (tx : Tx) (res : TxResult)
      → node.decode_json raw ≡ ok tx
      → check tx ≡ ok res
      → res.error ≡ none
      → Tried node check raw
  undecoded :
      ((e : Bytes) × (node.decode_json raw ≡ err e)) ⊎ (node.decode_json raw ≡ panic)
      → Tried node check raw
  unchecked :
      (tx : Tx)
      → node.decode_json raw ≡ ok tx
      → ((e : Bytes) × (check tx ≡ err e)) ⊎ (check tx ≡ panic)
      → Tried node check raw
  invalid :
      (tx : Tx) (res : TxResult) (e : Bytes)
      → node.decode_json raw ≡ ok tx
      → check tx ≡ ok res
      → res.error ≡ some e
      → Tried node check raw

pub tried :
    {Tx B Q V : Type 0} (node : Node Tx B Q V) (check : Tx → Result Bytes TxResult) (raw : Bytes)
    → Tried node check raw
tried node check raw = elim (Result-cases (node.decode_json raw)) [
  | inr failed ↦ undecoded failed
  | inl (tx, d) ↦ elim (Result-cases (check tx)) [
    | inr failed ↦ unchecked tx d failed
    | inl (res, v) ↦ elim (Option-cases res.error) [
      | inr (e, n) ↦ invalid tx res e d v n
      | inl n ↦ passed tx res d v n
    ]
  ]
]

module _ {Tx B Q V : Type 0} (node : Node Tx B Q V) (encode_result : TxResult → Option Bytes)
    (encode_raw : List Bytes → Option Bytes) where
  same_buffer :
      (b b' : B) (raw : Bytes) (r : Response)
      → handle_submit_tx node encode_result encode_raw b (some raw) ≡ ok (r, b')
      → (submit_transaction node b raw).1 ≡ b'
  unfolding handle_submit_tx submit_transaction
  same_buffer b b' raw r e = ground arith

  ok-Accepted :
      (b b' : B) (raw : Bytes) (r : Response)
      → handle_submit_tx node encode_result encode_raw b (some raw) ≡ ok (r, b')
      → r.status ≡ 200
      → Accepted node b raw b'
  unfolding handle_submit_tx
  ok-Accepted b b' raw r e s = elim (tried node node.validate_tx raw) [
    | undecoded failed ↦ absurd (ground arith)
    | unchecked tx d failed ↦ absurd (ground arith)
    | invalid tx res t d v n ↦ absurd (ground arith)
    | passed tx res d v n ↦ record {
      tx = tx;
      res = res;
      decoded = d;
      validated = v;
      no_error = n;
      added = ground (arith, Result-cases (node.add_tx b tx));
    }
  ]

  Accepted-ok :
      (b b₁ b' : B) (raw : Bytes) (r : Response)
      → handle_submit_tx node encode_result encode_raw b (some raw) ≡ ok (r, b')
      → Accepted node b raw b₁
      → (r.status ≡ 200) × (b' ≡ b₁)
  unfolding handle_submit_tx
  Accepted-ok b b₁ b' raw r e a = ground arith

  refused :
      (b b' : B) (raw : Bytes) (r : Response)
      → handle_submit_tx node encode_result encode_raw b (some raw) ≡ ok (r, b')
      → r.status ≢ 200
      → b' ≡ b
  unfolding handle_submit_tx
  refused b b' raw r e s = ground arith

  -- The two servers agree: wherever the HTTP handler answers a submitted transaction, the gRPC method
  -- leaves the same buffer; the status is 200 exactly if the JSON is a transaction that is valid and that
  -- the buffer takes, which is then the new buffer, and otherwise the buffer is as it was.
  pub submit_agree :
      (b b' : B) (raw : Bytes) (r : Response)
      → handle_submit_tx node encode_result encode_raw b (some raw) ≡ ok (r, b')
      → ((submit_transaction node b raw).1 ≡ b')
        × (r.status ≡ 200 → Accepted node b raw b')
        × ((b₁ : B) → Accepted node b raw b₁ → (r.status ≡ 200) × (b' ≡ b₁))
        × (r.status ≢ 200 → b' ≡ b)
  submit_agree b b' raw r e = (
    same_buffer b b' raw r e,
    ok-Accepted b b' raw r e,
    (λ b₁ a. Accepted-ok b b₁ b' raw r e a),
    refused b b' raw r e,
  )

module _ {Tx B Q V : Type 0} (node : Node Tx B Q V) where
  -- The code of a response is never set.
  response-code :
      (res : TxResult) (r : TxResultResponse)
      → get_gordian_response_from_sdk_result res ≡ ok r
      → r.code ≡ 0
  unfolding get_gordian_response_from_sdk_result
  response-code res r e = ground (arith, Result-cases (convert_event res.events))

  -- A response without an error text is that of a transaction in the buffer.
  pub submitted_lem :
      (b b' : B) (raw : Bytes) (r : TxResultResponse)
      → submit_transaction node b raw ≡ (ok r, b')
      → r.error ≡ []
      → Accepted node b raw b' × (r.code ≡ 0)
  unfolding submit_transaction
  submitted_lem b b' raw r e s = elim (tried node node.validate_tx raw) [
    | undecoded failed ↦ absurd (ground arith)
    | unchecked tx d failed ↦ absurd (ground arith)
    | invalid tx res t d v n ↦ absurd (ground arith)
    | passed tx res d v n ↦ (
      record {
        tx = tx;
        res = res;
        decoded = d;
        validated = v;
        no_error = n;
        added = ground (arith, Result-cases (node.add_tx b tx));
      },
      ground (arith, Result-cases (node.add_tx b tx), response-code res r),
    )
  ]

  -- A response without an error text is that of a simulation without an error.
  pub simulated_lem :
      (raw : Bytes) (r : TxResultResponse)
      → simulate_transaction node raw ≡ ok r
      → r.error ≡ []
      → Simulated node raw
  unfolding simulate_transaction
  simulated_lem raw r e s = elim (tried node node.simulate raw) [
    | undecoded failed ↦ absurd (ground arith)
    | unchecked tx d failed ↦ absurd (ground arith)
    | invalid tx res t d v n ↦ absurd (ground arith)
    | passed tx res d v n ↦ record { tx = tx; res = res; decoded = d; simulated = v; no_error = n }
  ]
