-- ===== src/Tests/Servers.antt =====
-- The HTTP and gRPC servers.
use gcosmos.Base.{◌≡◌, ◌≢◌, refl, some, List, [], ◌∷◌, Bytes, codes, bytes_key, ok}
use gcosmos.Server.Grpc.{submit_transaction}
use gcosmos.Server.Grpc.Submitted.{Accepted, submit_agree}
use gcosmos.Server.Http.{Response, handle_blocks_watermark, handle_validators, handle_submit_tx}
use gcosmos.Server.Json.{base64}
use gcosmos.Strconv.Integer.{format_uint, emit}
use gcosmos.Tests.Backend.{node, no_json, first_json}

base64_long : base64 (codes "Many") ≡ codes "TWFueQ=="
unfolding base64
base64_long = refl

watermark_json :
    handle_blocks_watermark node
    ≡ ok (record {
      status = 200;
      body =
          codes
            "{\"VotingHeight\":8,\"VotingRound\":1,\"CommittingHeight\":7,\"CommittingRound\":0}\n";
    })
unfolding handle_blocks_watermark format_uint emit
watermark_json = refl

validators_json :
    handle_validators node
    ≡ ok (record {
      status = 200;
      body =
          codes "{\"FinalizationHeight\":7,\"Validators\":[{\"PubKey\":\"TWFu\",\"Power\":10}]}\n";
    })
unfolding handle_validators format_uint emit base64
validators_json = refl

abbrev accepted_response : Response
accepted_response = record { status = 200; body = [] }

submit_accepted :
    handle_submit_tx node no_json first_json [] (some (codes "ab"))
    ≡ ok (accepted_response, codes "ab" ∷ [])
unfolding handle_submit_tx
submit_accepted = refl

submit_agree_example :
    ((submit_transaction node [] (codes "ab")).1 ≡ codes "ab" ∷ [])
    × (accepted_response.status ≡ 200 → Accepted node [] (codes "ab") (codes "ab" ∷ []))
    × ((b₁ : List Bytes)
        → Accepted node [] (codes "ab") b₁
        → (accepted_response.status ≡ 200) × (codes "ab" ∷ [] ≡ b₁))
    × (accepted_response.status ≢ 200 → codes "ab" ∷ [] ≡ [])
submit_agree_example =
    submit_agree node no_json first_json [] (codes "ab" ∷ []) (codes "ab") accepted_response
      submit_accepted

-- A transaction that is not valid stays out of the buffer.
submit_refused :
    handle_submit_tx node no_json first_json [] (some (codes "x"))
    ≡ ok (record { status = 400; body = codes "transaction validation failed: broke\n" }, [])
unfolding handle_submit_tx
submit_refused = refl
