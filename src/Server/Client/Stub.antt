-- ===== src/Server/Client/Stub.antt =====
-- What the generated stub of the gRPC client does: a response that the client gets is one that the server
-- returned, and the call that brought it left the buffer as the server did.
use gcosmos.Base.{◌≡◌, Bytes, ok}
use gcosmos.Server.Client.{GrpcClient}
use gcosmos.Server.Grpc.{TxResultResponse, submit_transaction, simulate_transaction}
use gcosmos.Server.Node.{Node}

pub record IsStub {Tx B Q V : Type 0} (node : Node Tx B Q V) (gclient : GrpcClient B) : Type 0 where
  pub simulate :
      (raw : Bytes) (r : TxResultResponse)
      → gclient.simulate_transaction raw ≡ ok r
      → simulate_transaction node raw ≡ ok r
  pub submit :
      (b b' : B) (raw : Bytes) (r : TxResultResponse)
      → gclient.submit_transaction b raw ≡ (ok r, b')
      → submit_transaction node b raw ≡ (ok r, b')
