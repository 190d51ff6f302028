-- ===== src/Tests/Retrieval.antt =====
-- The retriever of proposed data.
use gcosmos.Base.{
  nat_eq, Option, Bool, if◌then◌else◌, ℕ, ◌≡◌, refl, ok, none, some, [], ◌∷◌, Bytes, true, false,
  lookup, bytes_key, put, remove, nat_key,
}
use gcosmos.Tests.Fixtures.{two_txs, two_id}
use gcosmos.Tests.Stores.{no_requests}
use gcosmos.Requests.{BlockDataRequest, allocate, set_in_flight, request_at}
use gcosmos.Retriever.{WorkerRequest, WorkerResult, Retriever, begin_request, complete_result}
use gcosmos.Retriever.Sound.{initial, complete_result-total}
use gcosmos.Retriever.Turns.{begins, worker_succeeds, Turns, done, then_turn}
use gcosmos.Tests.Blocks.{two_written}
use gcosmos.BlockData.Decoder.{BlockDataDecoder}

abbrev two_ready : BlockDataRequest Bytes
two_ready = record { ready = true; transactions = two_txs; encoded_transactions = 7 ∷ [] }

abbrev wanted_data : WorkerRequest ℕ
wanted_data = record { data_id = two_id; addrs = 1 ∷ [] }

abbrev in_worker : Retriever ℕ Bytes
in_worker = record {
  ifrs = (two_id, 0) ∷ [];
  cache = record {
    rs = (two_id, some 0) ∷ [];
    heap = (0, record { ready = false; transactions = []; encoded_transactions = [] }) ∷ [];
    next = 1;
  };
  requests = wanted_data ∷ [];
  results = [];
}

abbrev brought : WorkerResult Bytes
brought = record { data_id = two_id; txs = two_txs; encoded_txs = 7 ∷ [] }

abbrev on_the_way : Retriever ℕ Bytes
on_the_way = record in_worker { requests = []; results = brought ∷ [] }

data_begun : begin_request wanted_data (initial no_requests) ≡ ok in_worker
unfolding begin_request set_in_flight allocate lookup put remove
data_begun = refl

data_brought : Turns (initial no_requests) on_the_way
data_brought =
    then_turn
      (then_turn (done (initial no_requests))
        (begins wanted_data (initial no_requests) in_worker data_begun))
      (worker_succeeds in_worker [] [] wanted_data two_txs (7 ∷ []) refl)

complete_result-total_example :
    (r' : Retriever ℕ Bytes) × (complete_result brought (record on_the_way { results = [] })
      ≡ ok r')
    × (request_at r'.cache two_id ≡ some two_ready)
    × (lookup two_id r'.ifrs ≡ none)
complete_result-total_example =
    complete_result-total no_requests on_the_way brought [] data_brought refl

-- The host at the address 1 is down.
abbrev sends : ℕ → Option Bytes
sends a = if nat_eq a 1 then none else some two_written

-- The decoder reads all that the host sends.
abbrev whole : BlockDataDecoder → Bytes → Bytes
whole dec s = s

abbrev always : ℕ → Bool
always a = true
