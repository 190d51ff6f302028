-- ===== src/Retriever/Turns.antt =====
-- The retriever's goroutines as steps: each turn of the main loop, a worker that is done, and another
-- user of the cache that adds a request.
use gcosmos.Base.{
  ℕ, suc, ◌+◌, ◌≡◌, List, [], ◌∷◌, ◌++◌, arith, Bytes, nat_key, bytes_key, bytes_beq, if◌then◌else◌,
  ok,
}
use gcosmos.Requests.{RequestCache, set_immediately_available}
use gcosmos.Retriever.{WorkerRequest, WorkerResult, Retriever, begin_request, complete_result}

module _ {A Tx : Type 0} where
  pub data Turn : Retriever A Tx → Retriever A Tx → Type 0 where
    begins :
        (req : WorkerRequest A) (r r' : Retriever A Tx) → begin_request req r ≡ ok r' → Turn r r'
    worker_fails :
        (r : Retriever A Tx) (before after : List (WorkerRequest A)) (req : WorkerRequest A)
        → r.requests ≡ before ++ req ∷ after
        → Turn r (record r { requests = before ++ after })
    worker_succeeds :
        (r : Retriever A Tx) (before after : List (WorkerRequest A)) (req : WorkerRequest A)
        (txs : List Tx) (encoded : Bytes)
        → r.requests ≡ before ++ req ∷ after
        → Turn r (record r {
          requests = before ++ after;
          results =
              r.results ++ record { data_id = req.data_id; txs = txs; encoded_txs = encoded } ∷ [];
        })
    completes :
        (r r' : Retriever A Tx) (res : WorkerResult Tx) (rest : List (WorkerResult Tx))
        → r.results ≡ res ∷ rest
        → complete_result res (record r { results = rest }) ≡ ok r'
        → Turn r r'
    others :
        (r : Retriever A Tx) (id encoded : Bytes) (txs : List Tx) (cache : RequestCache Tx)
        → set_immediately_available id txs encoded r.cache ≡ ok cache
        → Turn r (record r { cache = cache })

  pub data Turns : Retriever A Tx → Retriever A Tx → Type 0 where
    done : (r : Retriever A Tx) → Turns r r
    then_turn : {r r₁ r₂ : Retriever A Tx} → Turns r r₁ → Turn r₁ r₂ → Turns r r₂

module _ {A : Type 0} where
  abbrev pub request_count : Bytes → List (WorkerRequest A) → ℕ
  request_count id [] = 0
  request_count id (req ∷ reqs) =
      if bytes_beq id req.data_id then suc (request_count id reqs) else request_count id reqs

  pub request_count-append :
      (id : Bytes) (xs ys : List (WorkerRequest A))
      → request_count id (xs ++ ys) ≡ request_count id xs + request_count id ys
  request_count-append id [] ys = omega arith
  request_count-append id (x ∷ xs) ys = ground (arith, request_count-append id xs ys)

module _ {Tx : Type 0} where
  abbrev pub result_count : Bytes → List (WorkerResult Tx) → ℕ
  result_count id [] = 0
  result_count id (res ∷ results) =
      if bytes_beq id res.data_id then suc (result_count id results) else result_count id results

  pub result_count-append :
      (id : Bytes) (xs ys : List (WorkerResult Tx))
      → result_count id (xs ++ ys) ≡ result_count id xs + result_count id ys
  result_count-append id [] ys = omega arith
  result_count-append id (x ∷ xs) ys = ground (arith, result_count-append id xs ys)
