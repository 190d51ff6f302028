-- ===== src/Retriever/Kept.antt =====
-- What each turn of the retriever keeps.
use gcosmos.Base.{
  ℕ, suc, ◌≡◌, refl, true, List, [], ◌∷◌, ◌++◌, some, arith, Bytes, lookup, put, lookup-put,
  lookup-remove, nat_key, bytes_key, bytes_beq_iff, ok, Option-cases, inl, inr,
}
use gcosmos.Requests.{
  BlockDataRequest, RequestCache, allocate, set_in_flight, set_immediately_available,
}
use gcosmos.Retriever.{WorkerRequest, WorkerResult, Retriever, filled}
use gcosmos.Retriever.Turns.{
  Turn, begins, worker_fails, worker_succeeds, completes, others, request_count-append,
  result_count-append,
}
use gcosmos.Retriever.Invariant.{IsSound, after_result, complete_result_lem, begins-IsSound}

module _ {A Tx : Type 0} where
  worker_fails-IsSound :
      (r : Retriever A Tx) (before after : List (WorkerRequest A)) (req : WorkerRequest A)
      → r.requests ≡ before ++ req ∷ after
      → IsSound r
      → IsSound (record r { requests = before ++ after })
  worker_fails-IsSound r before after req e h = record {
    once = λ id. ground (
      arith,
      e,
      h.once id,
      request_count-append id before (req ∷ after),
      request_count-append id before after,
    );
    absent = λ id gone. ground (
      arith,
      e,
      h.absent id,
      request_count-append id before (req ∷ after),
      request_count-append id before after,
    );
    entry = h.entry;
    distinct = h.distinct;
    allocated = h.allocated;
    waiting = h.waiting;
  }

  worker_succeeds-IsSound :
      (r : Retriever A Tx) (before after : List (WorkerRequest A)) (req : WorkerRequest A)
      (res : WorkerResult Tx)
      → res.data_id ≡ req.data_id
      → r.requests ≡ before ++ req ∷ after
      → IsSound r
      → IsSound (record r { requests = before ++ after; results = r.results ++ res ∷ [] })
  worker_succeeds-IsSound r before after req res same e h = record {
    once = λ id. ground (
      arith,
      e,
      same,
      h.once id,
      request_count-append id before (req ∷ after),
      request_count-append id before after,
      result_count-append id r.results (res ∷ []),
    );
    absent = λ id gone. ground (
      arith,
      e,
      same,
      h.absent id,
      request_count-append id before (req ∷ after),
      request_count-append id before after,
      result_count-append id r.results (res ∷ []),
    );
    entry = h.entry;
    distinct = h.distinct;
    allocated = h.allocated;
    waiting = h.waiting;
  }

  -- The state in which the head of the results has been received.
  received-IsSound :
      (r : Retriever A Tx) (res : WorkerResult Tx) (rest : List (WorkerResult Tx)) (p : ℕ)
      → r.results ≡ res ∷ rest
      → lookup res.data_id r.ifrs ≡ some p
      → IsSound r
      → IsSound (after_result (record r { results = rest }) res p)
  received-IsSound r res rest p e found h = record {
    once = λ id. ground (arith, e, h.once id);
    absent = λ id gone. ground (
      arith,
      e,
      h.once id,
      h.absent id,
      lookup-remove res.data_id id r.ifrs,
      bytes_beq_iff id res.data_id,
      bytes_beq_iff res.data_id id,
    );
    entry = λ id q at. ground (arith, h.entry id q, lookup-remove res.data_id id r.ifrs);
    distinct = λ id j q at at'. ground (
      arith,
      h.distinct id j q,
      lookup-remove res.data_id id r.ifrs,
      lookup-remove res.data_id j r.ifrs,
    );
    allocated = λ id q at. ground (arith, h.allocated id q, lookup-remove res.data_id id r.ifrs);
    waiting = λ id q at. ground (
      arith,
      h.waiting id q,
      h.distinct id res.data_id q,
      lookup-remove res.data_id id r.ifrs,
      lookup-put p q (filled res) r.cache.heap,
      bytes_beq_iff res.data_id id,
    );
  }

  others-IsSound :
      (r : Retriever A Tx) (id encoded : Bytes) (txs : List Tx) (cache : RequestCache Tx)
      → set_immediately_available id txs encoded r.cache ≡ ok cache
      → IsSound r
      → IsSound (record r { cache = cache })
  unfolding set_immediately_available set_in_flight allocate
  others-IsSound r id encoded txs cache e h =
      let bdr : BlockDataRequest Tx = record {
        ready = true;
        transactions = txs;
        encoded_transactions = encoded;
      } in
      elim (Option-cases (lookup id r.cache.rs)) [
        | inl free ↦
            let is : cache ≡ record {
              rs = put id (some r.cache.next) r.cache.rs;
              heap = put r.cache.next bdr r.cache.heap;
              next = suc r.cache.next;
            } =
              ground arith in
            rw is (record {
              once = h.once;
              absent = h.absent;
              entry = λ j p at. ground (
                arith,
                h.entry j p,
                lookup-put id j (some r.cache.next) r.cache.rs,
                bytes_beq_iff id j,
              );
              distinct = h.distinct;
              allocated = λ j p at. ground (arith, h.allocated j p);
              waiting = λ j p at. ground (
                arith,
                h.waiting j p,
                h.allocated j p,
                lookup-put r.cache.next p bdr r.cache.heap,
              );
            })
        | inr (old, taken) ↦ absurd (ground arith)
      ]

  pub Turn-IsSound : {r r' : Retriever A Tx} → Turn r r' → IsSound r → IsSound r'
  Turn-IsSound (begins req r r' e) h = begins-IsSound req r r' e h
  Turn-IsSound (worker_fails r before after req e) h = worker_fails-IsSound r before after req e h
  Turn-IsSound (worker_succeeds r before after req txs encoded e) h =
      worker_succeeds-IsSound r before after req
        (record { data_id = req.data_id; txs = txs; encoded_txs = encoded }) refl e h
  Turn-IsSound (completes r r' res rest e completed_to) h =
      let (p, found, is) = complete_result_lem res (record r { results = rest }) r' completed_to in
      rw is (received-IsSound r res rest p e found h)
  Turn-IsSound (others r id encoded txs cache e) h = others-IsSound r id encoded txs cache e h
