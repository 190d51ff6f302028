-- ===== src/Retriever/Invariant.antt =====
-- The invariant of the retriever, and that a new request keeps it.
use gcosmos.Base.{
  ℕ, suc, ◌+◌, ◌≤◌, ◌<◌, ◌≡◌, Bool, true, false, not, [], ◌∷◌, ◌++◌, Option, none, some, arith,
  Bytes, lookup, put, remove, lookup-put, nat_key, bytes_key, bytes_beq_iff, ok, Option-cases, inl,
  inr,
}
use gcosmos.Requests.{BlockDataRequest, allocate, set_in_flight}
use gcosmos.Retriever.{
  WorkerRequest, WorkerResult, Retriever, in_flight, begin_request, filled, complete_result,
}
use gcosmos.Retriever.Turns.{request_count, request_count-append, result_count}

-- An object that is there, and whose channel is open.
abbrev pub waits : {Tx : Type 0} → Option (BlockDataRequest Tx) → Bool
waits none = false
waits (some bdr) = not bdr.ready

module _ {A Tx : Type 0} where
  -- How often the data ID is with the workers or on the way back.
  abbrev outstanding : Bytes → Retriever A Tx → ℕ
  outstanding id r = request_count id r.requests + result_count id r.results

  pub record IsSound (r : Retriever A Tx) : Type 0 where
    pub once : (id : Bytes) → outstanding id r ≤ 1
    pub absent : (id : Bytes) → lookup id r.ifrs ≡ none → outstanding id r ≡ 0
    pub entry :
        (id : Bytes) (p : ℕ) → lookup id r.ifrs ≡ some p → lookup id r.cache.rs ≡ some (some p)
    pub distinct :
        (id j : Bytes) (p : ℕ) → lookup id r.ifrs ≡ some p → lookup j r.ifrs ≡ some p → id ≡ j
    pub allocated : (id : Bytes) (p : ℕ) → lookup id r.ifrs ≡ some p → p < r.cache.next
    pub waiting :
        (id : Bytes) (p : ℕ) → lookup id r.ifrs ≡ some p → waits (lookup p r.cache.heap) ≡ true

  begin_request_lem :
      (req : WorkerRequest A) (r r' : Retriever A Tx)
      → begin_request req r ≡ ok r'
      → (lookup req.data_id r.cache.rs ≡ none)
        × (r' ≡ record {
          ifrs = put req.data_id r.cache.next r.ifrs;
          cache = record {
            rs = put req.data_id (some r.cache.next) r.cache.rs;
            heap = put r.cache.next in_flight r.cache.heap;
            next = suc r.cache.next;
          };
          requests = r.requests ++ req ∷ [];
          results = r.results;
        })
  unfolding begin_request set_in_flight allocate
  begin_request_lem req r r' e = elim (Option-cases (lookup req.data_id r.cache.rs)) [
    | inl free ↦ (free, ground arith)
    | inr (old, taken) ↦ absurd (ground arith)
  ]

  -- What completing a result leaves.
  abbrev pub after_result : Retriever A Tx → WorkerResult Tx → ℕ → Retriever A Tx
  after_result r res p = record r {
    ifrs = remove res.data_id r.ifrs;
    cache = record r.cache { heap = put p (filled res) r.cache.heap };
  }

  pub complete_result_lem :
      (res : WorkerResult Tx) (r r' : Retriever A Tx)
      → complete_result res r ≡ ok r'
      → (p : ℕ) × (lookup res.data_id r.ifrs ≡ some p) × (r' ≡ after_result r res p)
  unfolding complete_result
  complete_result_lem res r r' e = elim (Option-cases (lookup res.data_id r.ifrs)) [
    | inl missing ↦ absurd (ground arith)
    | inr (p, found) ↦ elim (Option-cases (lookup p r.cache.heap)) [
      | inl missing ↦ absurd (ground arith)
      | inr (bdr, at) ↦ (p, found, ground arith)
    ]
  ]

  pub begins-IsSound :
      (req : WorkerRequest A) (r r' : Retriever A Tx)
      → begin_request req r ≡ ok r'
      → IsSound r
      → IsSound r'
  begins-IsSound req r r' e h =
      let (free, is) = begin_request_lem req r r' e in
      let new : lookup req.data_id r.ifrs ≡ none = elim (Option-cases (lookup req.data_id r.ifrs)) [
        | inl missing ↦ missing
        | inr (p, found) ↦ absurd (ground (arith, h.entry req.data_id p))
      ] in
      rw is (record {
        once = λ id. ground (
          arith,
          h.once id,
          h.absent req.data_id,
          request_count-append id r.requests (req ∷ []),
          bytes_beq_iff id req.data_id,
        );
        absent = λ id gone. ground (
          arith,
          h.absent id,
          request_count-append id r.requests (req ∷ []),
          lookup-put req.data_id id r.cache.next r.ifrs,
          bytes_beq_iff req.data_id id,
          bytes_beq_iff id req.data_id,
        );
        entry = λ id p at. ground (
          arith,
          h.entry id p,
          lookup-put req.data_id id r.cache.next r.ifrs,
          lookup-put req.data_id id (some r.cache.next) r.cache.rs,
        );
        distinct = λ id j p at at'. ground (
          arith,
          h.distinct id j p,
          h.allocated id p,
          h.allocated j p,
          lookup-put req.data_id id r.cache.next r.ifrs,
          lookup-put req.data_id j r.cache.next r.ifrs,
          bytes_beq_iff req.data_id id,
          bytes_beq_iff req.data_id j,
        );
        allocated = λ id p at.
            ground (arith, h.allocated id p, lookup-put req.data_id id r.cache.next r.ifrs);
        waiting = λ id p at. ground (
          arith,
          h.waiting id p,
          h.allocated id p,
          lookup-put req.data_id id r.cache.next r.ifrs,
          lookup-put r.cache.next p (in_flight {Tx = Tx}) r.cache.heap,
        );
      })
