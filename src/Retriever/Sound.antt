-- ===== src/Retriever/Sound.antt =====
-- Why a result always finds its request: each data ID is with the workers at most once, and only
-- while its request waits in the map.
use gcosmos.Base.{
  ◌≡◌, refl, true, List, [], ◌∷◌, none, some, arith, lookup, lookup-put, lookup-remove, nat_key,
  bytes_key, bytes_beq_iff, ok, Option-cases, inl, inr,
}
use gcosmos.Requests.{RequestCache, request_at}
use gcosmos.Retriever.{WorkerResult, Retriever, filled, complete_result}
use gcosmos.Retriever.Turns.{Turns, done, then_turn}
use gcosmos.Retriever.Invariant.{IsSound, after_result}
use gcosmos.Retriever.Kept.{Turn-IsSound}

module _ {A Tx : Type 0} where
  pub Turns-IsSound : {r r' : Retriever A Tx} → Turns r r' → IsSound r → IsSound r'
  Turns-IsSound (done r) h = h
  Turns-IsSound (then_turn before last) h = Turn-IsSound last (Turns-IsSound before h)

  -- A retriever that starts with an empty map and no work, over any cache.
  abbrev pub initial : RequestCache Tx → Retriever A Tx
  initial cache = record { ifrs = []; cache = cache; requests = []; results = [] }

  pub initial-IsSound : (cache : RequestCache Tx) → IsSound (initial cache)
  unfolding lookup
  initial-IsSound cache = record {
    once = λ id. omega arith;
    absent = λ id e. refl;
    entry = λ id p e. cc;
    distinct = λ id j p e e'. cc;
    allocated = λ id p e. cc;
    waiting = λ id p e. cc;
  }

  -- In any interleaving of the main loop, the workers and other users of the cache, the next result
  -- finds its request open: handling it does not panic, and then those that look the data ID up find
  -- the transactions and the bytes of the result, ready.
  pub complete_result-total :
      (cache : RequestCache Tx) (r : Retriever A Tx) (res : WorkerResult Tx)
      (rest : List (WorkerResult Tx))
      → Turns (initial cache) r
      → r.results ≡ res ∷ rest
      → (r' : Retriever A Tx) × (complete_result res (record r { results = rest }) ≡ ok r')
        × (request_at r'.cache res.data_id
            ≡ some (record {
              ready = true;
              transactions = res.txs;
              encoded_transactions = res.encoded_txs;
            }))
        × (lookup res.data_id r'.ifrs ≡ none)
  unfolding complete_result
  complete_result-total cache r res rest turns e =
      let h = Turns-IsSound turns (initial-IsSound cache) in
      elim (Option-cases (lookup res.data_id r.ifrs)) [
        | inl missing ↦
            absurd (ground (arith, e, h.absent res.data_id, bytes_beq_iff res.data_id res.data_id))
        | inr (p, found) ↦ (
          after_result (record r { results = rest }) res p,
          ground (arith, h.waiting res.data_id p),
          ground (arith, h.entry res.data_id p, lookup-put p p (filled res) r.cache.heap),
          ground (
            arith,
            lookup-remove res.data_id res.data_id r.ifrs,
            bytes_beq_iff res.data_id res.data_id,
          ),
        )
      ]
