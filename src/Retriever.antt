-- ===== src/Retriever.antt =====
-- gserver/internal/gsi/pbdretriever.go: one main loop gives fetches of proposed block data to worker
-- goroutines, and completes the requests that others wait for with what the workers bring.
pub mod Turns
pub mod Invariant
pub mod Kept
pub mod Sound
pub mod Workers
use gcosmos.Base.{
  ℕ, suc, ◌+◌, Bool, true, false, List, [], ◌∷◌, ◌++◌, Option, none, some, Bytes, Map, lookup, put,
  remove, nat_key, bytes_key, Result, ok, err, panic, ◌>>=◌, or_fail, if◌then◌else◌,
}
use gcosmos.BlockData.Codecs.{Codecs}
use gcosmos.BlockData.Decoder.{BlockDataDecoder, DecodeError, new_block_data_decoder, decode}
use gcosmos.DataId.{ParseError}
use gcosmos.Provider.{Scheme, Location, invalid_scheme, libp2p_scheme, unknown_scheme}
use gcosmos.Requests.{BlockDataRequest, RequestCache, allocate, set_in_flight}
use gcosmos.Tx.{TxApi}

-- `A` is libp2p's address of a host.
pub record WorkerRequest (A : Type 0) : Type 0 where
  pub data_id : Bytes
  pub addrs : List A

pub record WorkerResult (Tx : Type 0) : Type 0 where
  pub data_id : Bytes
  pub txs : List Tx
  pub encoded_txs : Bytes

-- The main loop's map, the cache it shares, the requests that workers have or will take, and the
-- results on their way back. The channel `Ready` of an entry is that of the request it points to.
pub record Retriever (A Tx : Type 0) : Type 0 where
  pub ifrs : Map Bytes ℕ
  pub cache : RequestCache Tx
  pub requests : List (WorkerRequest A)
  pub results : List (WorkerResult Tx)

pub data RetrieveError : Type 0 where
  bad_metadata no_usable_address : RetrieveError

module _ {Tx : Type 0} where
  abbrev pub in_flight : BlockDataRequest Tx
  in_flight = record { ready = false; transactions = []; encoded_transactions = [] }

  abbrev pub filled : WorkerResult Tx → BlockDataRequest Tx
  filled res = record {
    ready = true;
    transactions = res.txs;
    encoded_transactions = res.encoded_txs;
  }

module _ {A Tx : Type 0} where
  abbrev begun :
      Retriever A Tx
      → WorkerRequest A
      → ℕ
      → Result (Unit {0}) (RequestCache Tx)
      → Result (Unit {0}) (Retriever A Tx)
  begun r req p (ok cache) = ok (record {
    ifrs = put req.data_id p r.ifrs;
    cache = cache;
    requests = r.requests ++ req ∷ [];
    results = r.results;
  })
  begun r req p (err e) = panic
  begun r req p panic = panic

  -- A request from `Retrieve`. It panics if the cache has the data ID.
  unfoldable pub begin_request :
      WorkerRequest A → Retriever A Tx → Result (Unit {0}) (Retriever A Tx)
  begin_request req r =
      begun r req r.cache.next
        (set_in_flight req.data_id (some r.cache.next) (allocate in_flight r.cache))

  -- Closing a channel twice is a panic.
  abbrev pub closed :
      Retriever A Tx
      → WorkerResult Tx
      → ℕ
      → Option (BlockDataRequest Tx)
      → Result (Unit {0}) (Retriever A Tx)
  closed r res p none = panic
  closed r res p (some bdr) =
      if bdr.ready
      then panic
      else ok (record r {
        ifrs = remove res.data_id r.ifrs;
        cache = record r.cache { heap = put p (filled res) r.cache.heap };
      })

  abbrev completed :
      Retriever A Tx → WorkerResult Tx → Option ℕ → Result (Unit {0}) (Retriever A Tx)
  completed r res none = panic
  completed r res (some p) = closed r res p (lookup p r.cache.heap)

  -- A result from a worker. A missing entry is a nil pointer, and a panic.
  pub complete_result : WorkerResult Tx → Retriever A Tx → Result (Unit {0}) (Retriever A Tx)
  complete_result res r = completed r res (lookup res.data_id r.ifrs)

module _ {A : Type 0} where
  -- The addresses that `Retrieve` can use; `address` reads the JSON of one.
  unfoldable pub usable : (Bytes → Option A) → List Location → List A
  usable address [] = []
  usable address (loc ∷ locs) =
      let rest = usable address locs in
      elim loc.scheme [
        | invalid_scheme ↦ rest
        | libp2p_scheme ↦ elim (address loc.addr) [ none ↦ rest | some a ↦ a ∷ rest ]
        | unknown_scheme n ↦ rest
      ]

  abbrev with_addrs : Bytes → List A → Result RetrieveError (WorkerRequest A)
  with_addrs id [] = err no_usable_address
  with_addrs id (a ∷ addrs) = ok (record { data_id = id; addrs = a ∷ addrs })

  -- What `Retrieve` sends to the main loop; `locations` reads the annotation.
  unfoldable pub retrieve :
      (Bytes → Option (List Location))
      → (Bytes → Option A)
      → Bytes
      → Bytes
      → Result RetrieveError (WorkerRequest A)
  retrieve locations address id metadata = do
    locs ← or_fail (locations metadata) bad_metadata
    with_addrs id (usable address locs)

-- How `workerFetchOneP2P` and `workerFetchP2P` end: without the data, `true` for the worker to go on; with
-- the context cancelled, before the data was there or before the main loop took it; or with the
-- result sent.
pub data Fetch (Tx : Type 0) : Type 0 where
  not_done stopped : Fetch Tx
  sent : WorkerResult Tx → Fetch Tx

-- `stream` is what a host sends, if it can be reached, and `tee` the part of it that the decoder's readers
-- take. `live` says whether the context still lasts when the attempt with a host has failed, and `taken`
-- whether the main loop takes its result before the context is cancelled.
module _ (c : Codecs) {A Tx : Type 0} (api : TxApi Tx) (stream : A → Option Bytes)
    (tee : BlockDataDecoder → Bytes → Bytes) (live taken : A → Bool) where
  abbrev pub failed : A → Fetch Tx
  failed addr = if live addr then not_done else stopped

  abbrev pub fetched_one :
      Bytes
      → BlockDataDecoder
      → A
      → Bytes
      → Result DecodeError (List Tx)
      → Result (Unit {0}) (Fetch Tx)
  fetched_one id dec addr s (ok txs) = ok (
      if taken addr
      then sent (record { data_id = id; txs = txs; encoded_txs = tee dec s })
      else stopped)
  fetched_one id dec addr s (err e) = ok (failed addr)
  fetched_one id dec addr s panic = panic

  pub worker_fetch_one_p2p : Bytes → BlockDataDecoder → A → Result (Unit {0}) (Fetch Tx)
  worker_fetch_one_p2p id dec addr = elim (stream addr) [
    | none ↦ ok (failed addr)
    | some s ↦ fetched_one id dec addr s (decode c api dec s)
  ]

  abbrev pub or_next :
      Result (Unit {0}) (Fetch Tx) → Result (Unit {0}) (Fetch Tx) → Result (Unit {0}) (Fetch Tx)
  or_next (ok not_done) rest = rest
  or_next (ok stopped) rest = ok stopped
  or_next (ok (sent res)) rest = ok (sent res)
  or_next (err e) rest = err e
  or_next panic rest = panic

  pub fetch_addrs : Bytes → BlockDataDecoder → List A → Result (Unit {0}) (Fetch Tx)
  fetch_addrs id dec [] = ok not_done
  fetch_addrs id dec (addr ∷ addrs) =
      or_next (worker_fetch_one_p2p id dec addr) (fetch_addrs id dec addrs)

  abbrev with_dec :
      WorkerRequest A → List A → Result ParseError BlockDataDecoder → Result (Unit {0}) (Fetch Tx)
  with_dec req addrs (ok dec) = fetch_addrs req.data_id dec addrs
  with_dec req addrs (err e) = panic
  with_dec req addrs panic = panic

  -- `addrs` are the shuffled addresses of the request. An ID that is not one is a panic.
  pub worker_fetch_p2p : WorkerRequest A → List A → Result (Unit {0}) (Fetch Tx)
  worker_fetch_p2p req addrs = with_dec req addrs (new_block_data_decoder req.data_id)
