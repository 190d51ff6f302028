-- ===== src/Catchup/Fetch.antt =====
-- `doFetch` and `doFetches` of gserver/internal/gp2papi/catchupclient.go.
pub mod Laws
pub mod Sound
pub mod Served
pub mod Heights
use gcosmos.Base.{
  ℕ, zero, suc, ◌+◌, ◌%◌, ◌^◌, Bool, true, false, not, ◌&&◌, ◌||◌, List, [], ◌∷◌, ◌++◌, Option,
  none, some, Bytes, codes, take, length, nat_eq, ltb, if◌then◌else◌, Result, ok, err, panic,
}
use gcosmos.BlockData.Codecs.{Codecs}
use gcosmos.BlockData.Decoder.{BlockDataDecoder, DecodeError, new_block_data_decoder, decode}
use gcosmos.DataId.{ParseError, is_zero_tx_data_id}
use gcosmos.Requests.{RequestCache, set_immediately_available}
use gcosmos.Tx.{TxApi}
use gcosmos.Catchup.DataHost.{Headers, JsonResult, FullBlockResult}

pub record FetchResult : Type 0 where
  pub success : Bool
  pub exclude_peer : Bool

abbrev pub fetched : FetchResult
fetched = record { success = true; exclude_peer = false }

abbrev pub excluded : FetchResult
excluded = record { success = false; exclude_peer = true }

abbrev retried : FetchResult
retried = record { success = false; exclude_peer = false }

abbrev pub response_limit : ℕ
response_limit = 16384

-- How the engine answers a replayed header: not at all, because the context was cancelled, or with or
-- without an error.
pub data Replay : Type 0 where
  cancelled refused applied : Replay

module _ (c : Codecs) {Tx H : Type 0} (api : TxApi Tx) (hs : Headers H) (engine : H → Replay) where
  abbrev Fetched : Type 0
  Fetched = Result (Unit {0}) (FetchResult × RequestCache Tx)

  abbrev pub replayed : RequestCache Tx → Replay → Fetched
  replayed cache cancelled = ok (retried, cache)
  replayed cache refused = ok (excluded, cache)
  replayed cache applied = ok (fetched, cache)

  abbrev pub cached : H → Result (Unit {0}) (RequestCache Tx) → Fetched
  cached h (ok cache) = replayed cache (engine h)
  cached h (err e) = panic
  cached h panic = panic

  abbrev pub decoded : H → Bytes → RequestCache Tx → Result DecodeError (List Tx) → Fetched
  decoded h bd cache (ok txs) = cached h (set_immediately_available (hs.data_id h) txs bd cache)
  decoded h bd cache (err e) = ok (excluded, cache)
  decoded h bd cache panic = panic

  abbrev pub with_decoder :
      H → Bytes → RequestCache Tx → Result ParseError BlockDataDecoder → Fetched
  with_decoder h bd cache (ok dec) = decoded h bd cache (decode c api dec bd)
  with_decoder h bd cache (err e) = ok (excluded, cache)
  with_decoder h bd cache panic = panic

  -- Empty data must go with the zero data ID, and only with it.
  abbrev pub with_header : Bytes → RequestCache Tx → Option H → Fetched
  with_header bd cache none = ok (excluded, cache)
  with_header [] cache (some h) =
      if is_zero_tx_data_id (hs.data_id h) then replayed cache (engine h) else ok (excluded, cache)
  with_header (b ∷ bd) cache (some h) =
      if is_zero_tx_data_id (hs.data_id h)
      then ok (excluded, cache)
      else with_decoder h (b ∷ bd) cache (new_block_data_decoder (hs.data_id h))

  abbrev pub with_block : RequestCache Tx → Option FullBlockResult → Fetched
  with_block cache none = ok (excluded, cache)
  with_block cache (some fbr) = with_header fbr.block_data cache (hs.unmarshal fbr.header)

  abbrev pub no_error : RequestCache Tx → Bytes → Bytes → Fetched
  no_error cache result [] = with_block cache (hs.unmarshal_block result)
  no_error cache result (e ∷ error) = ok (retried, cache)

  abbrev pub with_result : RequestCache Tx → Option JsonResult → Fetched
  with_result cache none = ok (excluded, cache)
  with_result cache (some res) = no_error cache res.result res.error

  abbrev with_stream : RequestCache Tx → Option Bytes → Fetched
  with_stream cache none = ok (excluded, cache)
  with_stream cache (some stream) =
      with_result cache (hs.decode_result (take response_limit stream))

  -- One fetch, by what the peer sends on its stream, if one can be opened.
  pub do_fetch : Option Bytes → RequestCache Tx → Fetched
  do_fetch stream cache = with_stream cache stream

-- Whether `doFetches` has a height to fetch.
unfoldable pub wanted : ℕ → ℕ → Bool
wanted stop height = nat_eq stop 0 || (ltb 0 stop && ltb height stop)

-- The height after a fetch: only a success moves on, and an excluded peer does not count as one.
unfoldable pub next_height : ℕ → FetchResult → ℕ
next_height height res =
    if res.exclude_peer then height else if not res.success then height else suc height % 2 ^ 64

-- `doFetches` over the results of its fetches: the heights it asked for, in order.
unfoldable pub do_fetches : ℕ → ℕ → List FetchResult → List ℕ
do_fetches stop height [] = []
do_fetches stop height (res ∷ results) =
    let rest = do_fetches stop (next_height height res) results in
    if wanted stop height then height ∷ rest else []
