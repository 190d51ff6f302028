-- ===== src/Tests/Peers.antt =====
-- Blocks that are fetched from peers.
use gcosmos.Base.{
  ℕ, ◌≡◌, ◌<◌, ◌⊎◌, refl, ok, panic, some, arith, List, [], ◌∷◌, ◌++◌, Bytes, codes, true, false,
  lookup, bytes_key, take, get_elem?, put, remove, nat_key, ◌+◌,
}
use gcosmos.Tests.Fixtures.{api, two_txs, two_id, zeros}
use gcosmos.Tests.Codec.{codec, item}
use gcosmos.Tests.Blocks.{two_decodes, two_decoder, two_decoder_made, two_written}
use gcosmos.Tests.Stores.{no_requests}
use gcosmos.Tests.Wire.{headers, headers-IsJson, encoded, padded_length}
use gcosmos.BlockStore.{BlockDataStore, load_block_data_by_height}
use gcosmos.Catchup.DataHost.{full_block_v1_height_prefix, handle_full_block_stream}
use gcosmos.Catchup.Fetch.{
  FetchResult, fetched, excluded, Replay, refused, applied, do_fetch, do_fetches, wanted,
  next_height,
}
use gcosmos.Catchup.Fetch.Heights.{successes, do_fetches-heights}
use gcosmos.Catchup.Fetch.Laws.{IsBlock, refetch_panics, do_fetch-with_data}
use gcosmos.Catchup.Fetch.Served.{Holds, handle_full_block_stream-IsBlock, large_block_excludes}
use gcosmos.Catchup.Fetch.Sound.{Succeeded, do_fetch-Succeeded}
use gcosmos.Catchup.Peers.{
  State, initial, peer, nothing, Turn, exclude_peer, done, then_turn, excluded_never_given,
}
use gcosmos.DataId.{is_zero_tx_data_id}
use gcosmos.Requests.{RequestCache, set_immediately_available, set_in_flight, allocate}
use gcosmos.Strconv.Integer.{format_uint}

abbrev stored : BlockDataStore
stored = record {
  data_by_height_id = ((3, two_id), two_written) ∷ [];
  height_by_id = (two_id, 3) ∷ [];
  id_by_height = (3, two_id) ∷ [];
}

abbrev stream : ℕ → Bytes
stream pad = encoded (item (two_id ++ zeros pad) two_written) []

abbrev after_first : Bytes
after_first = 14 ∷ b'[' ∷ b']' ∷ 98 ∷ 99 ∷ 0 ∷ 100 ∷ 0 ∷ []

not_zero : is_zero_tx_data_id two_id ≡ false
unfolding is_zero_tx_data_id gcosmos.Strconv.Text.has_suffix gcosmos.Strconv.Text.cut_suffix
not_zero = refl

two_loaded : load_block_data_by_height stored 3 [] ≡ ok (two_id, two_written)
unfolding load_block_data_by_height lookup
two_loaded = refl

two_held :
    (pad : ℕ)
    → Holds codec api (headers pad two_id) stored 3 two_id 0 after_first two_txs (stream pad)
two_held pad = record {
  fits = omega arith;
  loaded = refl;
  b = two_id ++ zeros pad;
  marshalled = refl;
  not_zero = not_zero;
  data_loaded = two_loaded;
  dec = two_decoder;
  id_parsed = two_decoder_made;
  decodes = two_decodes;
  j = item (two_id ++ zeros pad) two_written;
  block_marshalled = refl;
  stream_is = refl;
}

abbrev applies : Bytes → Replay
applies h = applied

abbrev refuses : Bytes → Replay
refuses h = refused

handle_full_block_stream-IsBlock_example :
    (handle_full_block_stream
        (headers 0 two_id)
        stored
        (full_block_v1_height_prefix ++ format_uint 10 3)
      ≡ ok (stream 0))
    × IsBlock codec api (headers 0 two_id) applies (stream 0) two_id two_written two_txs
handle_full_block_stream-IsBlock_example =
    handle_full_block_stream-IsBlock codec api (headers 0 two_id) applies stored 3 two_id 0
      after_first two_txs (stream 0) (headers-IsJson 0 two_id) (two_held 0) (omega arith)

large_block_excludes_example :
    do_fetch codec api (headers 16400 two_id) applies (some (stream 16400)) no_requests
    ≡ ok (excluded, no_requests)
large_block_excludes_example =
    large_block_excludes codec api (headers 16400 two_id) applies stored 3 two_id 0 after_first
      two_txs (stream 16400) no_requests (headers-IsJson 16400 two_id) (two_held 16400)
      (omega (arith, padded_length 16400 two_id two_written))

served :
    (engine : Bytes → Replay)
    → IsBlock codec api (headers 0 two_id) engine (stream 0) two_id two_written two_txs
served engine =
    (handle_full_block_stream-IsBlock codec api (headers 0 two_id) engine stored 3 two_id 0
      after_first two_txs (stream 0) (headers-IsJson 0 two_id) (two_held 0) (omega arith)).1

abbrev with_two : RequestCache Bytes
with_two = record {
  rs = (two_id, some 0) ∷ [];
  heap =
      (0, record { ready = true; transactions = two_txs; encoded_transactions = two_written }) ∷ [];
  next = 1;
}

two_added : set_immediately_available two_id two_txs two_written no_requests ≡ ok with_two
unfolding set_immediately_available set_in_flight allocate lookup put remove
two_added = refl

refetch_panics_example :
    (do_fetch codec api (headers 0 two_id) refuses (some (stream 0)) no_requests
      ≡ ok (excluded, with_two))
    × (do_fetch codec api (headers 0 two_id) refuses (some (stream 0)) with_two ≡ panic)
refetch_panics_example =
    refetch_panics codec api (headers 0 two_id) refuses (stream 0) two_id 0 after_first two_txs
      no_requests with_two (served refuses) refl two_added

two_fetched :
    do_fetch codec api (headers 0 two_id) applies (some (stream 0)) no_requests
    ≡ ok (fetched, with_two)
two_fetched =
    rw
      (
        do_fetch-with_data codec api (headers 0 two_id) applies (stream 0) two_id 0 after_first
            two_txs no_requests (served applies),
        two_added,
      )
      refl

do_fetch-Succeeded_example :
    (s : Bytes) × (some (stream 0) ≡ some s)
    × Succeeded codec api (headers 0 two_id) applies s no_requests with_two
do_fetch-Succeeded_example =
    do_fetch-Succeeded codec api (headers 0 two_id) applies (some (stream 0)) no_requests with_two
      two_fetched

abbrev fetches : List FetchResult
fetches = fetched ∷ excluded ∷ fetched ∷ []

third_height : get_elem? (do_fetches 9 7 fetches) 2 ≡ some 8
unfolding do_fetches wanted next_height
third_height = refl

do_fetches-heights_example : (8 ≡ 7 + successes (take 2 fetches)) × ((◌≡◌ {A = ℕ} 9 0) ⊎ (8 < 9))
do_fetches-heights_example = do_fetches-heights 9 7 2 8 fetches (omega arith) third_height

abbrev bad : Bytes
bad = codes "p"

abbrev after_exclusion : State
after_exclusion = record {
  peers = [];
  excluded_peers = (bad, tt) ∷ [];
  blocked = false;
  fetch_ctx = 0;
}

bad_excluded : Turn initial nothing after_exclusion
unfolding put remove
bad_excluded = exclude_peer initial bad

bad_found : lookup bad after_exclusion.excluded_peers ≡ some tt
unfolding lookup
bad_found = refl

excluded_never_given_example : ¬ Turn after_exclusion (peer bad) after_exclusion
excluded_never_given_example =
    excluded_never_given after_exclusion after_exclusion after_exclusion bad
      (then_turn nothing (done initial) bad_excluded) bad_found (done after_exclusion)
