-- ===== src/Tests/Stores.antt =====
-- The stores, the request cache and the transaction buffer's callbacks.
use gcosmos.Base.{
  ℕ, ◌≡◌, ◌≢◌, refl, ok, err, none, some, List, [], ◌∷◌, Bytes, codes, true, if◌then◌else◌,
  bytes_beq, nat_eq, lookup, bytes_key, length, put, remove,
}
use gcosmos.Tests.Fixtures.{api, two_txs, zeros}
use gcosmos.BlockStore.{
  already_have_for_height, BlockDataStore, new_block_data_store, save_block_data,
  load_block_data_by_height, load_block_data_by_id,
}
use gcosmos.BlockStore.Contract.{Entry, find_height, find_id, answer_id, answer_height}
use gcosmos.BlockStore.Refinement.{save_all, entries_after, history_refines}
use gcosmos.Requests.{
  BlockDataRequest, RequestCache, set_immediately_available, set_in_flight, purge, request_at,
  allocate,
}
use gcosmos.Requests.Laws.{IsSound, set_immediately_available_lem, purge_lem}
use gcosmos.TxStore.{
  Store, save_block_result, save_loop, load_tx_by_hash, found, invalid_hash_length,
}
use gcosmos.TxStore.Laws.{load-save, last_with, or_else}

abbrev first_entry : Entry
first_entry = record { height = 3; id = codes "x"; payload = 1 ∷ [] }

abbrev clash : Entry
clash = record { height = 4; id = codes "x"; payload = 2 ∷ [] }

abbrev ops : List Entry
ops = first_entry ∷ clash ∷ []

history_refines_example :
    (load_block_data_by_height (save_all new_block_data_store ops) 3 []
      ≡ answer_id [] (find_height 3 (entries_after [] ops)))
    × (load_block_data_by_id (save_all new_block_data_store ops) (codes "x") []
        ≡ answer_height [] (find_id (codes "x") (entries_after [] ops)))
history_refines_example = history_refines ops 3 (codes "x") []

abbrev one_saved : BlockDataStore
one_saved = record {
  data_by_height_id = ((3, codes "x"), 1 ∷ []) ∷ [];
  height_by_id = (codes "x", 3) ∷ [];
  id_by_height = (3, codes "x") ∷ [];
}

first_saved : save_block_data new_block_data_store 3 (codes "x") (1 ∷ []) ≡ ok one_saved
unfolding save_block_data lookup put remove
first_saved = refl

abbrev long_txs : List Bytes
long_txs = codes "ab" ∷ zeros 32 ∷ []

abbrev results : Store ℕ
results =
    (zeros 32, record { height = 5; tx_bytes = zeros 32; result = 20 })
    ∷ (codes "ab", record { height = 5; tx_bytes = codes "ab"; result = 10 })
    ∷ []

results_saved : save_block_result api [] 5 long_txs (10 ∷ 20 ∷ []) ≡ ok results
unfolding save_block_result save_loop put remove
results_saved = refl

load-save_example : load_tx_by_hash results (zeros 32) ≡ (
    if nat_eq (length (zeros 32)) 32
    then found
        (or_else api (last_with api 5 (zeros 32) long_txs (10 ∷ 20 ∷ [])) (lookup (zeros 32) []))
    else err invalid_hash_length)
load-save_example = load-save api [] results 5 long_txs (10 ∷ 20 ∷ []) (zeros 32) results_saved

abbrev pub no_requests : RequestCache Bytes
no_requests = record { rs = []; heap = []; next = 0 }

pub no_requests-IsSound : IsSound no_requests
unfolding lookup
no_requests-IsSound = record { pointers = λ id p e. cc }

abbrev two_ready : BlockDataRequest Bytes
two_ready = record { ready = true; transactions = two_txs; encoded_transactions = 7 ∷ [] }

abbrev with_two : RequestCache Bytes
with_two = record { rs = (codes "x", some 0) ∷ []; heap = (0, two_ready) ∷ []; next = 1 }

two_added : set_immediately_available (codes "x") two_txs (7 ∷ []) no_requests ≡ ok with_two
unfolding set_immediately_available set_in_flight allocate lookup put remove
two_added = refl

set_immediately_available_lem_example :
    (lookup (codes "x") no_requests.rs ≡ none)
    × (request_at with_two (codes "x") ≡ (
        if bytes_beq (codes "x") (codes "x")
        then some two_ready
        else request_at no_requests (codes "x")))
    × IsSound with_two
set_immediately_available_lem_example =
    set_immediately_available_lem (codes "x") (codes "x") two_txs (7 ∷ []) no_requests with_two
      no_requests-IsSound two_added

with_two-IsSound : IsSound with_two
with_two-IsSound =
    (set_immediately_available_lem (codes "x") (codes "x") two_txs (7 ∷ []) no_requests with_two
      no_requests-IsSound two_added).2

two_purged : purge (codes "x") with_two ≡ ok (record with_two { rs = [] })
unfolding purge lookup remove
two_purged = refl

purge_lem_example :
    (lookup (codes "x") with_two.rs ≢ none)
    × (request_at (record with_two { rs = [] }) (codes "x")
        ≡ (if bytes_beq (codes "x") (codes "x") then none else request_at with_two (codes "x")))
    × IsSound (record with_two { rs = [] })
purge_lem_example =
    purge_lem (codes "x") (codes "x") with_two (record with_two { rs = [] }) with_two-IsSound
      two_purged

second_refused : save_block_data one_saved 3 (codes "y") (2 ∷ []) ≡ err (already_have_for_height 3)
unfolding save_block_data lookup
second_refused = refl
