-- ===== src/Driver/Finalize/Completes.antt =====
-- When `handleFinalization` runs to its end.
use gcosmos.Base.{
  ℕ, ◌≡◌, ◌≢◌, ◌⊎◌, inl, inr, refl, ap, ◌∙◌, Bool, true, false, List, [], none, some, arith, Bytes,
  lookup, put, pair_key, length, nat_key, bytes_key, ok, Bool-cases,
}
use gcosmos.BlockStore.{save_block_data}
use gcosmos.Consensus.Consider.{Annotations, block_time}
use gcosmos.DataId.{is_zero_tx_data_id}
use gcosmos.Driver.Steps.{go, ◌>>◌, pure, >>=-go}
use gcosmos.Requests.{BlockDataRequest, RequestCache, get}
use gcosmos.Tx.{TxApi}
use gcosmos.TxStore.{save_block_result}
use gcosmos.Driver.Finalize.{
  BlockRequest, BlockResponse, Sdk, FinalizeBlockRequest, Driver, Waiting, initial_height,
  send_response, commit, deliver, await_block_data, save_data, block_txs, rebase, save_results,
  finalize_later, handle_finalization,
}
use gcosmos.Driver.Finalize.Done.{Executed, handle_finalization-Executed}
use gcosmos.Driver.Finalize.Ran.{block, from_txs, finalize_later-is}

-- The SDK reports no error, and a result for each transaction of a block.
pub record IsWilling {Tx S C R W : Type 0} (sdk : Sdk Tx S C R W) : Type 0 where
  pub knows_last : (w : W) → (hash : Bytes) × (sdk.last_commit_hash w ≡ some hash)
  pub delivers :
      (b : BlockRequest Tx) (w : W)
      → (resp : BlockResponse R) × (s : S) × (w' : W) × (sdk.deliver_block b w ≡ some (resp, s, w'))
        × (length b.txs ≡ length resp.tx_results)
  pub rebases : (s : S) (txs : List Tx) (w : W) → (w' : W) × (sdk.rebase s txs w ≡ some w')
  pub changes : (s : S) → (c : C) × (sdk.state_changes s ≡ some c)
  pub commits :
      (version : ℕ) (c : C) (w : W)
      → (hash : Bytes) × (w' : W) × (sdk.commit version c w ≡ some (hash, w'))

module _ {Tx S C R W : Type 0} (sdk : Sdk Tx S C R W) (api : TxApi Tx) (ann : Annotations)
    (is_valid : Bytes → Bool) (chain_id : Bytes) (wait : Waiting Tx) where
  -- The request behind a pointer is ready, or becomes so before the context ends.
  abbrev ComesReady : ℕ → Driver Tx R W → Type 0
  ComesReady p d =
      (bdr : BlockDataRequest Tx) × (lookup p d.cache.heap ≡ some bdr)
      × ((bdr.ready ≡ true)
          ⊎ ((c : RequestCache Tx) × (later : BlockDataRequest Tx) × (wait.cache_when_ready
                ≡ some c)
              × (lookup p c.heap ≡ some later)))

  -- The block has no data, or its data is in the cache and not yet in the store.
  abbrev pub HasData : FinalizeBlockRequest → Driver Tx R W → Type 0
  HasData req d =
      (is_zero_tx_data_id req.data_id ≡ true)
      ⊎ ((p : ℕ) × (is_zero_tx_data_id req.data_id ≡ false)
          × (get req.data_id d.cache ≡ ok (some p))
          × ComesReady p d
          × (lookup req.height d.block_data.id_by_height ≡ none)
          × (lookup req.data_id d.block_data.height_by_id ≡ none))

  await_block_data-go :
      (id : Bytes) (d : Driver Tx R W) (p : ℕ)
      → get id d.cache ≡ ok (some p)
      → ComesReady p d
      → (bdr : BlockDataRequest Tx) × (c : RequestCache Tx) × (await_block_data sdk api ann is_valid
            chain_id wait id d
          ≡ (go bdr, record d { cache = c }))
  unfolding await_block_data
  await_block_data-go id d p at (bdr, found, inl is_ready) = (bdr, d.cache, ground arith)
  await_block_data-go id d p at (bdr, found, inr (c, later, woken, then_found)) =
      elim (Bool-cases bdr.ready) [
        | inl is_ready ↦ (bdr, d.cache, ground arith)
        | inr is_not ↦ (later, c, ground arith)
      ]

  save_data-go :
      (height : ℕ) (id encoded : Bytes) (d : Driver Tx R W)
      → lookup height d.block_data.id_by_height ≡ none
      → lookup id d.block_data.height_by_id ≡ none
      → (d' : Driver Tx R W) × (save_data sdk api ann is_valid chain_id wait height id encoded d
          ≡ (go tt, d'))
  unfolding save_data save_block_data
  save_data-go height id encoded d new_height new_id = (
    record d {
      block_data = record {
        data_by_height_id = put (height, id) encoded d.block_data.data_by_height_id;
        height_by_id = put id height d.block_data.height_by_id;
        id_by_height = put height id d.block_data.id_by_height;
      };
    },
    ground arith,
  )

  block_txs-go :
      (req : FinalizeBlockRequest) (d : Driver Tx R W)
      → HasData req d
      → (txs : List Tx) × (d' : Driver Tx R W) × (block_txs sdk api ann is_valid chain_id wait req d
          ≡ (go txs, d'))
  unfolding block_txs
  block_txs-go req d (inl zero) = ([], d, rw zero refl)
  block_txs-go req d (inr (p, data_there, at, comes, new_height, new_id)) =
      let (bdr, c, awaited) = await_block_data-go req.data_id d p at comes in
      let (d', saved) =
        save_data-go req.height req.data_id bdr.encoded_transactions (record d { cache = c })
          new_height new_id in
      (
        bdr.transactions,
        d',
        rw data_there (
            >>=-go (await_block_data sdk api ann is_valid chain_id wait req.data_id)
              (λ bdr.
                save_data sdk api ann is_valid chain_id wait req.height req.data_id
                  bdr.encoded_transactions
                >> pure bdr.transactions)
              d awaited (rw saved refl)),
      )

  from_txs-go :
      (req : FinalizeBlockRequest) (last_hash : Bytes) (time : ℕ) (txs : List Tx)
      (d : Driver Tx R W)
      → IsWilling sdk
      → wait.response_taken ≡ true
      → (from_txs sdk api ann is_valid chain_id wait req last_hash time txs d).0 ≡ go tt
  unfolding deliver rebase commit send_response save_results save_block_result
  from_txs-go req last_hash time txs d willing taken =
      let (resp, s, w₀, delivered, enough) =
        willing.delivers (block sdk api ann is_valid chain_id wait req time last_hash txs)
          d.world in
      let (w, rebased) = willing.rebases s txs w₀ in
      let (c, changed) = willing.changes s in
      let (hash, w', committed) = willing.commits req.height c w in
      rw delivered (rw rebased (rw changed (rw committed (rw taken (ground arith)))))

  -- A block above the initial height is finalized to the end, and so executed, if the SDK reports no
  -- error and a result for each transaction, the annotation has a time, the engine takes the
  -- response, and the block has no data or its data is in the cache, ready or ready before the
  -- context ends, and neither the height nor the ID is in the block store.
  pub handle_finalization-completes :
      (req : FinalizeBlockRequest) (d : Driver Tx R W) (time : ℕ)
      → req.height ≢ initial_height
      → IsWilling sdk
      → block_time ann req.annotation ≡ some time
      → wait.response_taken ≡ true
      → HasData req d
      → (d' : Driver Tx R W) × (handle_finalization sdk api ann is_valid chain_id wait req d
          ≡ (go tt, d'))
        × Executed sdk api ann is_valid chain_id wait req d d'
  unfolding handle_finalization
  handle_finalization-completes req d time is_later willing time_is taken has_data =
      let (last_hash, last_is) = willing.knows_last d.world in
      let (txs, d₁, found) = block_txs-go req d has_data in
      let from = from_txs sdk api ann is_valid chain_id wait req last_hash time txs in
      let d' = (from d₁).1 in
      let ran : from d₁ ≡ (go tt, d') =
        ap (λ x. (x, d')) (from_txs-go req last_hash time txs d₁ willing taken) in
      let later : finalize_later sdk api ann is_valid chain_id wait req d ≡ (go tt, d') =
        finalize_later-is sdk api ann is_valid chain_id wait req d
        ∙ rw last_is (rw time_is (rw found ran)) in
      let done : handle_finalization sdk api ann is_valid chain_id wait req d ≡ (go tt, d') =
        ground arith in
      (
        d',
        done,
        handle_finalization-Executed sdk api ann is_valid chain_id wait req d d' is_later done,
      )
