-- ===== src/Driver/Finalize/Kept.antt =====
-- What tells the engine nothing.
use gcosmos.Base.{
  ℕ, ◌≡◌, inl, inr, refl, ap, sym, ◌∙◌, Bool, List, Option, none, some, arith, Bytes, lookup,
  nat_key, Result, ok, err, panic, Bool-cases,
}
use gcosmos.BlockStore.{BlockDataStore, StoreError, save_block_data}
use gcosmos.Consensus.Consider.{Annotations}
use gcosmos.DataId.{is_zero_tx_data_id}
use gcosmos.Driver.Steps.{Handler, ◌>>=◌, ◌>>◌, pure, need, >>=-post}
use gcosmos.Requests.{BlockDataRequest, RequestCache, get}
use gcosmos.Tx.{TxApi}
use gcosmos.TxStore.{Store, save_block_result}
use gcosmos.Driver.Finalize.{
  BlockRequest, BlockResponse, delivered, deliver, Sdk, FinalizeBlockRequest, FinalizeBlockResponse,
  Driver, Waiting, committed, commit, await_block_data, await_entry, await_found, when_ready, saved,
  save_data, block_txs, rebased, rebase, stored, save_results,
}

module _ {Tx S C R W : Type 0} (sdk : Sdk Tx S C R W) (api : TxApi Tx) (ann : Annotations)
    (is_valid : Bytes → Bool) (chain_id : Bytes) (wait : Waiting Tx) where
  abbrev Handles : Type 0 → Type 0
  Handles A = Handler (Driver Tx R W) A

  pub need-kept :
      {A : Type 0} (o : Option A) (d : Driver Tx R W) → (need o d).1.responses ≡ d.responses
  need-kept none d = refl
  need-kept (some a) d = refl

  pub commit-kept :
      (version : ℕ) (changes : C) (d : Driver Tx R W)
      → (commit sdk api ann is_valid chain_id wait version changes d).1.responses ≡ d.responses
  unfolding commit
  commit-kept version changes d = from (sdk.commit version changes d.world)
    where
      from :
          (o : Option (Bytes × W))
          → (committed sdk api ann is_valid chain_id wait d o).1.responses ≡ d.responses
      from none = refl
      from (some (h, w)) = refl

  pub deliver-kept :
      (block : BlockRequest Tx) (d : Driver Tx R W)
      → (deliver sdk api ann is_valid chain_id wait block d).1.responses ≡ d.responses
  unfolding deliver
  deliver-kept block d = from (sdk.deliver_block block d.world)
    where
      from :
          (o : Option (BlockResponse R × S × W))
          → (delivered sdk api ann is_valid chain_id wait d o).1.responses ≡ d.responses
      from none = refl
      from (some (r, s, w)) = refl

  pub rebase-kept :
      (s : S) (txs : List Tx) (d : Driver Tx R W)
      → (rebase sdk api ann is_valid chain_id wait s txs d).1.responses ≡ d.responses
  unfolding rebase
  rebase-kept s txs d = from (sdk.rebase s txs d.world)
    where
      from :
          (o : Option W)
          → (rebased sdk api ann is_valid chain_id wait d o).1.responses ≡ d.responses
      from none = refl
      from (some w) = refl

  pub save_results-kept :
      (height : ℕ) (txs : List Tx) (results : List R) (d : Driver Tx R W)
      → (save_results sdk api ann is_valid chain_id wait height txs results d).1.responses
        ≡ d.responses
  unfolding save_results
  save_results-kept height txs results d =
      from (save_block_result api d.tx_store height txs results)
    where
      from :
          (o : Result (Unit {0}) (Store R))
          → (stored sdk api ann is_valid chain_id wait d o).1.responses ≡ d.responses
      from (ok s) = refl
      from (err x) = refl
      from panic = refl

  save_data-kept :
      (height : ℕ) (id encoded : Bytes) (d : Driver Tx R W)
      → (save_data sdk api ann is_valid chain_id wait height id encoded d).1.responses ≡ d.responses
  unfolding save_data
  save_data-kept height id encoded d = from (save_block_data d.block_data height id encoded)
    where
      from :
          (o : Result StoreError BlockDataStore)
          → (saved sdk api ann is_valid chain_id wait d o).1.responses ≡ d.responses
      from (ok s) = refl
      from (err x) = refl
      from panic = refl

  when_ready-kept :
      (d : Driver Tx R W) (p : ℕ) (o : Option (RequestCache Tx))
      → (when_ready sdk api ann is_valid chain_id wait d p o).1.responses ≡ d.responses
  when_ready-kept d p none = refl
  when_ready-kept d p (some c) = ground arith

  await_found-kept :
      (d : Driver Tx R W) (p : ℕ) (o : Option (BlockDataRequest Tx))
      → (await_found sdk api ann is_valid chain_id wait d p o).1.responses ≡ d.responses
  await_found-kept d p none = refl
  await_found-kept d p (some req) = elim (Bool-cases req.ready) [
    | inl is_ready ↦ rw is_ready refl
    | inr is_not ↦ rw is_not (when_ready-kept d p wait.cache_when_ready)
  ]

  await_entry-kept :
      (d : Driver Tx R W) (o : Result (Unit {0}) (Option ℕ))
      → (await_entry sdk api ann is_valid chain_id wait d o).1.responses ≡ d.responses
  await_entry-kept d (ok none) = refl
  await_entry-kept d (ok (some p)) = await_found-kept d p (lookup p d.cache.heap)
  await_entry-kept d (err x) = refl
  await_entry-kept d panic = refl

  await_block_data-kept :
      (id : Bytes) (d : Driver Tx R W)
      → (await_block_data sdk api ann is_valid chain_id wait id d).1.responses ≡ d.responses
  unfolding await_block_data
  await_block_data-kept id d = await_entry-kept d (get id d.cache)

  -- A sequence whose first part tells the engine nothing.
  module _ {A B : Type 0} (Q : Driver Tx R W → Type 0) (told : List FinalizeBlockResponse) where
    pub after-kept :
        (m : Handles A) (f : A → Handles B) (d : Driver Tx R W)
        → ((x : Driver Tx R W) → x.responses ≡ told → Q x)
        → (m d).1.responses ≡ d.responses
        → d.responses ≡ told
        → ((a : A) (x : Driver Tx R W) → x.responses ≡ told → Q (f a x).1)
        → Q ((m >>= f) d).1
    after-kept m f d untold kept told_is rest =
        >>=-post Q m f d (untold (m d).1 (kept ∙ told_is))
          (λ a x e. rest a x (sym (ap (λ q. q.1.responses) e) ∙ kept ∙ told_is))

  pub block_txs-kept :
      (req : FinalizeBlockRequest) (d : Driver Tx R W)
      → (block_txs sdk api ann is_valid chain_id wait req d).1.responses ≡ d.responses
  unfolding block_txs
  block_txs-kept req d = elim (Bool-cases (is_zero_tx_data_id req.data_id)) [
    | inl zero_id ↦ rw zero_id refl
    | inr other_id ↦ rw other_id (
        after-kept (λ x. x.responses ≡ d.responses) d.responses
          (await_block_data sdk api ann is_valid chain_id wait req.data_id)
          (λ bdr.
            save_data sdk api ann is_valid chain_id wait req.height req.data_id
              bdr.encoded_transactions
            >> pure bdr.transactions)
          d (λ x e. e) (await_block_data-kept req.data_id d) refl
          (λ bdr x told.
            after-kept (λ x. x.responses ≡ d.responses) d.responses
              (save_data sdk api ann is_valid chain_id wait req.height req.data_id
                bdr.encoded_transactions)
              (λ _. pure bdr.transactions) x (λ x e. e)
              (save_data-kept req.height req.data_id bdr.encoded_transactions x) told (λ _ x e. e)))
  ]
