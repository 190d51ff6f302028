-- ===== src/Driver/Finalize/Parts.antt =====
-- What each part of `handleFinalization` changes when it goes on.
use gcosmos.Base.{
  ℕ, ◌≡◌, refl, Bool, List, [], ◌∷◌, ◌++◌, Option, none, some, arith, Bytes, nat_key, Result, ok,
  err, panic,
}
use gcosmos.Consensus.Consider.{Annotations}
use gcosmos.Driver.Steps.{go}
use gcosmos.Tx.{TxApi}
use gcosmos.TxStore.{Store, save_block_result}
use gcosmos.Driver.Finalize.{
  BlockRequest, BlockResponse, delivered, deliver, Sdk, FinalizeBlockResponse, Driver, Waiting,
  send_response, committed, commit, rebased, rebase, stored, save_results,
}

module _ {Tx S C R W : Type 0} (sdk : Sdk Tx S C R W) (api : TxApi Tx) (ann : Annotations)
    (is_valid : Bytes → Bool) (chain_id : Bytes) (wait : Waiting Tx) where
  pub commit_lem :
      (version : ℕ) (changes : C) (d d' : Driver Tx R W) (hash : Bytes)
      → commit sdk api ann is_valid chain_id wait version changes d ≡ (go hash, d')
      → (w : W) × (sdk.commit version changes d.world ≡ some (hash, w))
        × (d' ≡ record d { world = w })
  unfolding commit
  commit_lem version changes d d' hash e = from (sdk.commit version changes d.world) e
    where
      from :
          (o : Option (Bytes × W))
          → committed sdk api ann is_valid chain_id wait d o ≡ (go hash, d')
          → (w : W) × (o ≡ some (hash, w)) × (d' ≡ record d { world = w })
      from none e = cc
      from (some (h, w)) e = (w, cc, cc)

  pub send_response_lem :
      (r : FinalizeBlockResponse) (d d' : Driver Tx R W) {u : Unit {0}}
      → send_response sdk api ann is_valid chain_id wait r d ≡ (go u, d')
      → d' ≡ record d { responses = d.responses ++ r ∷ [] }
  unfolding send_response
  send_response_lem r d d' e = ground arith

  pub deliver_lem :
      (block : BlockRequest Tx) (d d' : Driver Tx R W) (resp : BlockResponse R) (state : S)
      → deliver sdk api ann is_valid chain_id wait block d ≡ (go (resp, state), d')
      → (w : W) × (sdk.deliver_block block d.world ≡ some (resp, state, w))
        × (d' ≡ record d { world = w })
  unfolding deliver
  deliver_lem block d d' resp state e = from (sdk.deliver_block block d.world) e
    where
      from :
          (o : Option (BlockResponse R × S × W))
          → delivered sdk api ann is_valid chain_id wait d o ≡ (go (resp, state), d')
          → (w : W) × (o ≡ some (resp, state, w)) × (d' ≡ record d { world = w })
      from none e = cc
      from (some (r, s, w)) e = (w, cc, cc)

  pub rebase_lem :
      (s : S) (txs : List Tx) (d d' : Driver Tx R W) {u : Unit {0}}
      → rebase sdk api ann is_valid chain_id wait s txs d ≡ (go u, d')
      → (w : W) × (sdk.rebase s txs d.world ≡ some w) × (d' ≡ record d { world = w })
  unfolding rebase
  rebase_lem s txs d d' {u} e = from (sdk.rebase s txs d.world) e
    where
      from :
          (o : Option W)
          → rebased sdk api ann is_valid chain_id wait d o ≡ (go u, d')
          → (w : W) × (o ≡ some w) × (d' ≡ record d { world = w })
      from none e = cc
      from (some w) e = (w, refl, cc)

  pub save_results_lem :
      (height : ℕ) (txs : List Tx) (results : List R) (d d' : Driver Tx R W) {u : Unit {0}}
      → save_results sdk api ann is_valid chain_id wait height txs results d ≡ (go u, d')
      → (s : Store R) × (save_block_result api d.tx_store height txs results ≡ ok s)
        × (d' ≡ record d { tx_store = s })
  unfolding save_results
  save_results_lem height txs results d d' {u} e =
      from (save_block_result api d.tx_store height txs results) e
    where
      from :
          (o : Result (Unit {0}) (Store R))
          → stored sdk api ann is_valid chain_id wait d o ≡ (go u, d')
          → (s : Store R) × (o ≡ ok s) × (d' ≡ record d { tx_store = s })
      from (ok s) e = (s, refl, cc)
      from (err x) e = cc
      from panic e = cc
