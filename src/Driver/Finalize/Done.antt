-- ===== src/Driver/Finalize/Done.antt =====
-- A finalization that runs to its end: what it asked of the application, in which order, and what it
-- left in the stores.
use gcosmos.Base.{
  ℕ, ◌≡◌, ◌≢◌, ap, sym, ◌∙◌, Bool, List, [], ◌∷◌, ◌++◌, some, arith, Bytes, nat_key, ok,
}
use gcosmos.Consensus.Consider.{Annotations, block_time}
use gcosmos.Driver.Steps.{go, ◌>>=◌, need, ask, >>=-eq-go, need-eq-go}
use gcosmos.Driver.Validators.{update_validators}
use gcosmos.Tx.{TxApi}
use gcosmos.TxStore.{save_block_result}
use gcosmos.Driver.Finalize.{
  BlockResponse, Sdk, FinalizeBlockRequest, FinalizeBlockResponse, Driver, Waiting, initial_height,
  send_response, commit, block_txs, response, finalize_initial, finalize_later, handle_finalization,
}
use gcosmos.Driver.Finalize.Data.{BlockData, block_txs_lem}
use gcosmos.Driver.Finalize.Parts.{commit_lem, send_response_lem}
use gcosmos.Driver.Finalize.Ran.{block, from_txs, finalize_later-is, Ran, from_txs_lem}

module _ {Tx S C R W : Type 0} (sdk : Sdk Tx S C R W) (api : TxApi Tx) (ann : Annotations)
    (is_valid : Bytes → Bool) (chain_id : Bytes) (wait : Waiting Tx) where
  -- The block that the application was given, the state it came to, and the commit of it: each of the
  -- three calls starts from what the one before it left, and no other call changes what they left.
  pub record Executed (req : FinalizeBlockRequest) (d d' : Driver Tx R W) : Type 0 where
    pub last_hash : Bytes
    pub time : ℕ
    pub txs : List Tx
    pub with_data : Driver Tx R W
    pub resp : BlockResponse R
    pub state : S
    pub delivered_world : W
    pub rebased_world : W
    pub changes : C
    pub app_hash : Bytes
    pub last_is : sdk.last_commit_hash d.world ≡ some last_hash
    pub time_is : block_time ann req.annotation ≡ some time
    pub txs_from : BlockData sdk api ann is_valid chain_id wait req d txs with_data
    pub delivered :
        sdk.deliver_block (block sdk api ann is_valid chain_id wait req time last_hash txs) d.world
        ≡ some (resp, state, delivered_world)
    pub rebased : sdk.rebase state txs delivered_world ≡ some rebased_world
    pub changed : sdk.state_changes state ≡ some changes
    pub committed : sdk.commit req.height changes rebased_world ≡ some (app_hash, d'.world)
    pub data_kept : d'.block_data ≡ with_data.block_data
    pub results_saved :
        save_block_result api d.tx_store req.height txs resp.tx_results ≡ ok d'.tx_store
    pub answered :
        d'.responses
        ≡ d.responses
          ++ response sdk api ann is_valid chain_id wait req
              (update_validators is_valid req.next_validators resp.validator_updates)
              app_hash
            ∷ []

  Executed-from :
      (req : FinalizeBlockRequest) (last_hash : Bytes) (time : ℕ) (txs : List Tx)
      (d d₁ d' : Driver Tx R W)
      → sdk.last_commit_hash d.world ≡ some last_hash
      → block_time ann req.annotation ≡ some time
      → BlockData sdk api ann is_valid chain_id wait req d txs d₁
      → d₁.world ≡ d.world
      → d₁.tx_store ≡ d.tx_store
      → d₁.responses ≡ d.responses
      → Ran sdk api ann is_valid chain_id wait req last_hash time txs d₁ d'
      → Executed req d d'
  Executed-from req last_hash time txs d d₁ d' last_is time_is from_data same_world same_store
        same_responses ran =
      record {
        last_hash = last_hash;
        time = time;
        txs = txs;
        with_data = d₁;
        resp = ran.resp;
        state = ran.state;
        delivered_world = ran.delivered_world;
        rebased_world = ran.rebased_world;
        changes = ran.changes;
        app_hash = ran.app_hash;
        last_is = last_is;
        time_is = time_is;
        txs_from = from_data;
        delivered = rw (sym same_world) ran.delivered;
        rebased = ran.rebased;
        changed = ran.changed;
        committed = ran.committed;
        data_kept = ran.data_kept;
        results_saved = rw (sym same_store) ran.results_saved;
        answered = rw (sym same_responses) ran.answered;
      }

  -- Between the state that the driver was in and the one it is left in, a block above the initial
  -- height that is finalized to the end was delivered, rebased upon and committed, each once and in this
  -- order: it was delivered with the transactions of its block data (none for the zero ID, otherwise
  -- those of the request behind the ID, whose encoding is saved), the state it came to was rebased upon,
  -- and that state's changes were committed at the block's height. The response carries that commit's
  -- hash, the request's height, round and hash and the updated validators, and the results were saved
  -- under the block's height.
  pub handle_finalization-Executed :
      (req : FinalizeBlockRequest) (d d' : Driver Tx R W)
      → req.height ≢ initial_height
      → handle_finalization sdk api ann is_valid chain_id wait req d ≡ (go tt, d')
      → Executed req d d'
  unfolding handle_finalization
  handle_finalization-Executed req d d' is_later e =
      let later : finalize_later sdk api ann is_valid chain_id wait req d ≡ (go tt, d') =
        ground arith in
      let through : (ask (λ d. sdk.last_commit_hash d.world) >>= λ last_hash.
      need (block_time ann req.annotation) >>= λ time.
      block_txs sdk api ann is_valid chain_id wait req
      >>= from_txs sdk api ann is_valid chain_id wait req last_hash time)
            d
          ≡ (go tt, d') =
        sym (finalize_later-is sdk api ann is_valid chain_id wait req d) ∙ later in
      let (last_hash, d₀, e₀, k₀) =
        >>=-eq-go (ask (λ d. sdk.last_commit_hash d.world))
          (λ last_hash. need (block_time ann req.annotation) >>= λ time.
            block_txs sdk api ann is_valid chain_id wait req
            >>= from_txs sdk api ann is_valid chain_id wait req last_hash time)
          d through in
      let (last_is, same₀) = need-eq-go (sdk.last_commit_hash d.world) d e₀ in
      let (time, d₁, e₁, k₁) =
        >>=-eq-go (need (block_time ann req.annotation))
          (λ time.
            block_txs sdk api ann is_valid chain_id wait req
            >>= from_txs sdk api ann is_valid chain_id wait req last_hash time)
          d₀ k₀ in
      let (time_is, same₁) = need-eq-go (block_time ann req.annotation) d₀ e₁ in
      let (txs, d₂, e₂, k₂) =
        >>=-eq-go (block_txs sdk api ann is_valid chain_id wait req)
          (from_txs sdk api ann is_valid chain_id wait req last_hash time) d₁ k₁ in
      let e₃ : block_txs sdk api ann is_valid chain_id wait req d ≡ (go txs, d₂) =
        ap (block_txs sdk api ann is_valid chain_id wait req) (same₀ ∙ same₁) ∙ e₂ in
      let (from_data, same_world, same_store, same_responses) =
        block_txs_lem sdk api ann is_valid chain_id wait req d d₂ txs e₃ in
      Executed-from req last_hash time txs d d₂ d' last_is time_is from_data same_world same_store
        same_responses
        (from_txs_lem sdk api ann is_valid chain_id wait req last_hash time txs d₂ d' k₂)

  -- A finalization at the initial height that goes on committed no changes at that height,
  -- answered with the hash of that commit and the request's height, round, hash and validators,
  -- and changed nothing else.
  pub handle_finalization-initial :
      (req : FinalizeBlockRequest) (d d' : Driver Tx R W)
      → req.height ≡ initial_height
      → handle_finalization sdk api ann is_valid chain_id wait req d ≡ (go tt, d')
      → (app_hash : Bytes) × (w : W) × (sdk.commit initial_height sdk.empty_changes d.world
          ≡ some (app_hash, w))
        × (d' ≡ record d {
          world = w;
          responses =
              d.responses
              ++ response sdk api ann is_valid chain_id wait req req.next_validators app_hash ∷ [];
        })
  unfolding handle_finalization finalize_initial
  handle_finalization-initial req d d' is_first e =
      let answer : Bytes → FinalizeBlockResponse =
        response sdk api ann is_valid chain_id wait req req.next_validators in
      let first : (commit sdk api ann is_valid chain_id wait initial_height sdk.empty_changes
              >>= λ app_hash. send_response sdk api ann is_valid chain_id wait (answer app_hash))
            d
          ≡ (go tt, d') =
        ground arith in
      let (app_hash, d₁, e₁, k₁) =
        >>=-eq-go (commit sdk api ann is_valid chain_id wait initial_height sdk.empty_changes)
          (λ app_hash. send_response sdk api ann is_valid chain_id wait (answer app_hash)) d
          first in
      let (w, done, same) =
        commit_lem sdk api ann is_valid chain_id wait initial_height sdk.empty_changes d d₁ app_hash
          e₁ in
      let sent = send_response_lem sdk api ann is_valid chain_id wait (answer app_hash) d₁ d' k₁ in
      (
        app_hash,
        w,
        done,
        sent
            ∙ ap {A = Driver Tx R W}
                (λ x. record x { responses = x.responses ++ answer app_hash ∷ [] }) same,
      )
