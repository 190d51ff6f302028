-- ===== src/Driver/Finalize/Ran.antt =====
-- The part of a later finalization from the block's transactions on.
use gcosmos.Base.{ℕ, ◌≡◌, refl, Bool, List, [], ◌∷◌, ◌++◌, some, Bytes, nat_key, ok}
use gcosmos.Consensus.Consider.{Annotations, block_time}
use gcosmos.Driver.Steps.{go, Handler, ◌>>=◌, ◌>>◌, need, ask, >>=-eq-go, need-eq-go}
use gcosmos.Driver.Validators.{update_validators}
use gcosmos.Tx.{TxApi}
use gcosmos.TxStore.{Store, save_block_result}
use gcosmos.Driver.Finalize.{
  BlockRequest, BlockResponse, Sdk, FinalizeBlockRequest, FinalizeBlockResponse, Driver, Waiting,
  send_response, commit, deliver, block_txs, rebase, save_results, response, finalize_later,
}
use gcosmos.Driver.Finalize.Parts.{
  commit_lem, deliver_lem, send_response_lem, rebase_lem, save_results_lem,
}

module _ {Tx S C R W : Type 0} (sdk : Sdk Tx S C R W) (api : TxApi Tx) (ann : Annotations)
    (is_valid : Bytes → Bool) (chain_id : Bytes) (wait : Waiting Tx) where
  abbrev pub block : FinalizeBlockRequest → ℕ → Bytes → List Tx → BlockRequest Tx
  block req time last_hash txs = record {
    height = req.height;
    time = time;
    hash = req.hash;
    app_hash = last_hash;
    chain_id = chain_id;
    txs = txs;
  }

  -- The rest of a later finalization, from the block's transactions on.
  abbrev pub from_txs :
      FinalizeBlockRequest → Bytes → ℕ → List Tx → Handler (Driver Tx R W) (Unit {0})
  from_txs req last_hash time txs = do
    (resp, state) ← deliver sdk api ann is_valid chain_id wait (block req time last_hash txs)
    rebase sdk api ann is_valid chain_id wait state txs
    changes ← need (sdk.state_changes state)
    app_hash ← commit sdk api ann is_valid chain_id wait req.height changes
    send_response sdk api ann is_valid chain_id wait (
        response sdk api ann is_valid chain_id wait req
          (update_validators is_valid req.next_validators resp.validator_updates) app_hash)
    save_results sdk api ann is_valid chain_id wait req.height txs resp.tx_results

  pub finalize_later-is :
      (req : FinalizeBlockRequest) (d : Driver Tx R W)
      → finalize_later sdk api ann is_valid chain_id wait req d
        ≡ (ask (λ d. sdk.last_commit_hash d.world) >>= λ last_hash.
              need (block_time ann req.annotation) >>= λ time.
              block_txs sdk api ann is_valid chain_id wait req >>= from_txs req last_hash time)
            d
  unfolding finalize_later
  finalize_later-is req d = refl

  -- What the transactions' execution leaves, from the state in which they were found.
  pub record Ran (req : FinalizeBlockRequest) (last_hash : Bytes) (time : ℕ) (txs : List Tx)
      (d d' : Driver Tx R W) : Type 0 where
    pub resp : BlockResponse R
    pub state : S
    pub delivered_world : W
    pub rebased_world : W
    pub changes : C
    pub app_hash : Bytes
    pub delivered :
        sdk.deliver_block (block req time last_hash txs) d.world
        ≡ some (resp, state, delivered_world)
    pub rebased : sdk.rebase state txs delivered_world ≡ some rebased_world
    pub changed : sdk.state_changes state ≡ some changes
    pub committed : sdk.commit req.height changes rebased_world ≡ some (app_hash, d'.world)
    pub data_kept : d'.block_data ≡ d.block_data
    pub results_saved :
        save_block_result api d.tx_store req.height txs resp.tx_results ≡ ok d'.tx_store
    pub answered :
        d'.responses
        ≡ d.responses
          ++ response sdk api ann is_valid chain_id wait req
              (update_validators is_valid req.next_validators resp.validator_updates)
              app_hash
            ∷ []

  Ran-from :
      (req : FinalizeBlockRequest) (last_hash : Bytes) (time : ℕ) (txs : List Tx)
      (d d₀ d₁ d₂ d₃ d₄ d' : Driver Tx R W) (resp : BlockResponse R) (state : S) (w₀ w₁ : W)
      (changes : C) (app_hash : Bytes) (w₃ : W) (s : Store R)
      → sdk.deliver_block (block req time last_hash txs) d.world ≡ some (resp, state, w₀)
      → d₀ ≡ record d { world = w₀ }
      → sdk.rebase state txs d₀.world ≡ some w₁
      → d₁ ≡ record d₀ { world = w₁ }
      → sdk.state_changes state ≡ some changes
      → d₁ ≡ d₂
      → sdk.commit req.height changes d₂.world ≡ some (app_hash, w₃)
      → d₃ ≡ record d₂ { world = w₃ }
      → d₄ ≡ record d₃ {
        responses =
            d₃.responses
            ++ response sdk api ann is_valid chain_id wait req
                (update_validators is_valid req.next_validators resp.validator_updates)
                app_hash
              ∷ [];
      }
      → save_block_result api d₄.tx_store req.height txs resp.tx_results ≡ ok s
      → d' ≡ record d₄ { tx_store = s }
      → Ran req last_hash time txs d d'
  Ran-from req last_hash time txs d d₀ d₁ d₂ d₃ d₄ d' resp state w₀ w₁ changes app_hash w₃ s
        delivered same₀ rebased same₁ changed same₂ committed same₃ same₄ saved same₅ =
      record {
        resp = resp;
        state = state;
        delivered_world = w₀;
        rebased_world = w₁;
        changes = changes;
        app_hash = app_hash;
        delivered = delivered;
        rebased = cc;
        changed = changed;
        committed = cc;
        data_kept = cc;
        results_saved = cc;
        answered = cc;
      }

  pub from_txs_lem :
      (req : FinalizeBlockRequest) (last_hash : Bytes) (time : ℕ) (txs : List Tx)
      (d d' : Driver Tx R W) {u : Unit {0}}
      → from_txs req last_hash time txs d ≡ (go u, d')
      → Ran req last_hash time txs d d'
  from_txs_lem req last_hash time txs d d' e =
      let answer : BlockResponse R → Bytes → FinalizeBlockResponse = λ resp app_hash.
        response sdk api ann is_valid chain_id wait req
          (update_validators is_valid req.next_validators resp.validator_updates) app_hash in
      let save : BlockResponse R → Handler (Driver Tx R W) (Unit {0}) =
        λ resp. save_results sdk api ann is_valid chain_id wait req.height txs resp.tx_results in
      let send : BlockResponse R → Bytes → Handler (Driver Tx R W) (Unit {0}) = λ resp app_hash.
        send_response sdk api ann is_valid chain_id wait (answer resp app_hash) >> save resp in
      let commits : BlockResponse R → C → Handler (Driver Tx R W) (Unit {0}) = λ resp changes.
        commit sdk api ann is_valid chain_id wait req.height changes >>= send resp in
      let change : BlockResponse R → S → Handler (Driver Tx R W) (Unit {0}) =
        λ resp state. need (sdk.state_changes state) >>= commits resp in
      let ((resp, state), d₀, e₀, k₀) =
        >>=-eq-go (deliver sdk api ann is_valid chain_id wait (block req time last_hash txs))
          (λ (resp, state).
            rebase sdk api ann is_valid chain_id wait state txs >> change resp state)
          d e in
      let (w₀, delivered, same₀) =
        deliver_lem sdk api ann is_valid chain_id wait (block req time last_hash txs) d d₀ resp
          state e₀ in
      let (u₁, d₁, e₁, k₁) =
        >>=-eq-go (rebase sdk api ann is_valid chain_id wait state txs) (λ _. change resp state) d₀
          k₀ in
      let (w₁, rebased, same₁) = rebase_lem sdk api ann is_valid chain_id wait state txs d₀ d₁ e₁ in
      let (changes, d₂, e₂, k₂) = >>=-eq-go (need (sdk.state_changes state)) (commits resp) d₁ k₁ in
      let (changed, same₂) = need-eq-go (sdk.state_changes state) d₁ e₂ in
      let (app_hash, d₃, e₃, k₃) =
        >>=-eq-go (commit sdk api ann is_valid chain_id wait req.height changes) (send resp) d₂
          k₂ in
      let (w₃, committed, same₃) =
        commit_lem sdk api ann is_valid chain_id wait req.height changes d₂ d₃ app_hash e₃ in
      let (u₄, d₄, e₄, k₄) =
        >>=-eq-go (send_response sdk api ann is_valid chain_id wait (answer resp app_hash))
          (λ _. save resp) d₃ k₃ in
      let same₄ =
        send_response_lem sdk api ann is_valid chain_id wait (answer resp app_hash) d₃ d₄ e₄ in
      let (s, saved, same₅) =
        save_results_lem sdk api ann is_valid chain_id wait req.height txs resp.tx_results d₄ d'
          k₄ in
      Ran-from req last_hash time txs d d₀ d₁ d₂ d₃ d₄ d' resp state w₀ w₁ changes app_hash w₃ s
        delivered same₀ rebased same₁ changed same₂ committed same₃ same₄ saved same₅
