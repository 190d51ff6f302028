-- ===== src/Driver/Finalize/Answers.antt =====
-- What the engine is told, however a finalization ends.
use gcosmos.Base.{
  ℕ, ◌≡◌, ◌⊎◌, inl, inr, refl, ap, Bool, List, [], ◌∷◌, ◌++◌, Bytes, nat_key, nat_eq, Bool-cases,
}
use gcosmos.Consensus.Consider.{Annotations, block_time}
use gcosmos.Consensus.Proposer.{Validator}
use gcosmos.Driver.Steps.{Handler, ◌>>=◌, ◌>>◌, need, ask, >>=-post}
use gcosmos.Driver.Validators.{update_validators}
use gcosmos.Tx.{TxApi}
use gcosmos.Driver.Finalize.{
  BlockResponse, Sdk, FinalizeBlockRequest, FinalizeBlockResponse, Driver, Waiting, initial_height,
  send_response, commit, deliver, block_txs, rebase, save_results, response, finalize_initial,
  finalize_later, handle_finalization,
}
use gcosmos.Driver.Finalize.Ran.{block, from_txs, finalize_later-is}
use gcosmos.Driver.Finalize.Kept.{
  need-kept, deliver-kept, commit-kept, rebase-kept, save_results-kept, block_txs-kept, after-kept,
}

module _ {Tx S C R W : Type 0} (sdk : Sdk Tx S C R W) (api : TxApi Tx) (ann : Annotations)
    (is_valid : Bytes → Bool) (chain_id : Bytes) (wait : Waiting Tx) where
  abbrev Handles : Type 0 → Type 0
  Handles A = Handler (Driver Tx R W) A

  -- The engine is told nothing, or the answer to the request once.
  abbrev pub Answers : FinalizeBlockRequest → List FinalizeBlockResponse → Driver Tx R W → Type 0
  Answers req told d =
      (d.responses ≡ told)
      ⊎ ((vals : List Validator) × (app_hash : Bytes) × (d.responses
            ≡ told ++ response sdk api ann is_valid chain_id wait req vals app_hash ∷ []))

  send_response-Answers :
      (req : FinalizeBlockRequest) (vals : List Validator) (app_hash : Bytes)
      (told : List FinalizeBlockResponse) (d : Driver Tx R W)
      → d.responses ≡ told
      → Answers req told
          (send_response sdk api ann is_valid chain_id wait
            (response sdk api ann is_valid chain_id wait req vals app_hash)
            d).1
  unfolding send_response
  send_response-Answers req vals app_hash told d told_is = elim (Bool-cases wait.response_taken) [
    | inl taken ↦ inr (
      vals,
      app_hash,
      rw taken (
          ap (λ x. x ++ response sdk api ann is_valid chain_id wait req vals app_hash ∷ [])
            told_is),
    )
    | inr not_taken ↦ inl (rw not_taken told_is)
  ]

  sent_then_saved :
      (req : FinalizeBlockRequest) (vals : List Validator) (app_hash : Bytes) (txs : List Tx)
      (results : List R) (told : List FinalizeBlockResponse) (d : Driver Tx R W)
      → d.responses ≡ told
      → Answers req told
          ((send_response sdk api ann is_valid chain_id wait
                (response sdk api ann is_valid chain_id wait req vals app_hash)
              >> save_results sdk api ann is_valid chain_id wait req.height txs results)
            d).1
  sent_then_saved req vals app_hash txs results told d told_is =
      let answer = response sdk api ann is_valid chain_id wait req vals app_hash in
      let sent = send_response-Answers req vals app_hash told d told_is in
      >>=-post (Answers req told) (send_response sdk api ann is_valid chain_id wait answer)
        (λ _. save_results sdk api ann is_valid chain_id wait req.height txs results) d sent
        (λ u x e.
          let here : Answers req told x = rw (ap (λ q. q.1.responses) e) at sent in
          rw (save_results-kept sdk api ann is_valid chain_id wait req.height txs results x) here)

  from_txs-Answers :
      (req : FinalizeBlockRequest) (last_hash : Bytes) (time : ℕ) (txs : List Tx)
      (told : List FinalizeBlockResponse) (d : Driver Tx R W)
      → d.responses ≡ told
      → Answers req told (from_txs sdk api ann is_valid chain_id wait req last_hash time txs d).1
  from_txs-Answers req last_hash time txs told d told_is =
      let vals : BlockResponse R → List Validator =
        λ resp. update_validators is_valid req.next_validators resp.validator_updates in
      let send : BlockResponse R → Bytes → Handles (Unit {0}) = λ resp app_hash.
        send_response sdk api ann is_valid chain_id wait
          (response sdk api ann is_valid chain_id wait req (vals resp) app_hash)
        >> save_results sdk api ann is_valid chain_id wait req.height txs resp.tx_results in
      let commits : BlockResponse R → C → Handles (Unit {0}) = λ resp changes.
        commit sdk api ann is_valid chain_id wait req.height changes >>= send resp in
      let change : BlockResponse R → S → Handles (Unit {0}) =
        λ resp state. need (sdk.state_changes state) >>= commits resp in
      after-kept sdk api ann is_valid chain_id wait (Answers req told) told
        (deliver sdk api ann is_valid chain_id wait
          (block sdk api ann is_valid chain_id wait req time last_hash txs))
        (λ (resp, state). rebase sdk api ann is_valid chain_id wait state txs >> change resp state)
        d (λ x e. inl e)
        (deliver-kept sdk api ann is_valid chain_id wait
          (block sdk api ann is_valid chain_id wait req time last_hash txs) d)
        told_is
        (λ (resp, state) x e.
          after-kept sdk api ann is_valid chain_id wait (Answers req told) told
            (rebase sdk api ann is_valid chain_id wait state txs) (λ _. change resp state) x
            (λ x e. inl e) (rebase-kept sdk api ann is_valid chain_id wait state txs x) e
            (λ _ x e.
              after-kept sdk api ann is_valid chain_id wait (Answers req told) told
                (need (sdk.state_changes state)) (commits resp) x (λ x e. inl e)
                (need-kept sdk api ann is_valid chain_id wait (sdk.state_changes state) x) e
                (λ changes x e.
                  after-kept sdk api ann is_valid chain_id wait (Answers req told) told
                    (commit sdk api ann is_valid chain_id wait req.height changes) (send resp) x
                    (λ x e. inl e)
                    (commit-kept sdk api ann is_valid chain_id wait req.height changes x) e
                    (λ app_hash x e.
                      sent_then_saved req (vals resp) app_hash txs resp.tx_results told x e))))

  finalize_later-Answers :
      (req : FinalizeBlockRequest) (d : Driver Tx R W)
      → Answers req d.responses (finalize_later sdk api ann is_valid chain_id wait req d).1
  finalize_later-Answers req d =
      let from : Bytes → ℕ → List Tx → Handles (Unit {0}) =
        from_txs sdk api ann is_valid chain_id wait req in
      rw (finalize_later-is sdk api ann is_valid chain_id wait req d) (
        after-kept sdk api ann is_valid chain_id wait (Answers req d.responses) d.responses
          (ask (λ d. sdk.last_commit_hash d.world))
          (λ last_hash. need (block_time ann req.annotation) >>= λ time.
            block_txs sdk api ann is_valid chain_id wait req >>= from last_hash time)
          d (λ x e. inl e)
          (need-kept sdk api ann is_valid chain_id wait (sdk.last_commit_hash d.world) d) refl
          (λ last_hash x e.
            after-kept sdk api ann is_valid chain_id wait (Answers req d.responses) d.responses
              (need (block_time ann req.annotation))
              (λ time. block_txs sdk api ann is_valid chain_id wait req >>= from last_hash time) x
              (λ x e. inl e)
              (need-kept sdk api ann is_valid chain_id wait (block_time ann req.annotation) x) e
              (λ time x e.
                after-kept sdk api ann is_valid chain_id wait (Answers req d.responses) d.responses
                  (block_txs sdk api ann is_valid chain_id wait req) (from last_hash time) x
                  (λ x e. inl e) (block_txs-kept sdk api ann is_valid chain_id wait req x) e
                  (λ txs x e. from_txs-Answers req last_hash time txs d.responses x e))))

  -- However a finalization ends, it tells the engine nothing, or once the height, round and block hash
  -- of the request with some validators and some hash.
  pub handle_finalization-Answers :
      (req : FinalizeBlockRequest) (d : Driver Tx R W)
      → Answers req d.responses (handle_finalization sdk api ann is_valid chain_id wait req d).1
  unfolding handle_finalization finalize_initial
  handle_finalization-Answers req d = elim (Bool-cases (nat_eq req.height initial_height)) [
    | inl first ↦ rw first (
        after-kept sdk api ann is_valid chain_id wait (Answers req d.responses) d.responses
          (commit sdk api ann is_valid chain_id wait initial_height sdk.empty_changes)
          (λ app_hash.
            send_response sdk api ann is_valid chain_id wait
              (response sdk api ann is_valid chain_id wait req req.next_validators app_hash))
          d (λ x e. inl e)
          (commit-kept sdk api ann is_valid chain_id wait initial_height sdk.empty_changes d) refl
          (λ app_hash x e. send_response-Answers req req.next_validators app_hash d.responses x e))
    | inr later ↦ rw later (finalize_later-Answers req d)
  ]
