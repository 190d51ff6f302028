-- ===== src/Driver/Finalize.antt =====
-- `handleFinalization` of gserver/internal/gsi/driver.go.
pub mod Parts
pub mod Data
pub mod Ran
pub mod Done
pub mod Kept
pub mod Answers
pub mod Completes
use gcosmos.Base.{
  ℕ, Bool, true, false, List, [], ◌∷◌, ◌++◌, Option, none, some, Bytes, lookup, nat_key, nat_eq,
  if◌then◌else◌, Result, ok, err, panic,
}
use gcosmos.BlockStore.{BlockDataStore, StoreError, save_block_data}
use gcosmos.Consensus.Consider.{Annotations, block_time}
use gcosmos.Consensus.Proposer.{Validator}
use gcosmos.DataId.{is_zero_tx_data_id}
use gcosmos.Driver.Steps.{Step, go, halt, crash, Handler, ◌>>=◌, ◌>>◌, pure, need, ask, continue}
use gcosmos.Driver.Validators.{ValidatorUpdate, update_validators}
use gcosmos.Requests.{BlockDataRequest, RequestCache, get}
use gcosmos.Tx.{TxApi}
use gcosmos.TxStore.{Store, save_block_result}

pub record BlockRequest (Tx : Type 0) : Type 0 where
  pub height : ℕ
  pub time : ℕ
  pub hash : Bytes
  pub app_hash : Bytes
  pub chain_id : Bytes
  pub txs : List Tx

pub record BlockResponse (R : Type 0) : Type 0 where
  pub validator_updates : List ValidatorUpdate
  pub tx_results : List R

-- The SDK's application and root store, and the transaction buffer, over a state `W` that only their
-- own operations change. `none` is an error; `S` is a state of the application, `C` a changeset.
pub record Sdk (Tx S C R W : Type 0) : Type 0 where
  pub last_commit_hash : W → Option Bytes
  pub deliver_block : BlockRequest Tx → W → Option (BlockResponse R × S × W)
  pub rebase : S → List Tx → W → Option W
  pub state_changes : S → Option C
  pub empty_changes : C
  pub commit : ℕ → C → W → Option (Bytes × W)

pub record FinalizeBlockRequest : Type 0 where
  pub height : ℕ
  pub round : ℕ
  pub hash : Bytes
  pub data_id : Bytes
  pub annotation : Bytes
  pub next_validators : List Validator

pub record FinalizeBlockResponse : Type 0 where
  pub height : ℕ
  pub round : ℕ
  pub block_hash : Bytes
  pub validators : List Validator
  pub app_state_hash : Bytes

-- `responses` are those that the engine has taken.
pub record Driver (Tx R W : Type 0) : Type 0 where
  pub world : W
  pub cache : RequestCache Tx
  pub block_data : BlockDataStore
  pub tx_store : Store R
  pub responses : List FinalizeBlockResponse

-- What the environment does while the handler waits: the cache when the block data has become ready,
-- if the context was not cancelled before, and whether the engine takes the response.
pub record Waiting (Tx : Type 0) : Type 0 where
  pub cache_when_ready : Option (RequestCache Tx)
  pub response_taken : Bool

abbrev pub initial_height : ℕ
initial_height = 1

module _ {Tx S C R W : Type 0} (sdk : Sdk Tx S C R W) (api : TxApi Tx) (ann : Annotations)
    (is_valid : Bytes → Bool) (chain_id : Bytes) (wait : Waiting Tx) where
  abbrev pub Handles : Type 0 → Type 0
  Handles A = Handler (Driver Tx R W) A

  unfoldable pub send_response : FinalizeBlockResponse → Handles (Unit {0})
  send_response r d =
      if wait.response_taken
      then (go tt, record d { responses = d.responses ++ r ∷ [] })
      else (halt, d)

  abbrev pub committed : Driver Tx R W → Option (Bytes × W) → Step Bytes × Driver Tx R W
  committed d none = (halt, d)
  committed d (some (hash, w)) = (go hash, record d { world = w })

  unfoldable pub commit : ℕ → C → Handles Bytes
  commit version changes d = committed d (sdk.commit version changes d.world)

  -- The request behind a pointer, once its channel is closed.
  abbrev pub when_ready :
      Driver Tx R W → ℕ → Option (RequestCache Tx) → Step (BlockDataRequest Tx) × Driver Tx R W
  when_ready d p none = (halt, d)
  when_ready d p (some c) = elim (lookup p c.heap) [
    | none ↦ (crash, d)
    | some req ↦ (go req, record d { cache = c })
  ]

  abbrev pub await_found :
      Driver Tx R W → ℕ → Option (BlockDataRequest Tx) → Step (BlockDataRequest Tx) × Driver Tx R W
  await_found d p none = (crash, d)
  await_found d p (some req) =
      if req.ready then (go req, d) else when_ready d p wait.cache_when_ready

  abbrev pub await_entry :
      Driver Tx R W → Result (Unit {0}) (Option ℕ) → Step (BlockDataRequest Tx) × Driver Tx R W
  await_entry d (ok none) = (crash, d)
  await_entry d (ok (some p)) = await_found d p (lookup p d.cache.heap)
  await_entry d (err e) = (crash, d)
  await_entry d panic = (crash, d)

  -- A missing entry is a panic.
  unfoldable pub await_block_data : Bytes → Handles (BlockDataRequest Tx)
  await_block_data id d = await_entry d (get id d.cache)

  abbrev pub saved :
      Driver Tx R W → Result StoreError BlockDataStore → Step (Unit {0}) × Driver Tx R W
  saved d (ok s) = (go tt, record d { block_data = s })
  saved d (err e) = (halt, d)
  saved d panic = (crash, d)

  unfoldable pub save_data : ℕ → Bytes → Bytes → Handles (Unit {0})
  save_data height id encoded d = saved d (save_block_data d.block_data height id encoded)

  -- The transactions of the block. Data that is not empty is saved for the peers that need it later.
  unfoldable pub block_txs : FinalizeBlockRequest → Handles (List Tx)
  block_txs req = if is_zero_tx_data_id req.data_id then pure [] else do
    bdr ← await_block_data req.data_id
    save_data req.height req.data_id bdr.encoded_transactions
    pure bdr.transactions

  abbrev pub delivered :
      Driver Tx R W → Option (BlockResponse R × S × W) → Step (BlockResponse R × S) × Driver Tx R W
  delivered d none = (halt, d)
  delivered d (some (resp, state, w)) = (go (resp, state), record d { world = w })

  unfoldable pub deliver : BlockRequest Tx → Handles (BlockResponse R × S)
  deliver block d = delivered d (sdk.deliver_block block d.world)

  abbrev pub rebased : Driver Tx R W → Option W → Step (Unit {0}) × Driver Tx R W
  rebased d none = (halt, d)
  rebased d (some w) = (go tt, record d { world = w })

  unfoldable pub rebase : S → List Tx → Handles (Unit {0})
  rebase s txs d = rebased d (sdk.rebase s txs d.world)

  abbrev pub stored : Driver Tx R W → Result (Unit {0}) (Store R) → Step (Unit {0}) × Driver Tx R W
  stored d (ok s) = (go tt, record d { tx_store = s })
  stored d (err e) = (halt, d)
  stored d panic = (crash, d)

  unfoldable pub save_results : ℕ → List Tx → List R → Handles (Unit {0})
  save_results height txs results d = stored d (save_block_result api d.tx_store height txs results)

  abbrev pub response : FinalizeBlockRequest → List Validator → Bytes → FinalizeBlockResponse
  response req vals app_hash = record {
    height = req.height;
    round = req.round;
    block_hash = req.hash;
    validators = vals;
    app_state_hash = app_hash;
  }

  unfoldable pub finalize_initial : FinalizeBlockRequest → Handles (Unit {0})
  finalize_initial req = do
    app_hash ← commit initial_height sdk.empty_changes
    send_response (response req req.next_validators app_hash)

  unfoldable pub finalize_later : FinalizeBlockRequest → Handles (Unit {0})
  finalize_later req = do
    last_hash ← ask (λ d. sdk.last_commit_hash d.world)
    time ← need (block_time ann req.annotation)
    txs ← block_txs req
    let block : BlockRequest Tx = record {
      height = req.height;
      time = time;
      hash = req.hash;
      app_hash = last_hash;
      chain_id = chain_id;
      txs = txs;
    }
    (resp, state) ← deliver block
    rebase state txs
    changes ← need (sdk.state_changes state)
    app_hash ← commit req.height changes
    send_response (
        response req (update_validators is_valid req.next_validators resp.validator_updates)
          app_hash)
    save_results req.height txs resp.tx_results

  unfoldable pub handle_finalization : FinalizeBlockRequest → Handles (Unit {0})
  handle_finalization req =
      if nat_eq req.height initial_height then finalize_initial req else finalize_later req
