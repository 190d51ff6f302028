-- ===== src/Driver/MainLoop.antt =====
-- `mainLoop` and `handleLagStateUpdate` of gserver/internal/gsi/driver.go.
pub mod Laws
use gcosmos.Base.{ℕ, suc, ◌+◌, ◌%◌, ◌^◌, Bool, List, [], ◌∷◌, ◌++◌, Bytes, if◌then◌else◌}
use gcosmos.Consensus.Consider.{Annotations}
use gcosmos.Driver.Finalize.{Sdk, FinalizeBlockRequest, Driver, Waiting, handle_finalization}
use gcosmos.Driver.Steps.{Step, go, halt, crash, Handler, ◌>>=◌, ◌>>◌, pure}
use gcosmos.Tx.{TxApi}

pub data LagStatus : Type 0 where
  initializing assumed_behind known_missing up_to_date : LagStatus
  unknown_status : ℕ → LagStatus

pub record LagState : Type 0 where
  pub status : LagStatus
  pub committing_height : ℕ
  pub need_height : ℕ

-- What the catchup client was told.
pub data FetchCommand : Type 0 where
  resume_fetching : ℕ → ℕ → FetchCommand
  pause_fetching : FetchCommand

pub record Loop (Tx R W : Type 0) : Type 0 where
  pub driver : Driver Tx R W
  pub commands : List FetchCommand

-- What the `select` receives, with what the environment does while it is handled.
pub data Event (Tx : Type 0) : Type 0 where
  context_done : Event Tx
  finalize_block : FinalizeBlockRequest → Waiting Tx → Event Tx
  lag_state : LagState → Bool → Event Tx

module _ {Tx R W : Type 0} where
  abbrev pub send_command : FetchCommand → Bool → Handler (Loop Tx R W) (Unit {0})
  send_command cmd taken l =
      if taken then (go tt, record l { commands = l.commands ++ cmd ∷ [] }) else (halt, l)

  -- `taken` says that the client received the command before the context was cancelled.
  pub handle_lag_state_update : LagState → Bool → Handler (Loop Tx R W) (Unit {0})
  handle_lag_state_update ls taken = elim ls.status [
    | initializing ↦
        send_command (resume_fetching (suc ls.committing_height % 2 ^ 64) ls.need_height) taken
    | assumed_behind ↦
        send_command (resume_fetching (suc ls.committing_height % 2 ^ 64) ls.need_height) taken
    | known_missing ↦
        send_command (resume_fetching (suc ls.committing_height % 2 ^ 64) ls.need_height) taken
    | up_to_date ↦ send_command pause_fetching taken
    | unknown_status n ↦ λ l. (crash, l)
  ]

module _ {Tx S C R W : Type 0} (sdk : Sdk Tx S C R W) (api : TxApi Tx) (ann : Annotations)
    (is_valid : Bytes → Bool) (chain_id : Bytes) where
  abbrev pub in_loop : Loop Tx R W → Step (Unit {0}) × Driver Tx R W → Step (Unit {0}) × Loop Tx R W
  in_loop l (s, d) = (s, record l { driver = d })

  abbrev pub handle : Event Tx → Handler (Loop Tx R W) (Unit {0})
  handle context_done l = (halt, l)
  handle (finalize_block req wait) l =
      in_loop l (handle_finalization sdk api ann is_valid chain_id wait req l.driver)
  handle (lag_state ls taken) l = handle_lag_state_update ls taken l

  -- The loop over what it receives: it ends with the first handler that does not go on.
  pub main_loop : List (Event Tx) → Handler (Loop Tx R W) (Unit {0})
  main_loop [] = pure tt
  main_loop (e ∷ events) = handle e >> main_loop events
