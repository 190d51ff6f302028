-- ===== src/Driver/Initialize.antt =====
-- `handleInitialization` of gserver/internal/gsi/driver.go.
pub mod Done
pub mod Completes
use gcosmos.Base.{
  ℕ, ◌+◌, ◌-◌, ◌%◌, ◌^◌, Bool, true, false, List, [], ◌∷◌, ◌++◌, Option, none, some, Bytes, codes,
  bytes_beq, if◌then◌else◌,
}
use gcosmos.Consensus.Proposer.{Validator}
use gcosmos.Driver.Steps.{Step, go, halt, crash, Handler, ◌>>=◌, ◌>>◌, pure, need, ask}
use gcosmos.Driver.Validators.{to_uint64}
use gcosmos.Strconv.Integer.{ℤ}

pub record TypedUpdate : Type 0 where
  pub pub_key : Bytes
  pub pub_key_type : Bytes
  pub power : ℤ

-- `tx_errors` says of each transaction's result whether it holds an error.
pub record GenesisResponse : Type 0 where
  pub tx_errors : List Bool
  pub validator_updates : List TypedUpdate

-- The SDK's operations that the initialization calls, on a state `W` that only they change; `none` is an
-- error. `S` is a state of the application, `C` a changeset. The genesis takes the height, the chain ID and
-- the state of the genesis file.
pub record GenesisSdk (S C W : Type 0) : Type 0 where
  pub state_latest : W → Option S
  pub initialize_tx_buf : S → W → Option W
  pub init_genesis : ℕ → Bytes → Bytes → W → Option (GenesisResponse × S)
  pub set_initial_version : ℕ → W → Option W
  pub state_changes : S → Option C
  pub commit : ℕ → C → W → Option (Bytes × W)

pub record InitChainRequest : Type 0 where
  pub initial_height : ℕ
  pub chain_id : Bytes

pub record InitChainResponse : Type 0 where
  pub app_state_hash : Bytes
  pub validators : List Validator

-- `responses` are those that the engine has taken.
pub record Starting (W : Type 0) : Type 0 where
  pub world : W
  pub responses : List InitChainResponse

-- What the init chain channel gives.
pub data Received : Type 0 where
  context_done closed : Received
  request : InitChainRequest → Received

-- `h - 1` for a uint64.
abbrev pub previous : ℕ → ℕ
previous h = (h + (2 ^ 64 - 1)) % 2 ^ 64

abbrev pub any_error : List Bool → Bool
any_error [] = false
any_error (true ∷ errors) = true
any_error (false ∷ errors) = any_error errors

module _ {S C W : Type 0} (sdk : GenesisSdk S C W) (is_valid : Bytes → Bool) (response_taken : Bool)
    (app_state : Bytes) where
  abbrev pub changed : Starting W → Option W → Step (Unit {0}) × Starting W
  changed d none = (halt, d)
  changed d (some w) = (go tt, record d { world = w })

  unfoldable pub initialize_tx_buf : S → Handler (Starting W) (Unit {0})
  initialize_tx_buf s d = changed d (sdk.initialize_tx_buf s d.world)

  unfoldable pub set_initial_version : ℕ → Handler (Starting W) (Unit {0})
  set_initial_version v d = changed d (sdk.set_initial_version v d.world)

  abbrev pub committed : Starting W → Option (Bytes × W) → Step Bytes × Starting W
  committed d none = (halt, d)
  committed d (some (root, w)) = (go root, record d { world = w })

  unfoldable pub commit : ℕ → C → Handler (Starting W) Bytes
  commit version changes d = committed d (sdk.commit version changes d.world)

  unfoldable pub no_tx_errors : List Bool → Handler (Starting W) (Unit {0})
  no_tx_errors errors d = if any_error errors then (halt, d) else (go tt, d)

  abbrev pub with_validator :
      Starting W
      → TypedUpdate
      → Step (List Validator) × Starting W
      → Step (List Validator) × Starting W
  with_validator d vu (go vals, d') =
      (go (record { pub_key = vu.pub_key; power = to_uint64 vu.power } ∷ vals), d')
  with_validator d vu (halt, d') = (halt, d')
  with_validator d vu (crash, d') = (crash, d')

  -- A key of another type, or one that is no ed25519 key, is a panic.
  unfoldable pub genesis_validators : List TypedUpdate → Handler (Starting W) (List Validator)
  genesis_validators [] d = (go [], d)
  genesis_validators (vu ∷ vus) d =
      let rest = genesis_validators vus d in
      if bytes_beq vu.pub_key_type (codes "ed25519")
      then if is_valid vu.pub_key then with_validator d vu rest else (crash, d)
      else (crash, d)

  unfoldable pub send_response : InitChainResponse → Handler (Starting W) (Unit {0})
  send_response r d =
      if response_taken then (go tt, record d { responses = d.responses ++ r ∷ [] }) else (halt, d)

  unfoldable pub init_chain : InitChainRequest → Handler (Starting W) (Unit {0})
  init_chain req = do
    (resp, genesis_state) ←
        ask (λ d. sdk.init_genesis (previous req.initial_height) req.chain_id app_state d.world)
    initialize_tx_buf genesis_state
    set_initial_version (previous req.initial_height)
    changes ← need (sdk.state_changes genesis_state)
    state_root ← commit (previous req.initial_height) changes
    no_tx_errors resp.tx_errors
    vals ← genesis_validators resp.validator_updates
    send_response (record { app_state_hash = state_root; validators = vals })

  -- A closed channel skips the work, but the buffer still gets the latest state.
  unfoldable pub handle_initialization : Received → Handler (Starting W) (Unit {0})
  handle_initialization context_done d = (halt, d)
  handle_initialization closed d = (ask (λ d. sdk.state_latest d.world) >>= initialize_tx_buf) d
  handle_initialization (request req) d = init_chain req d
