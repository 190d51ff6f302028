-- ===== src/Tests/Genesis.antt =====
-- The chain's initialization.
use gcosmos.Base.{ℕ, suc, ◌≡◌, refl, some, [], ◌∷◌, Bytes, codes, Bool, true, false}
use gcosmos.Consensus.Proposer.{Validator}
use gcosmos.Driver.Initialize.{
  GenesisSdk, GenesisResponse, TypedUpdate, InitChainRequest, InitChainResponse, Starting, request,
  handle_initialization, init_chain, initialize_tx_buf, set_initial_version, no_tx_errors,
  genesis_validators,
}
use gcosmos.Driver.Initialize.Completes.{IsWilling, handle_initialization-completes}
use gcosmos.Driver.Initialize.Done.{Initialized, handle_initialization-Initialized}
use gcosmos.Driver.Steps.{go}
use gcosmos.Strconv.Integer.{pos}

abbrev alice : Validator
alice = record { pub_key = codes "a"; power = 10 }

abbrev any_key : Bytes → Bool
any_key k = true

abbrev genesis : GenesisResponse
genesis = record {
  tx_errors = false ∷ [];
  validator_updates =
      record { pub_key = codes "a"; pub_key_type = codes "ed25519"; power = pos 10 } ∷ [];
}

abbrev genesis_sdk : GenesisSdk ℕ ℕ ℕ
genesis_sdk = record {
  state_latest = λ w. some w;
  initialize_tx_buf = λ s w. some w;
  init_genesis = λ height chain state w. some (genesis, height);
  set_initial_version = λ v w. some w;
  state_changes = λ s. some s;
  commit = λ version changes w. some (version ∷ [], suc w);
}

abbrev fresh : Starting ℕ
fresh = record { world = 0; responses = [] }

abbrev started : Starting ℕ
started = record {
  world = 1;
  responses = record { app_state_hash = 0 ∷ []; validators = alice ∷ [] } ∷ [];
}

abbrev init_req : InitChainRequest
init_req = record { initial_height = 1; chain_id = codes "chain" }

chain_started :
    handle_initialization genesis_sdk any_key true [] (request init_req) fresh ≡ (go tt, started)
unfolding handle_initialization init_chain initialize_tx_buf set_initial_version
    gcosmos.Driver.Initialize.commit no_tx_errors genesis_validators
    gcosmos.Driver.Initialize.send_response
chain_started = refl

handle_initialization-Initialized_example :
    Initialized genesis_sdk any_key true [] init_req fresh started
handle_initialization-Initialized_example =
    handle_initialization-Initialized genesis_sdk any_key true [] init_req fresh started
      chain_started

genesis_sdk-IsWilling : IsWilling genesis_sdk
genesis_sdk-IsWilling = record {
  starts_buffer = λ s w. (w, refl);
  versions = λ v w. (w, refl);
  changes = λ s. (s, refl);
  commits = λ version c w. (_, _, refl);
}

handle_initialization-completes_example :
    (d' : Starting ℕ) × (handle_initialization genesis_sdk any_key true [] (request init_req) fresh
      ≡ (go tt, d'))
    × Initialized genesis_sdk any_key true [] init_req fresh d'
handle_initialization-completes_example =
    handle_initialization-completes genesis_sdk any_key [] init_req fresh genesis 0 refl refl
      ((refl, refl), tt) genesis_sdk-IsWilling
