-- ===== src/Driver/Initialize/Completes.antt =====
-- When `handleInitialization` runs to its end.
use gcosmos.Base.{
  ℕ, ◌≡◌, refl, Bool, true, false, List, [], ◌∷◌, ◌++◌, some, Bytes, codes, bytes_beq, All, map,
}
use gcosmos.Driver.Steps.{go}
use gcosmos.Driver.Initialize.{
  TypedUpdate, GenesisResponse, GenesisSdk, InitChainRequest, Starting, request, previous,
  any_error, initialize_tx_buf, set_initial_version, commit, no_tx_errors, genesis_validators,
  send_response, init_chain, handle_initialization,
}
use gcosmos.Driver.Initialize.Done.{
  genesis_validator, Initialized, handle_initialization-Initialized,
}

-- After the genesis itself, the SDK and the buffer report no error.
pub record IsWilling {S C W : Type 0} (sdk : GenesisSdk S C W) : Type 0 where
  pub starts_buffer : (s : S) (w : W) → (w' : W) × (sdk.initialize_tx_buf s w ≡ some w')
  pub versions : (v : ℕ) (w : W) → (w' : W) × (sdk.set_initial_version v w ≡ some w')
  pub changes : (s : S) → (c : C) × (sdk.state_changes s ≡ some c)
  pub commits :
      (version : ℕ) (c : C) (w : W)
      → (root : Bytes) × (w' : W) × (sdk.commit version c w ≡ some (root, w'))

module _ {S C W : Type 0} (sdk : GenesisSdk S C W) (is_valid : Bytes → Bool)
    (app_state : Bytes) where
  -- An update of a key that the driver can read.
  abbrev IsReadable : TypedUpdate → Type 0
  IsReadable vu =
      (bytes_beq vu.pub_key_type (codes "ed25519") ≡ true) × (is_valid vu.pub_key ≡ true)

  genesis_validators-go :
      (vus : List TypedUpdate) (d : Starting W)
      → All IsReadable vus
      → genesis_validators sdk is_valid true app_state vus d ≡ (go (map genesis_validator vus), d)
  unfolding genesis_validators
  genesis_validators-go [] d all = refl
  genesis_validators-go (vu ∷ vus) d ((typed, keyed), all) =
      let rest = genesis_validators-go vus d all in rw typed (rw keyed (rw rest refl))

  -- An initialization for a request is done to its end if the genesis succeeds without an error of a
  -- transaction and with validators whose keys the driver can read, the SDK and the buffer report no
  -- error after it, and the engine takes the response.
  pub handle_initialization-completes :
      (req : InitChainRequest) (d : Starting W) (resp : GenesisResponse) (s : S)
      → sdk.init_genesis (previous req.initial_height) req.chain_id app_state d.world
        ≡ some (resp, s)
      → any_error resp.tx_errors ≡ false
      → All IsReadable resp.validator_updates
      → IsWilling sdk
      → (d' : Starting W) × (handle_initialization sdk is_valid true app_state (request req) d
          ≡ (go tt, d'))
        × Initialized sdk is_valid true app_state req d d'
  unfolding handle_initialization init_chain initialize_tx_buf set_initial_version commit
      no_tx_errors send_response
  handle_initialization-completes req d resp s genesis no_errors readable willing =
      let (w₁, buffered) = willing.starts_buffer s d.world in
      let (w₂, versioned) = willing.versions (previous req.initial_height) w₁ in
      let (c, changed) = willing.changes s in
      let (root, w₃, committed) = willing.commits (previous req.initial_height) c w₂ in
      let vals = map genesis_validator resp.validator_updates in
      let d' : Starting W = record {
        world = w₃;
        responses = d.responses ++ record { app_state_hash = root; validators = vals } ∷ [];
      } in
      let done : handle_initialization sdk is_valid true app_state (request req) d ≡ (go tt, d') =
        rw genesis (
          rw buffered (
            rw versioned (
              rw changed (
                rw committed (
                  rw no_errors (
                    rw
                      (genesis_validators-go resp.validator_updates (record d { world = w₃ })
                        readable)
                      refl)))))) in
      (d', done, handle_initialization-Initialized sdk is_valid true app_state req d d' done)
