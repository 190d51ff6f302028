-- ===== src/Driver/Initialize/Done.antt =====
-- What an initialization that succeeds has done.
use gcosmos.Base.{
  ◌≡◌, refl, ap, ◌∙◌, Bool, false, List, [], ◌∷◌, ◌++◌, Option, none, some, arith, Bytes, map,
  Bool-cases, inl, inr,
}
use gcosmos.Consensus.Proposer.{Validator}
use gcosmos.Driver.Steps.{
  Step, go, halt, crash, Handler, ◌>>=◌, ◌>>◌, need, ask, >>=-eq-go, need-eq-go,
}
use gcosmos.Driver.Validators.{to_uint64}
use gcosmos.Driver.Initialize.{
  TypedUpdate, GenesisResponse, GenesisSdk, InitChainRequest, InitChainResponse, Starting, request,
  previous, any_error, changed, initialize_tx_buf, set_initial_version, committed, commit,
  no_tx_errors, with_validator, genesis_validators, send_response, init_chain,
  handle_initialization,
}

-- The validator of an update.
abbrev pub genesis_validator : TypedUpdate → Validator
genesis_validator vu = record { pub_key = vu.pub_key; power = to_uint64 vu.power }

module _ {S C W : Type 0} (sdk : GenesisSdk S C W) (is_valid : Bytes → Bool) (response_taken : Bool)
    (app_state : Bytes) where
  changed_lem :
      (d d' : Starting W) (o : Option W) {u : Unit {0}}
      → changed sdk is_valid response_taken app_state d o ≡ (go u, d')
      → (w : W) × (o ≡ some w) × (d' ≡ record d { world = w })
  changed_lem d d' none e = cc
  changed_lem d d' (some w) e = (w, refl, cc)

  committed_lem :
      (d d' : Starting W) (o : Option (Bytes × W)) {root : Bytes}
      → committed sdk is_valid response_taken app_state d o ≡ (go root, d')
      → (w : W) × (o ≡ some (root, w)) × (d' ≡ record d { world = w })
  committed_lem d d' none e = cc
  committed_lem d d' (some (h, w)) e = (w, cc, cc)

  with_validator_lem :
      (d d' : Starting W) (vu : TypedUpdate) (q : Step (List Validator) × Starting W)
      (vals : List Validator)
      → with_validator sdk is_valid response_taken app_state d vu q ≡ (go vals, d')
      → (rest : List Validator) × (q ≡ (go rest, d')) × (vals ≡ genesis_validator vu ∷ rest)
  with_validator_lem d d' vu (go rest, x) vals e = (rest, cc, cc)
  with_validator_lem d d' vu (halt, x) vals e = cc
  with_validator_lem d d' vu (crash, x) vals e = cc

  genesis_validators_lem :
      (vus : List TypedUpdate) (d d' : Starting W) (vals : List Validator)
      → genesis_validators sdk is_valid response_taken app_state vus d ≡ (go vals, d')
      → (vals ≡ map genesis_validator vus) × (d ≡ d')
  unfolding genesis_validators
  genesis_validators_lem [] d d' vals e = (cc, cc)
  genesis_validators_lem (vu ∷ vus) d d' vals e =
      let rest = genesis_validators sdk is_valid response_taken app_state vus d in
      let through : with_validator sdk is_valid response_taken app_state d vu rest ≡ (go vals, d') =
        ground arith in
      let (vs, rest_is, vals_are) = with_validator_lem d d' vu rest vals through in
      let (vs_are, same) = genesis_validators_lem vus d d' vs rest_is in
      (vals_are ∙ ap (◌∷◌ (genesis_validator vu)) vs_are, same)

  no_errors_lem :
      (errors : List Bool) (d d' : Starting W) {u : Unit {0}}
      → no_tx_errors sdk is_valid response_taken app_state errors d ≡ (go u, d')
      → (any_error errors ≡ false) × (d' ≡ d)
  unfolding no_tx_errors
  no_errors_lem errors d d' e = elim (Bool-cases (any_error errors)) [
    | inl failed ↦ absurd (ground arith)
    | inr clean ↦ (clean, ground arith)
  ]

  sent_lem :
      (r : InitChainResponse) (d d' : Starting W) {u : Unit {0}}
      → send_response sdk is_valid response_taken app_state r d ≡ (go u, d')
      → d' ≡ record d { responses = d.responses ++ r ∷ [] }
  unfolding send_response
  sent_lem r d d' e = ground arith

  -- The calls of a chain's initialization, with what each was given and gave.
  pub record Initialized (req : InitChainRequest) (d d' : Starting W) : Type 0 where
    pub resp : GenesisResponse
    pub genesis_state : S
    pub buffered : W
    pub versioned : W
    pub changes : C
    pub state_root : Bytes
    pub genesis :
        sdk.init_genesis (previous req.initial_height) req.chain_id app_state d.world
        ≡ some (resp, genesis_state)
    pub buffer : sdk.initialize_tx_buf genesis_state d.world ≡ some buffered
    pub version : sdk.set_initial_version (previous req.initial_height) buffered ≡ some versioned
    pub changed : sdk.state_changes genesis_state ≡ some changes
    pub committed :
        sdk.commit (previous req.initial_height) changes versioned ≡ some (state_root, d'.world)
    pub no_errors : any_error resp.tx_errors ≡ false
    pub told :
        d'.responses
        ≡ d.responses
          ++ record {
            app_state_hash = state_root;
            validators = map genesis_validator resp.validator_updates;
          }
            ∷ []

  Initialized-from :
      (req : InitChainRequest) (d d₀ d₁ d₂ d₃ d₄ d₅ d₆ d' : Starting W) (resp : GenesisResponse)
      (s : S) (w₁ w₂ w₄ : W) (changes : C) (root : Bytes) (vals : List Validator)
      → sdk.init_genesis (previous req.initial_height) req.chain_id app_state d.world
        ≡ some (resp, s)
      → d ≡ d₀
      → sdk.initialize_tx_buf s d₀.world ≡ some w₁
      → d₁ ≡ record d₀ { world = w₁ }
      → sdk.set_initial_version (previous req.initial_height) d₁.world ≡ some w₂
      → d₂ ≡ record d₁ { world = w₂ }
      → sdk.state_changes s ≡ some changes
      → d₂ ≡ d₃
      → sdk.commit (previous req.initial_height) changes d₃.world ≡ some (root, w₄)
      → d₄ ≡ record d₃ { world = w₄ }
      → any_error resp.tx_errors ≡ false
      → d₅ ≡ d₄
      → vals ≡ map genesis_validator resp.validator_updates
      → d₅ ≡ d₆
      → d' ≡ record d₆ {
        responses = d₆.responses ++ record { app_state_hash = root; validators = vals } ∷ [];
      }
      → Initialized req d d'
  Initialized-from req d d₀ d₁ d₂ d₃ d₄ d₅ d₆ d' resp s w₁ w₂ w₄ changes root vals e₀ s₀ e₁ s₁ e₂ s₂
        e₃ s₃ e₄ s₄ e₅ s₅ e₆ s₆ s₇ =
      record {
        resp = resp;
        genesis_state = s;
        buffered = w₁;
        versioned = w₂;
        changes = changes;
        state_root = root;
        genesis = e₀;
        buffer = cc;
        version = cc;
        changed = e₃;
        committed = cc;
        no_errors = e₅;
        told = cc;
      }

  -- An initialization for a request that goes on ran the genesis at the height before the initial
  -- one and for the chain ID, gave the transaction buffer the state it came to, set that version, committed the state's
  -- changes at it, saw no transaction error, and told the engine the commit's hash and a validator
  -- for each update.
  pub handle_initialization-Initialized :
      (req : InitChainRequest) (d d' : Starting W)
      → handle_initialization sdk is_valid response_taken app_state (request req) d ≡ (go tt, d')
      → Initialized req d d'
  unfolding handle_initialization init_chain initialize_tx_buf set_initial_version commit
      no_tx_errors send_response
  handle_initialization-Initialized req d d' e =
      let H : Type 0 = Handler (Starting W) (Unit {0}) in
      let v = previous req.initial_height in
      let send : Bytes → List Validator → H = λ root vals.
        send_response sdk is_valid response_taken app_state
          (record { app_state_hash = root; validators = vals }) in
      let vals_of : GenesisResponse → Bytes → H = λ resp root.
        genesis_validators sdk is_valid response_taken app_state resp.validator_updates
        >>= send root in
      let checks : GenesisResponse → Bytes → H = λ resp root.
        no_tx_errors sdk is_valid response_taken app_state resp.tx_errors >> vals_of resp root in
      let commits : GenesisResponse → C → H =
        λ resp changes. commit sdk is_valid response_taken app_state v changes >>= checks resp in
      let change : GenesisResponse → S → H =
        λ resp s. need (sdk.state_changes s) >>= commits resp in
      let versions : GenesisResponse → S → H =
        λ resp s. set_initial_version sdk is_valid response_taken app_state v >> change resp s in
      let ((resp, s), d₀, e₀, k₀) =
        >>=-eq-go (ask (λ d. sdk.init_genesis v req.chain_id app_state d.world))
          (λ (resp, s).
            initialize_tx_buf sdk is_valid response_taken app_state s >> versions resp s)
          d e in
      let (g₀, s₀) = need-eq-go (sdk.init_genesis v req.chain_id app_state d.world) d e₀ in
      let (u₁, d₁, e₁, k₁) =
        >>=-eq-go (initialize_tx_buf sdk is_valid response_taken app_state s) (λ _. versions resp s)
          d₀ k₀ in
      let (w₁, g₁, s₁) = changed_lem d₀ d₁ (sdk.initialize_tx_buf s d₀.world) e₁ in
      let (u₂, d₂, e₂, k₂) =
        >>=-eq-go (set_initial_version sdk is_valid response_taken app_state v) (λ _. change resp s)
          d₁ k₁ in
      let (w₂, g₂, s₂) = changed_lem d₁ d₂ (sdk.set_initial_version v d₁.world) e₂ in
      let (changes, d₃, e₃, k₃) = >>=-eq-go (need (sdk.state_changes s)) (commits resp) d₂ k₂ in
      let (g₃, s₃) = need-eq-go (sdk.state_changes s) d₂ e₃ in
      let (root, d₄, e₄, k₄) =
        >>=-eq-go (commit sdk is_valid response_taken app_state v changes) (checks resp) d₃ k₃ in
      let (w₄, g₄, s₄) = committed_lem d₃ d₄ (sdk.commit v changes d₃.world) e₄ in
      let (u₅, d₅, e₅, k₅) =
        >>=-eq-go (no_tx_errors sdk is_valid response_taken app_state resp.tx_errors)
          (λ _. vals_of resp root) d₄ k₄ in
      let (g₅, s₅) = no_errors_lem resp.tx_errors d₄ d₅ e₅ in
      let (vals, d₆, e₆, k₆) =
        >>=-eq-go (genesis_validators sdk is_valid response_taken app_state resp.validator_updates)
          (send root) d₅ k₅ in
      let (g₆, s₆) = genesis_validators_lem resp.validator_updates d₅ d₆ vals e₆ in
      let s₇ = sent_lem (record { app_state_hash = root; validators = vals }) d₆ d' k₆ in
      Initialized-from req d d₀ d₁ d₂ d₃ d₄ d₅ d₆ d' resp s w₁ w₂ w₄ changes root vals g₀ s₀ g₁ s₁
        g₂ s₂ g₃ s₃ g₄ s₄ g₅ s₅ g₆ s₆ s₇
