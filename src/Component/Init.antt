-- ===== src/Component/Init.antt =====
-- `init` and `initializeSQLite`.
use gcosmos.Base.{
  Bool, true, false, List, [], ◌∷◌, ◌++◌, Option, none, some, Bytes, codes, bytes_beq,
  if◌then◌else◌,
}
use gcosmos.Component.{
  Component, State, Run, on_c, check, StoreKind, memory, sqlite, Opt, with_signer,
  with_action_store, with_committed_header_store, with_finalization_store, with_mirror_store,
  with_round_store, with_state_machine_store, with_validator_store, with_hash_scheme,
  with_signature_scheme, with_proof_scheme, with_genesis, with_assert_env,
}
use gcosmos.Driver.Steps.{Step, go, halt, crash, ◌>>=◌, ◌>>◌, pure, need}

abbrev pub http_addr_flag : Bytes
http_addr_flag = codes "g-http-addr"

abbrev pub http_addr_file_flag : Bytes
http_addr_file_flag = codes "g-http-addr-file"

abbrev pub grpc_addr_flag : Bytes
grpc_addr_flag = codes "g-grpc-addr"

abbrev pub grpc_addr_file_flag : Bytes
grpc_addr_file_flag = codes "g-grpc-addr-file"

abbrev pub seed_addrs_flag : Bytes
seed_addrs_flag = codes "g-seed-addrs"

abbrev pub assert_rule_flag : Bytes
assert_rule_flag = codes "g-assert-rules"

abbrev pub sqlite_path_flag : Bytes
sqlite_path_flag = codes "g-sqlite-path"

-- What the environment answers. `cfg` is the configuration map, where a value that is a string is found.
-- `listen` gives the address of the listener; the Booleans say whether a call succeeds.
pub record Env : Type 0 where
  pub cfg : Bytes → Option Bytes
  pub debug : Bool
  pub environment_from_string : Bytes → Bool
  pub listen : Bytes → Option Bytes
  pub write_file : Bytes → Bool
  pub unmarshal_comet_config : Bool
  pub priv_key_type : Bytes
  pub new_in_mem_store : Bool
  pub new_on_disk_store : Bytes → Bool
  pub genesis_opens : Bool
  pub genesis_chain_id : Option Bytes

abbrev mem_path : Bytes
mem_path = codes ":memory:"

-- `x.(string)`, which panics on anything else.
abbrev pub asserted : Option Bytes → Run Bytes
asserted none s = (crash, s)
asserted (some v) s = (go v, s)

abbrev pub or_panic : Bool → Run (Unit {0})
or_panic true s = (go tt, s)
or_panic false s = (crash, s)

-- Without a logger the one of the call is asked, which is nil.
abbrev pub has_log : Run (Unit {0})
has_log s = or_panic s.c.log s

abbrev pub set_seeds : Option Bytes → Run (Unit {0})
set_seeds none = pure tt
set_seeds (some sa) = on_c λ c. record c { seed_addrs = sa }

abbrev pub ed25519_only : Bytes → Run (Unit {0})
ed25519_only t = or_panic (bytes_beq t (codes "ed25519"))

abbrev pub is_some : {A : Type 0} → Option A → Bool
is_some none = false
is_some (some a) = true

abbrev kind_of : Option Bytes → StoreKind
kind_of none = memory
kind_of (some path) = sqlite path

abbrev assert_opts : Bool → List Opt
assert_opts true = with_assert_env ∷ []
assert_opts false = []

-- The stores all follow the database, if there is one.
abbrev init_opts : Bool → StoreKind → Bytes → List Opt
init_opts assert_opt kind chain_id =
    with_signer
    ∷ with_action_store kind
    ∷ with_committed_header_store kind
    ∷ with_finalization_store kind
    ∷ with_mirror_store kind
    ∷ with_round_store kind
    ∷ with_state_machine_store kind
    ∷ with_validator_store kind
    ∷ with_hash_scheme
    ∷ with_signature_scheme
    ∷ with_proof_scheme
    ∷ with_genesis chain_id
    ∷ assert_opts assert_opt

abbrev pub opened : State → Option Bytes → Step Bytes × State
opened s none = (halt, s)
opened s (some ln) = (go ln, record s { w = record s.w { listening = ln ∷ s.w.listening } })

abbrev pub assert_env : Bool → Run Bool
assert_env true s = (go true, s)
assert_env false s = (halt, s)

module _ (env : Env) where
  abbrev pub assert_rules : Option Bytes → Run Bool
  assert_rules none s = (crash, s)
  assert_rules (some rules) s = assert_env (env.environment_from_string rules) s

  abbrev pub in_build : Bool → Run Bool
  in_build true s = assert_rules (env.cfg assert_rule_flag) s
  in_build false s = (go false, s)

  -- Whether there is an assertion environment, in a debug build; there is none in any other.
  unfoldable pub get_assert_engine_opt : Run Bool
  get_assert_engine_opt s = in_build env.debug s

  unfoldable pub listen : Bytes → Run Bytes
  listen addr s = opened s (env.listen addr)

  unfoldable pub write_address : Bytes → Option Bytes → Run (Unit {0})
  write_address ln none s = (go tt, s)
  write_address ln (some []) s = (go tt, s)
  write_address ln (some (x ∷ f)) s =
      if env.write_file (x ∷ f)
      then (go tt, record s { w = record s.w { files = (x ∷ f, ln ++ codes "\n") ∷ s.w.files } })
      else (halt, s)

  -- The listener for an address that is not empty. It is recorded once its address has been written.
  unfoldable pub listen_for :
      Option Bytes → Option Bytes → (Bytes → Component → Component) → Run (Unit {0})
  listen_for none file record_ln = pure tt
  listen_for (some []) file record_ln = pure tt
  listen_for (some (x ∷ addr)) file record_ln = do
    ln ← listen (x ∷ addr)
    write_address ln file
    on_c (record_ln ln)

  abbrev pub new_store : Bytes → Bool
  new_store path =
      if bytes_beq path mem_path then env.new_in_mem_store else env.new_on_disk_store path

  unfoldable pub initialize_sqlite : Bytes → Run (Unit {0})
  initialize_sqlite [] s = (go tt, s)
  initialize_sqlite (x ∷ path) s =
      if new_store (x ∷ path)
      then (
        go tt,
        record {
          c = record s.c { tmsql = some (x ∷ path) };
          w = record s.w { database = some (x ∷ path) };
        },
      )
      else (halt, s)

  abbrev pub set_stores : Component → Component
  set_stores c = record c { chs = kind_of c.tmsql; fs = kind_of c.tmsql; ms = kind_of c.tmsql }

  -- The chain ID, and the options.
  abbrev pub configure : Bool → Bytes → Component → Component
  configure assert_opt chain_id c = record c {
    chain_id = chain_id;
    opts = init_opts assert_opt (kind_of c.tmsql) chain_id;
  }

  -- From the database on.
  unfoldable pub init_stores : Bool → Run (Unit {0})
  init_stores assert_opt = do
    path ← asserted (env.cfg sqlite_path_flag)
    initialize_sqlite path
    on_c set_stores
    check env.genesis_opens
    chain_id ← need env.genesis_chain_id
    on_c (configure assert_opt chain_id)

  unfoldable pub init : Run (Unit {0})
  unfolding init_stores
  init = do
    has_log
    assert_opt ← get_assert_engine_opt
    listen_for (env.cfg http_addr_flag) (env.cfg http_addr_file_flag)
        (λ ln c. record c { http_ln = some ln })
    listen_for (env.cfg grpc_addr_flag) (env.cfg grpc_addr_file_flag)
        (λ ln c. record c { grpc_ln = some ln })
    set_seeds (env.cfg seed_addrs_flag)
    check env.unmarshal_comet_config
    ed25519_only env.priv_key_type
    on_c λ c. record c { signer = true }
    init_stores assert_opt
