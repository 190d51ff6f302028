-- ===== src/Component.antt =====
-- gserver/component.go: the state of the server component, and what it has running and open.
pub mod Init
pub mod Start
pub mod Stop
pub mod Wired
pub mod Peers
use gcosmos.Base.{ℕ, Bool, true, false, List, [], ◌∷◌, Option, none, some, Bytes, codes}
use gcosmos.Driver.Steps.{Step, go, halt, crash, Handler}
use gcosmos.Server.Node.{TxResult}
use gcosmos.TxStore.{Store}

-- Which implementation a store has.
pub data StoreKind : Type 0 where
  memory : StoreKind
  sqlite : Bytes → StoreKind

-- The options that the engine gets; the ones that only wrap a value of the component carry none.
pub data Opt : Type 0 where
  with_signer with_hash_scheme with_signature_scheme with_proof_scheme with_assert_env : Opt
  with_genesis : Bytes → Opt
  with_action_store with_committed_header_store with_finalization_store with_mirror_store :
      StoreKind → Opt
  with_round_store with_state_machine_store with_validator_store : StoreKind → Opt
  with_block_finalization_channel with_lag_state_channel with_replayed_header_request_channel : Opt
  with_consensus_strategy with_gossip_strategy with_init_chain_channel with_watchdog : Opt
  with_timeout_strategy : Opt

-- The fields of the gRPC server's configuration that the component sets differently from what it has.
pub record GrpcServerConfig : Type 0 where
  pub listener : Bytes
  pub finalization_store : StoreKind
  pub mirror_store : StoreKind
  pub tx_store : Option (Store TxResult)

-- A listener is its address. A pointer that is only tested for nil is a Boolean, true if it is set.
pub record Component : Type 0 where
  pub log : Bool
  pub txs : Store TxResult
  pub seed_addrs : Bytes
  pub http_ln : Option Bytes
  pub grpc_ln : Option Bytes
  pub signer : Bool
  pub tmsql : Option Bytes
  pub chs : StoreKind
  pub fs : StoreKind
  pub ms : StoreKind
  pub chain_id : Bytes
  pub opts : List Opt
  pub h : Bool
  pub conn : Bool
  pub e : Bool
  pub driver : Bool
  pub c_strat : Bool
  pub dh : Bool
  pub http_server : Option Bytes
  pub grpc_server : Option GrpcServerConfig

-- What runs and what is open. `cancelled` is the root context, which `Stop` cancels, and `ctx_done` the context
-- that `Start` was given, which the caller cancels, or does not.
pub record World : Type 0 where
  pub cancelled : Bool
  pub ctx_done : Bool
  pub listening : List Bytes
  pub files : List (Bytes × Bytes)
  pub database : Option Bytes
  pub dialled : List Bytes
  pub host : Bool
  pub connection : Bool
  pub data_host : Bool
  pub driver : Bool
  pub strategy : Bool
  pub engine : Option (List Opt)
  pub http : Option Bytes
  pub grpc : Option Bytes

pub record State : Type 0 where
  pub c : Component
  pub w : World

abbrev pub Run : Type 0 → Type 0
Run A = Handler State A

abbrev pub on_c : (Component → Component) → Run (Unit {0})
on_c f s = (go tt, record s { c = f s.c })

abbrev pub on_w : (World → World) → Run (Unit {0})
on_w f s = (go tt, record s { w = f s.w })

-- `if err != nil { return err }` of a call that has no result
abbrev pub check : Bool → Run (Unit {0})
check true s = (go tt, s)
check false s = (halt, s)

-- `NewComponent`, where the logger has been given; the rest of the fields have their zero values,
-- and the stores are set in `init`.
unfoldable pub new_component : Component
new_component = record {
  log = true;
  txs = [];
  seed_addrs = [];
  http_ln = none;
  grpc_ln = none;
  signer = false;
  tmsql = none;
  chs = memory;
  fs = memory;
  ms = memory;
  chain_id = [];
  opts = [];
  h = false;
  conn = false;
  e = false;
  driver = false;
  c_strat = false;
  dh = false;
  http_server = none;
  grpc_server = none;
}

-- A process that has started nothing yet.
unfoldable pub nothing_open : World
nothing_open = record {
  cancelled = false;
  ctx_done = false;
  listening = [];
  files = [];
  database = none;
  dialled = [];
  host = false;
  connection = false;
  data_host = false;
  driver = false;
  strategy = false;
  engine = none;
  http = none;
  grpc = none;
}
