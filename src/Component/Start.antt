-- ===== src/Component/Start.antt =====
-- `Start`.
use gcosmos.Base.{
  ℕ, Bool, true, List, [], ◌∷◌, ◌++◌, Option, none, some, Bytes, nat_eq, if◌then◌else◌,
}
use gcosmos.Component.{
  Component, State, Run, check, Opt, GrpcServerConfig, with_block_finalization_channel,
  with_lag_state_channel, with_replayed_header_request_channel, with_consensus_strategy,
  with_gossip_strategy, with_init_chain_channel, with_watchdog, with_timeout_strategy,
}
use gcosmos.Component.Init.{Env, init}
use gcosmos.Driver.Steps.{go, halt, ◌>>=◌, ◌>>◌}

-- Which of the calls of `Start` succeed; `addr_info_from_string` says which addresses can be parsed.
pub record StartEnv : Type 0 where
  pub new_host : Bool
  pub addr_info_from_string : Bytes → Bool
  pub new_connection : Bool
  pub subscribe : Bool
  pub new_driver : Bool
  pub new_engine : Bool

abbrev extend : ℕ → List Bytes → List Bytes
extend c [] = (c ∷ []) ∷ []
extend c (part ∷ parts) = (c ∷ part) ∷ parts

-- `strings.Split(s, "\n")`
unfoldable pub split_lines : Bytes → List Bytes
split_lines [] = [] ∷ []
split_lines (c ∷ s) = let rest = split_lines s in if nat_eq c 10 then [] ∷ rest else extend c rest

module _ (env : StartEnv) where
  -- The addresses that the host is told to connect to. An empty line and one that cannot be parsed are
  -- passed over; a connection that fails is only logged.
  unfoldable pub seeds : List Bytes → List Bytes
  seeds [] = []
  seeds ([] ∷ lines) = seeds lines
  seeds ((c ∷ line) ∷ lines) =
      let rest = seeds lines in
      if env.addr_info_from_string (c ∷ line) then (c ∷ line) ∷ rest else rest

  -- The options of the engine beyond those of `init`.
  abbrev pub start_opts : List Opt
  start_opts =
      with_block_finalization_channel ∷ with_lag_state_channel
      ∷ with_replayed_header_request_channel ∷ with_consensus_strategy ∷ with_gossip_strategy
      ∷ with_init_chain_channel ∷ with_watchdog ∷ with_timeout_strategy ∷ []

  abbrev grpc_config : Bytes → Component → GrpcServerConfig
  grpc_config ln c = record {
    listener = ln;
    finalization_store = c.fs;
    mirror_store = c.ms;
    tx_store = none;
  }

  abbrev with_grpc : Option Bytes → State → State
  with_grpc none s = s
  with_grpc (some ln) s = record {
    c = record s.c { grpc_server = some (grpc_config ln s.c) };
    w = record s.w { grpc = some ln };
  }

  -- The gRPC server gets the component's stores, but not its transaction store.
  unfoldable pub start_grpc : Run (Unit {0})
  start_grpc s = (go tt, with_grpc s.c.grpc_ln s)

  abbrev with_http : Option Bytes → State → State
  with_http none s = s
  with_http (some ln) s = record {
    c = record s.c { http_server = some ln };
    w = record s.w { http = some ln };
  }

  unfoldable pub start_http : Run (Unit {0})
  start_http s = (go tt, with_http s.c.http_ln s)

  -- From the engine on: it gets the options of both phases.
  unfoldable pub start_engine : List Opt → Run (Unit {0})
  start_engine opts s =
      if env.new_engine
      then (go tt, record { c = record s.c { e = true }; w = record s.w { engine = some opts } })
      else (halt, s)

  abbrev pub host_started : State → State
  host_started s = record {
    c = record s.c { h = true; dh = true };
    w = record s.w {
      host = true;
      dialled = s.w.dialled ++ seeds (split_lines s.c.seed_addrs);
      data_host = true;
    };
  }

  abbrev pub connected : State → State
  connected s = record { c = record s.c { conn = true }; w = record s.w { connection = true } }

  abbrev pub driver_started : State → State
  driver_started s = record {
    c = record s.c { driver = true; opts = [] };
    w = record s.w { driver = true };
  }

  abbrev pub strategy_started : State → State
  strategy_started s = record {
    c = record s.c { c_strat = true };
    w = record s.w { strategy = true };
  }

  abbrev pub update : (State → State) → Run (Unit {0})
  update f s = (go tt, f s)

  abbrev pub current_opts : Run (List Opt)
  current_opts s = (go s.c.opts, s)

  unfoldable pub start : Env → Run (Unit {0})
  start init_env = do
    init init_env
    check env.new_host
    update host_started
    check env.new_connection
    update connected
    check env.subscribe
    check env.new_driver
    opts ← current_opts
    update driver_started
    update strategy_started
    start_engine (opts ++ start_opts)
    start_grpc
    start_http
