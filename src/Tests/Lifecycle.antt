-- ===== src/Tests/Lifecycle.antt =====
-- The server component, from its start to its stop.
use gcosmos.Base.{
  inl, bytes_key, ◌≡◌, refl, Bool, true, false, none, some, [], ◌∷◌, Option, Bytes, codes, ok,
  bytes_beq, if◌then◌else◌, panic,
}
use gcosmos.Commands.{SeedEnv, seed_command}
use gcosmos.Commands.Seeded.{seeds-seed_command}
use gcosmos.Component.{State, GrpcServerConfig, sqlite, new_component, nothing_open}
use gcosmos.Component.Init.{
  Env, init, get_assert_engine_opt, listen_for, listen, write_address, initialize_sqlite,
  http_addr_flag, http_addr_file_flag, grpc_addr_flag, sqlite_path_flag, seed_addrs_flag,
}
use gcosmos.Component.Start.{
  StartEnv, start, seeds, split_lines, start_engine, start_grpc, start_http,
}
use gcosmos.Component.Stop.{stop, is_open}
use gcosmos.Component.Stop.Released.{
  IsReleased, started, stop_waits, stop-IsReleased, listener_leaks,
}
use gcosmos.Component.Wired.Start.{query_tx-panics}
use gcosmos.Driver.Steps.{go, halt}
use gcosmos.Server.Grpc.{query_tx}

abbrev flags : Bytes → Option Bytes
flags name =
    if bytes_beq name http_addr_flag
    then some (codes ":80")
    else if bytes_beq name http_addr_file_flag
    then some (codes "http.txt")
    else if bytes_beq name grpc_addr_flag
    then some (codes ":90")
    else if bytes_beq name sqlite_path_flag
    then some (codes "g.db")
    else if bytes_beq name seed_addrs_flag
    then some (codes "/ip4/a\n\n/ip4/b")
    else none

abbrev env : Bool → Env
env writable = record {
  cfg = flags;
  debug = false;
  environment_from_string = λ rules. true;
  listen = λ addr. some addr;
  write_file = λ f. writable;
  unmarshal_comet_config = true;
  priv_key_type = codes "ed25519";
  new_in_mem_store = true;
  new_on_disk_store = λ path. true;
  genesis_opens = true;
  genesis_chain_id = some (codes "c");
}

abbrev senv : StartEnv
senv = record {
  new_host = true;
  addr_info_from_string = λ a. true;
  new_connection = true;
  subscribe = true;
  new_driver = true;
  new_engine = true;
}

abbrev made : State
made = record { c = new_component; w = nothing_open }

starts : (start senv (env true) made).0 ≡ go tt
unfolding start init get_assert_engine_opt listen_for listen write_address initialize_sqlite
    new_component nothing_open start_engine start_grpc start_http seeds split_lines
starts = refl

seeds_dialled : (start senv (env true) made).1.w.dialled ≡ codes "/ip4/a" ∷ codes "/ip4/b" ∷ []
unfolding start init get_assert_engine_opt listen_for listen write_address initialize_sqlite
    new_component nothing_open start_engine start_grpc start_http seeds split_lines
seeds_dialled = refl

abbrev grpc_started : GrpcServerConfig
grpc_started = record {
  listener = codes ":90";
  finalization_store = sqlite (codes "g.db");
  mirror_store = sqlite (codes "g.db");
  tx_store = none;
}

serves_grpc : (start senv (env true) made).1.c.grpc_server ≡ some grpc_started
unfolding start init get_assert_engine_opt listen_for listen write_address initialize_sqlite
    new_component nothing_open start_engine start_grpc start_http seeds split_lines
serves_grpc = refl

query_tx-panics_example : query_tx grpc_started.tx_store (codes "h") ≡ panic
query_tx-panics_example =
    query_tx-panics (env true) senv (λ f. refl) grpc_started (codes "h") serves_grpc

stop-IsReleased_example :
    ((stop (started senv (env true) true)).0 ≡ go tt)
    × IsReleased (stop (started senv (env true) true)).1.w
stop-IsReleased_example = stop-IsReleased (env true) senv true (λ f. refl) (inl refl)

strategy_started : (started senv (env true) false).c.c_strat ≡ true
unfolding start init get_assert_engine_opt listen_for listen write_address initialize_sqlite
    new_component nothing_open start_engine start_grpc start_http seeds split_lines
strategy_started = refl

stop_waits_example :
    let s = started senv (env true) false in
    let (r, s') = stop s in
    (r ≡ halt)
    × (s'.w.strategy ≡ true)
    × (s'.w.host ≡ s.w.host)
    × (s'.w.connection ≡ s.w.connection)
    × (s'.w.database ≡ s.w.database)
    × (s'.w.listening ≡ s.w.listening)
stop_waits_example = stop_waits (env true) senv (λ f. refl) strategy_started

listener_leaks_example :
    let (r, s) = start senv (env false) made in
    (r ≡ halt) × (is_open (codes ":80") (stop s).1.w.listening ≡ true)
listener_leaks_example =
    listener_leaks (env false) senv (codes "80") (codes "ttp.txt") (codes ":80") b':' b'h' refl refl
      refl refl refl

abbrev seed_env : SeedEnv
seed_env = record {
  new_host = true;
  new_dht = true;
  addr_info_to_p2p_addrs = some (codes "/ip4/a" ∷ codes "/ip6/b" ∷ []);
  write_file = λ f. true;
}

seed_written :
    seed_command seed_env (codes "seed.txt") ≡ ok (codes "seed.txt", codes "/ip4/a\n/ip6/b\n")
unfolding seed_command
seed_written = refl

seeds-seed_command_example :
    seeds senv (split_lines (codes "/ip4/a\n/ip6/b\n")) ≡ codes "/ip4/a" ∷ codes "/ip6/b" ∷ []
seeds-seed_command_example =
    seeds-seed_command seed_env senv (codes "seed.txt") (codes "seed.txt")
      (codes "/ip4/a\n/ip6/b\n") (codes "/ip4/a" ∷ codes "/ip6/b" ∷ []) seed_written refl
      (
        record { one_line = refl; given = λ e. cc; parsed = refl },
        (record { one_line = refl; given = λ e. cc; parsed = refl }, tt),
      )
