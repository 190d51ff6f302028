-- ===== src/Component/Wired/Start.antt =====
-- `Start` leaves a component with what runs and is open recorded, however far it comes.
use gcosmos.Base.{
  ◌≡◌, ◌∙◌, ap, sym, panic, ◌⊎◌, inl, inr, true, List, ◌++◌, none, some, Bytes, arith, Option-cases,
  Bool-cases,
}
use gcosmos.Component.{State, Opt, check, GrpcServerConfig, new_component, nothing_open}
use gcosmos.Component.Init.{Env, init}
use gcosmos.Component.Start.{
  StartEnv, start, start_opts, update, current_opts, host_started, connected, driver_started,
  strategy_started, start_engine, start_grpc, start_http,
}
use gcosmos.Server.Grpc.{query_tx}
use gcosmos.Driver.Steps.{Step, go, halt, crash, ◌>>◌}
use gcosmos.Component.Wired.{
  listeners, served, given_tx_store, IsTied, IsWired, IsFresh, HasBoth, After, Takes, >>=-Takes,
  then_both, both-IsWired,
}
use gcosmos.Component.Wired.Init.{check-Takes, init-Takes}

start_engine-Takes :
    (senv : StartEnv) (opts : List Opt) → Takes HasBoth HasBoth (start_engine senv opts)
unfolding start_engine
start_engine-Takes senv opts s h = elim (Bool-cases senv.new_engine) [
  | inl started ↦ rw (started, After) (ground arith)
  | inr failed ↦ rw (failed, After) (both-IsWired s h)
]

-- The gRPC server runs, and the HTTP server does not.
record HasGrpc (s : State) : Type 0 where
  tied : IsTied s
  listening : s.w.listening ≡ listeners s.c.grpc_ln ++ listeners s.c.http_ln
  no_http : s.c.http_server ≡ none
  grpc_on : (served s.c.grpc_server ≡ none) ⊎ (served s.c.grpc_server ≡ s.c.grpc_ln)
  no_tx_store : given_tx_store s.c.grpc_server ≡ none

start_grpc-Takes : (senv : StartEnv) → Takes HasBoth HasGrpc (start_grpc senv)
unfolding start_grpc
start_grpc-Takes senv s h = elim (Option-cases s.c.grpc_ln) [
  | inl off ↦ ground arith
  | inr (ln, on) ↦ ground arith
]

start_http-Takes : (senv : StartEnv) → Takes HasGrpc IsWired (start_http senv)
unfolding start_http
start_http-Takes senv s h = elim (Option-cases s.c.http_ln) [
  | inl off ↦ ground arith
  | inr (ln, on) ↦ ground arith
]

-- The steps of `Start` that always go on.
module _ (senv : StartEnv) where
  host_started-Takes : Takes HasBoth HasBoth (update senv (host_started senv))
  host_started-Takes s h = ground arith

  connected-Takes : Takes HasBoth HasBoth (update senv (connected senv))
  connected-Takes s h = ground arith

  driver_started-Takes : Takes HasBoth HasBoth (update senv (driver_started senv))
  driver_started-Takes s h = ground arith

  strategy_started-Takes : Takes HasBoth HasBoth (update senv (strategy_started senv))
  strategy_started-Takes s h = ground arith

  servers-Takes : Takes HasBoth IsWired (start_grpc senv >> start_http senv)
  servers-Takes =
      >>=-Takes HasBoth HasGrpc IsWired (start_grpc senv) _ (start_grpc-Takes senv)
        (λ _. start_http-Takes senv)

ended : {A : Type 0} (p : Step A × State) → After IsWired p → IsWired p.1
ended (go a, s) h = h
ended (halt, s) h = h
ended (crash, s) h = h

module _ (env : Env) (senv : StartEnv) (written : (f : Bytes) → env.write_file f ≡ true) where
  start-Takes : Takes IsFresh IsWired (start senv env)
  unfolding start
  start-Takes = >>=-Takes IsFresh HasBoth IsWired (init env) _ (init-Takes env written) λ _.
      then_both IsWired (check senv.new_host) _ (check-Takes senv.new_host) λ _.
        then_both IsWired (update senv (host_started senv)) _ (host_started-Takes senv) λ _.
          then_both IsWired (check senv.new_connection) _ (check-Takes senv.new_connection) λ _.
            then_both IsWired (update senv (connected senv)) _ (connected-Takes senv) λ _.
              then_both IsWired (check senv.subscribe) _ (check-Takes senv.subscribe) λ _.
                then_both IsWired (check senv.new_driver) _ (check-Takes senv.new_driver) λ _.
                  then_both IsWired (current_opts senv) _ (λ s h. h)
                    λ opts.
                      then_both IsWired (update senv (driver_started senv)) _
                        (driver_started-Takes senv)
                        λ _.
                          then_both IsWired (update senv (strategy_started senv)) _
                            (strategy_started-Takes senv)
                            λ _.
                              then_both IsWired (start_engine senv (opts ++ start_opts senv)) _
                                (start_engine-Takes senv (opts ++ start_opts senv))
                                (λ _. servers-Takes senv)

  -- Whatever `Start` ends in, from a component that has just been made.
  pub start-IsWired : IsWired (start senv env (record { c = new_component; w = nothing_open })).1
  unfolding new_component nothing_open
  start-IsWired =
      let s : State = record { c = new_component; w = nothing_open } in
      ended (start senv env s) (start-Takes s fresh)
    where
      fresh : IsFresh (record { c = new_component; w = nothing_open })
      fresh = ground arith

  -- The gRPC server that Start has started panics on every query for a transaction: it was given no
  -- transaction store, whatever the component has. The address files can be written.
  pub query_tx-panics :
      (cfg : GrpcServerConfig) (hash : Bytes)
      → (start senv env (record { c = new_component; w = nothing_open })).1.c.grpc_server ≡ some cfg
      → query_tx cfg.tx_store hash ≡ panic
  unfolding query_tx
  query_tx-panics cfg hash e = rw (sym (ap given_tx_store e) ∙ start-IsWired.no_tx_store)
