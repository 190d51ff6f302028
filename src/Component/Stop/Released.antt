-- ===== src/Component/Stop/Released.antt =====
-- `Stop` returns, and leaves nothing running and nothing open.
use gcosmos.Base.{
  ℕ, ◌≡◌, refl, ap, ◌∙◌, ◌⊎◌, inl, inr, Bool, true, false, [], ◌∷◌, none, some, Bytes, arith,
  ==_refl, bytes_key, Option-cases,
}
use gcosmos.Component.{World, State, new_component, nothing_open}
use gcosmos.Component.Init.{
  Env, init, get_assert_engine_opt, listen_for, listen, write_address, http_addr_flag,
  http_addr_file_flag,
}
use gcosmos.Component.Start.{StartEnv, start}
use gcosmos.Component.Stop.{
  is_open, root_ctx, start_ctx, cancel, wait_for, disconnect, close_host, stop_http, stop_grpc,
  stop_database, stop,
}
use gcosmos.Component.Wired.{IsWired}
use gcosmos.Component.Wired.Start.{start-IsWired}
use gcosmos.Driver.Steps.{go, halt}
use gcosmos.Component.Stop.Parts.{
  wait_for-goes, shut, shut-all, stop_http-goes, stop_grpc-goes, disconnect-goes, close_host-goes,
  stop_database-goes,
}

pub record IsReleased (w : World) : Type 0 where
  pub listening : w.listening ≡ []
  pub database : w.database ≡ none
  pub host : w.host ≡ false
  pub connection : w.connection ≡ false
  pub data_host : w.data_host ≡ false
  pub driver : w.driver ≡ false
  pub strategy : w.strategy ≡ false
  pub engine : w.engine ≡ none
  pub http : w.http ≡ none
  pub grpc : w.grpc ≡ none

-- What `Stop` leaves.
abbrev stopped : State → State
stopped s = record s {
  w = record s.w {
    cancelled = true;
    listening = shut s.c.grpc_ln (shut s.c.http_ln s.w.listening);
    database = none;
    host = false;
    connection = false;
    data_host = false;
    driver = false;
    strategy = false;
    engine = none;
    http = none;
    grpc = none;
  };
}

-- The context that `Start` was given is cancelled if the strategy was started.
abbrev IsEnding : State → Type 0
IsEnding s = s.c.c_strat ≡ true → s.w.ctx_done ≡ true

stop-goes : (s : State) → IsWired s → IsEnding s → stop s ≡ (go tt, stopped s)
unfolding stop cancel
stop-goes s h ending =
    let s₁ : State = record s { w = record s.w { cancelled = true } } in
    let s₂ : State = record s₁ { w = record s₁.w { data_host = false } } in
    let s₃ : State = record s₂ { w = record s₂.w { engine = none } } in
    let s₄ : State = record s₃ { w = record s₃.w { driver = false } } in
    let s₅ : State = record s₄ { w = record s₄.w { strategy = false } } in
    let s₆ : State = record s₅ { w = record s₅.w { connection = false } } in
    let s₇ : State = record s₆ { w = record s₆.w { host = false } } in
    let s₈ : State = record s₇ {
      w = record s₇.w { listening = shut s.c.http_ln s.w.listening; http = none };
    } in
    let s₉ : State = record s₈ {
      w = record s₈.w { listening = shut s.c.grpc_ln s₈.w.listening; grpc = none };
    } in
    rw (
      wait_for-goes root_ctx (λ c. c.dh) (λ w. record w { data_host = false }) s₁ (λ set. refl)
          (λ nil. ground arith),
      wait_for-goes root_ctx (λ c. c.e) (λ w. record w { engine = none }) s₂ (λ set. refl)
          (λ nil. ground (arith, Option-cases s.w.engine)),
      wait_for-goes root_ctx (λ c. c.driver) (λ w. record w { driver = false }) s₃ (λ set. refl)
          (λ nil. ground arith),
      wait_for-goes start_ctx (λ c. c.c_strat) (λ w. record w { strategy = false }) s₄ ending
          (λ nil. ground arith),
      disconnect-goes s₅ h.tied.connection,
      close_host-goes s₆ h.tied.host,
      stop_http-goes s.c.http_ln s₇ h.tied.http h.http_on,
      stop_grpc-goes s.c.grpc_ln s₈ h.tied.grpc h.grpc_on,
      stop_database-goes s₉ h.tied.database,
    )

wired-IsReleased :
    (s : State) → IsWired s → IsEnding s → ((stop s).0 ≡ go tt) × IsReleased (stop s).1.w
wired-IsReleased s h ending = rw (stop-goes s h ending) (
  refl,
  record {
    listening =
        ap (λ ls. shut s.c.grpc_ln (shut s.c.http_ln ls)) h.listening
        ∙ shut-all s.c.grpc_ln s.c.http_ln;
    database = refl;
    host = refl;
    connection = refl;
    data_host = refl;
    driver = refl;
    strategy = refl;
    engine = refl;
    http = refl;
    grpc = refl;
  },
)

-- Up to the strategy, `Stop` opens and closes nothing.
waits :
    (s : State)
    → IsWired s
    → s.w.ctx_done ≡ false
    → s.c.c_strat ≡ true
    → let (r, s') = stop s in
      (r ≡ halt)
      × (s'.w.strategy ≡ true)
      × (s'.w.host ≡ s.w.host)
      × (s'.w.connection ≡ s.w.connection)
      × (s'.w.database ≡ s.w.database)
      × (s'.w.listening ≡ s.w.listening)
unfolding stop cancel wait_for
waits s h running set =
    let s₁ : State = record s { w = record s.w { cancelled = true } } in
    let s₂ : State = record s₁ { w = record s₁.w { data_host = false } } in
    let s₃ : State = record s₂ { w = record s₂.w { engine = none } } in
    rw
      (
        wait_for-goes root_ctx (λ c. c.dh) (λ w. record w { data_host = false }) s₁ (λ set. refl)
            (λ nil. ground arith),
        wait_for-goes root_ctx (λ c. c.e) (λ w. record w { engine = none }) s₂ (λ set. refl)
            (λ nil. ground (arith, Option-cases s.w.engine)),
        wait_for-goes root_ctx (λ c. c.driver) (λ w. record w { driver = false }) s₃ (λ set. refl)
            (λ nil. ground arith),
        set,
        running,
      )
      (refl, h.tied.strategy ∙ set, refl, refl, refl, refl)

-- A component that was started, with the context that `Start` was given cancelled or not.
abbrev pub started : StartEnv → Env → Bool → State
started senv env ctx_done =
    let s = (start senv env (record { c = new_component; w = nothing_open })).1 in
    record s { w = record s.w { ctx_done = ctx_done } }

started-IsWired :
    (env : Env) (senv : StartEnv) (ctx_done : Bool)
    → ((f : Bytes) → env.write_file f ≡ true)
    → IsWired (started senv env ctx_done)
started-IsWired env senv ctx_done written =
    let h = start-IsWired env senv written in
    record {
      tied = record {
        host = h.tied.host;
        connection = h.tied.connection;
        data_host = h.tied.data_host;
        driver = h.tied.driver;
        strategy = h.tied.strategy;
        engine = h.tied.engine;
        database = h.tied.database;
        http = h.tied.http;
        grpc = h.tied.grpc;
      };
      listening = h.listening;
      http_on = h.http_on;
      grpc_on = h.grpc_on;
      no_tx_store = h.no_tx_store;
    }

-- Whatever Start ends in, on a component that has just been made and in an environment where the
-- address files can be written, Stop returns if the context that Start was given has been cancelled, or
-- Start did not come to the consensus strategy: nothing that Stop waits for is still told to run. It
-- leaves no listener, database, host or connection open, and no data host, engine, driver,
-- consensus strategy, HTTP or gRPC server running.
pub stop-IsReleased :
    (env : Env) (senv : StartEnv) (ctx_done : Bool)
    → ((f : Bytes) → env.write_file f ≡ true)
    → (ctx_done ≡ true) ⊎ ((started senv env ctx_done).c.c_strat ≡ false)
    → ((stop (started senv env ctx_done)).0 ≡ go tt)
      × IsReleased (stop (started senv env ctx_done)).1.w
stop-IsReleased env senv ctx_done written over =
    wired-IsReleased (started senv env ctx_done) (started-IsWired env senv ctx_done written)
      (λ set. elim over [ inl e ↦ e | inr unset ↦ cc ])

-- If Start came to the consensus strategy and the context that it was given has not been cancelled, Stop
-- does not return: it waits for the strategy, which is still running, and the host, the connection, the
-- database and the listeners are open as Start left them. The address files can be written.
pub stop_waits :
    (env : Env) (senv : StartEnv)
    → ((f : Bytes) → env.write_file f ≡ true)
    → (started senv env false).c.c_strat ≡ true
    → let s = started senv env false in
      let (r, s') = stop s in
      (r ≡ halt)
      × (s'.w.strategy ≡ true)
      × (s'.w.host ≡ s.w.host)
      × (s'.w.connection ≡ s.w.connection)
      × (s'.w.database ≡ s.w.database)
      × (s'.w.listening ≡ s.w.listening)
stop_waits env senv written set =
    waits (started senv env false) (started-IsWired env senv false written) refl set

-- If the file for the address of the HTTP server cannot be written, Start fails, and the listener
-- that it opened is still open after Stop: it was not recorded. The build is not a debug build.
pub listener_leaks :
    (env : Env) (senv : StartEnv) (addr f ln : Bytes) (x y : ℕ)
    → env.debug ≡ false
    → env.cfg http_addr_flag ≡ some (x ∷ addr)
    → env.cfg http_addr_file_flag ≡ some (y ∷ f)
    → env.listen (x ∷ addr) ≡ some ln
    → env.write_file (y ∷ f) ≡ false
    → let (r, s) = start senv env (record { c = new_component; w = nothing_open }) in
      (r ≡ halt) × (is_open ln (stop s).1.w.listening ≡ true)
unfolding start init get_assert_engine_opt listen_for listen write_address new_component
    nothing_open stop cancel wait_for disconnect close_host stop_http stop_grpc stop_database
listener_leaks env senv addr f ln x y e₁ e₂ e₃ e₄ e₅ =
    rw (e₁, e₂, e₃, e₄, e₅) (refl, rw (==_refl ln))
