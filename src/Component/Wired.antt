-- ===== src/Component/Wired.antt =====
-- What runs and is open is what the component has a field for, in every state in which `Start` can end.
pub mod Init
pub mod Start
use gcosmos.Base.{
  ℕ, ◌≡◌, ◌∙◌, refl, ap, sym, panic, ◌⊎◌, inl, inr, Bool, true, false, List, [], ◌∷◌, ◌++◌, Option,
  none, some, Bytes, codes, arith, bytes_beq, if◌then◌else◌, Option-cases, Bool-cases,
}
use gcosmos.Component.{
  Component, World, State, Run, Opt, on_c, on_w, check, GrpcServerConfig, new_component,
  nothing_open,
}
use gcosmos.Component.Init.{
  Env, asserted, has_log, set_seeds, ed25519_only, or_panic, configure, new_store, opened, listen,
  write_address, listen_for, initialize_sqlite, init, is_some, http_addr_flag, http_addr_file_flag,
  grpc_addr_flag, grpc_addr_file_flag, sqlite_path_flag, seed_addrs_flag,
}
use gcosmos.Component.Start.{
  StartEnv, start, start_opts, update, current_opts, host_started, connected, driver_started,
  strategy_started, start_engine, start_grpc, start_http,
}
use gcosmos.Server.Grpc.{query_tx}
use gcosmos.Server.Node.{TxResult}
use gcosmos.TxStore.{Store}
use gcosmos.Driver.Steps.{Step, go, halt, crash, Handler, ◌>>=◌, ◌>>◌, continue, need}

abbrev pub listeners : Option Bytes → List Bytes
listeners none = []
listeners (some ln) = ln ∷ []

abbrev pub served : Option GrpcServerConfig → Option Bytes
served none = none
served (some cfg) = some cfg.listener

-- The transaction store that the gRPC server was given.
abbrev pub given_tx_store : Option GrpcServerConfig → Option (Store TxResult)
given_tx_store none = none
given_tx_store (some cfg) = cfg.tx_store

-- Everything but the listeners.
pub record IsTied (s : State) : Type 0 where
  pub host : s.w.host ≡ s.c.h
  pub connection : s.w.connection ≡ s.c.conn
  pub data_host : s.w.data_host ≡ s.c.dh
  pub driver : s.w.driver ≡ s.c.driver
  pub strategy : s.w.strategy ≡ s.c.c_strat
  pub engine : is_some s.w.engine ≡ s.c.e
  pub database : s.w.database ≡ s.c.tmsql
  pub http : s.w.http ≡ s.c.http_server
  pub grpc : s.w.grpc ≡ served s.c.grpc_server

-- A server runs on the listener of its field.
pub record IsWired (s : State) : Type 0 where
  pub tied : IsTied s
  pub listening : s.w.listening ≡ listeners s.c.grpc_ln ++ listeners s.c.http_ln
  pub http_on : (s.c.http_server ≡ none) ⊎ (s.c.http_server ≡ s.c.http_ln)
  pub grpc_on : (served s.c.grpc_server ≡ none) ⊎ (served s.c.grpc_server ≡ s.c.grpc_ln)
  pub no_tx_store : given_tx_store s.c.grpc_server ≡ none

-- Before the servers run.
pub record IsSilent (s : State) : Type 0 where
  pub tied : IsTied s
  pub no_http : s.c.http_server ≡ none
  pub no_grpc : s.c.grpc_server ≡ none

-- Before the gRPC listener is opened, and before the HTTP listener is.
pub record HasHttp (s : State) : Type 0 where
  pub silent : IsSilent s
  pub listening : s.w.listening ≡ listeners s.c.http_ln
  pub no_grpc_ln : s.c.grpc_ln ≡ none

pub record IsFresh (s : State) : Type 0 where
  pub silent : IsSilent s
  pub listening : s.w.listening ≡ []
  pub no_http_ln : s.c.http_ln ≡ none
  pub no_grpc_ln : s.c.grpc_ln ≡ none

pub record HasBoth (s : State) : Type 0 where
  pub silent : IsSilent s
  pub listening : s.w.listening ≡ listeners s.c.grpc_ln ++ listeners s.c.http_ln

-- A step goes on in a state with `Q`, or stops in a wired one.
abbrev pub After : {A : Type 0} → (State → Type 0) → Step A × State → Type 0
After Q (go a, s) = Q s
After Q (halt, s) = IsWired s
After Q (crash, s) = IsWired s

abbrev pub Takes : {A : Type 0} → (State → Type 0) → (State → Type 0) → Run A → Type 0
Takes P Q m = (s : State) → P s → After Q (m s)

continue-After :
    {A C : Type 0} (Q R : State → Type 0) (f : A → Run C) (p : Step A × State)
    → After Q p
    → ((a : A) → Takes Q R (f a))
    → After R (continue p f)
continue-After Q R f (go a, s) h k = k a s h
continue-After Q R f (halt, s) h k = h
continue-After Q R f (crash, s) h k = h

pub >>=-Takes :
    {A C : Type 0} (P Q R : State → Type 0) (m : Run A) (f : A → Run C)
    → Takes P Q m
    → ((a : A) → Takes Q R (f a))
    → Takes P R (m >>= f)
>>=-Takes P Q R m f h k s p = continue-After Q R f (m s) (h s p) k

pub then_both :
    {A C : Type 0} (R : State → Type 0) (m : Run A) (f : A → Run C)
    → Takes HasBoth HasBoth m
    → ((a : A) → Takes HasBoth R (f a))
    → Takes HasBoth R (m >>= f)
then_both = >>=-Takes HasBoth HasBoth

silent-IsWired :
    (s : State)
    → IsSilent s
    → s.w.listening ≡ listeners s.c.grpc_ln ++ listeners s.c.http_ln
    → IsWired s
silent-IsWired s h e = record {
  tied = h.tied;
  listening = e;
  http_on = inl h.no_http;
  grpc_on = inl (ap served h.no_grpc);
  no_tx_store = ap given_tx_store h.no_grpc;
}

pub fresh-IsWired : (s : State) → IsFresh s → IsWired s
fresh-IsWired s h = silent-IsWired s h.silent (ground arith)

pub http-IsWired : (s : State) → HasHttp s → IsWired s
http-IsWired s h = silent-IsWired s h.silent (ground arith)

pub both-IsWired : (s : State) → HasBoth s → IsWired s
both-IsWired s h = silent-IsWired s h.silent h.listening
