-- ===== src/Component/Stop.antt =====
-- `Stop`. A wait that would not return is `halt`.
pub mod Parts
pub mod Released
use gcosmos.Base.{
  ℕ, Bool, true, false, not, ◌||◌, ◌&&◌, List, [], ◌∷◌, Option, none, some, Bytes, bytes_beq,
  if◌then◌else◌,
}
use gcosmos.Component.{Component, World, State, Run, on_c, on_w, GrpcServerConfig}
use gcosmos.Driver.Steps.{Step, go, halt, crash, Handler, ◌>>=◌, ◌>>◌, pure}

abbrev pub close_listener : Bytes → List Bytes → List Bytes
close_listener ln [] = []
close_listener ln (l ∷ ls) =
    let rest = close_listener ln ls in if bytes_beq l ln then rest else l ∷ rest

abbrev pub is_open : Bytes → List Bytes → Bool
is_open ln [] = false
is_open ln (l ∷ ls) = bytes_beq l ln || is_open ln ls

pub cancel : Run (Unit {0})
cancel = on_w λ w. record w { cancelled = true }

-- The contexts under which something runs.
abbrev pub root_ctx : World → Bool
root_ctx w = w.cancelled

abbrev pub start_ctx : World → Bool
start_ctx w = w.ctx_done

-- What runs under a context stops once that is cancelled, and only then does its `Wait` return.
-- `if c.x != nil { c.x.Wait() }`
pub wait_for : (World → Bool) → (Component → Bool) → (World → World) → Run (Unit {0})
wait_for ctx is_set stopped s =
    if is_set s.c
    then if ctx s.w then (go tt, record s { w = stopped s.w }) else (halt, s)
    else (go tt, s)

pub disconnect : Run (Unit {0})
disconnect s =
    if s.c.conn then (go tt, record s { w = record s.w { connection = false } }) else (go tt, s)

pub close_host : Run (Unit {0})
close_host s = if s.c.h then (go tt, record s { w = record s.w { host = false } }) else (go tt, s)

-- A server of a listener returns once the listener is closed.
pub wait_for_http : Option Bytes → Run (Unit {0})
wait_for_http none s = (go tt, s)
wait_for_http (some ln) s =
    if is_open ln s.w.listening
    then (halt, s)
    else (go tt, record s { w = record s.w { http = none } })

pub wait_for_grpc : Option GrpcServerConfig → Run (Unit {0})
wait_for_grpc none s = (go tt, s)
wait_for_grpc (some cfg) s =
    if is_open cfg.listener s.w.listening
    then (halt, s)
    else (go tt, record s { w = record s.w { grpc = none } })

pub close : Bytes → Run (Unit {0})
close ln = on_w λ w. record w { listening = close_listener ln w.listening }

pub stop_http : Option Bytes → Run (Unit {0})
stop_http none s = (go tt, s)
stop_http (some ln) s = (do close ln; (λ s'. wait_for_http s'.c.http_server s')) s

pub stop_grpc : Option Bytes → Run (Unit {0})
stop_grpc none s = (go tt, s)
stop_grpc (some ln) s = (do close ln; (λ s'. wait_for_grpc s'.c.grpc_server s')) s

abbrev close_database : Option Bytes → World → World
close_database none w = w
close_database (some path) w = record w { database = none }

pub stop_database : Run (Unit {0})
stop_database s = (go tt, record s { w = close_database s.c.tmsql s.w })

-- The wait for the consensus strategy is one for its retriever, which runs under the context of `Start`.
pub stop : Run (Unit {0})
stop = do
  cancel
  wait_for root_ctx (λ c. c.dh) (λ w. record w { data_host = false })
  wait_for root_ctx (λ c. c.e) (λ w. record w { engine = none })
  wait_for root_ctx (λ c. c.driver) (λ w. record w { driver = false })
  wait_for start_ctx (λ c. c.c_strat) (λ w. record w { strategy = false })
  disconnect
  close_host
  λ s. stop_http s.c.http_ln s
  λ s. stop_grpc s.c.grpc_ln s
  stop_database
