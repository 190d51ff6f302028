-- ===== src/Component/Stop/Parts.antt =====
-- What each part of `Stop` does when it returns.
use gcosmos.Base.{
  ◌≡◌, refl, ◌⊎◌, inl, inr, Bool, true, false, List, [], ◌∷◌, ◌++◌, Option, none, some, Bytes,
  arith, ==_refl, bytes_key, Option-cases, Bool-cases,
}
use gcosmos.Component.{Component, World, State}
use gcosmos.Component.Stop.{
  close_listener, is_open, wait_for, disconnect, close_host, wait_for_http, wait_for_grpc, close,
  stop_http, stop_grpc, stop_database,
}
use gcosmos.Component.Wired.{listeners, served}
use gcosmos.Driver.Steps.{go}

-- A wait returns if there is nothing to wait for, or the context is cancelled.
pub wait_for-goes :
    (ctx : World → Bool) (is_set : Component → Bool) (stopped : World → World) (s : State)
    → (is_set s.c ≡ true → ctx s.w ≡ true)
    → (is_set s.c ≡ false → stopped s.w ≡ s.w)
    → wait_for ctx is_set stopped s ≡ (go tt, record s { w = stopped s.w })
unfolding wait_for
wait_for-goes ctx is_set stopped s c unset = elim (Bool-cases (is_set s.c)) [
  | inl set ↦ rw (set, c set)
  | inr nil ↦ rw (nil, unset nil)
]

abbrev pub shut : Option Bytes → List Bytes → List Bytes
shut none ls = ls
shut (some ln) ls = close_listener ln ls

is_open-close_listener : (ln : Bytes) (ls : List Bytes) → is_open ln (close_listener ln ls) ≡ false
is_open-close_listener ln [] = refl
is_open-close_listener ln (l ∷ ls) = ground (arith, is_open-close_listener ln ls)

pub shut-all : (g h : Option Bytes) → shut g (shut h (listeners g ++ listeners h)) ≡ []
shut-all none none = refl
shut-all none (some h) = ground (arith, ==_refl h)
shut-all (some g) none = ground (arith, ==_refl g)
shut-all (some g) (some h) = ground (arith, ==_refl g, ==_refl h)

pub stop_http-goes :
    (o : Option Bytes) (s : State)
    → s.w.http ≡ s.c.http_server
    → (s.c.http_server ≡ none) ⊎ (s.c.http_server ≡ o)
    → stop_http o s
      ≡ (go tt, record s { w = record s.w { listening = shut o s.w.listening; http = none } })
unfolding stop_http close wait_for_http
stop_http-goes none s e h = ground arith
stop_http-goes (some ln) s e h = ground (arith, is_open-close_listener ln s.w.listening)

pub stop_grpc-goes :
    (o : Option Bytes) (s : State)
    → s.w.grpc ≡ served s.c.grpc_server
    → (served s.c.grpc_server ≡ none) ⊎ (served s.c.grpc_server ≡ o)
    → stop_grpc o s
      ≡ (go tt, record s { w = record s.w { listening = shut o s.w.listening; grpc = none } })
unfolding stop_grpc close wait_for_grpc
stop_grpc-goes none s e h = elim (Option-cases s.c.grpc_server) [
  | inl off ↦ ground arith
  | inr (cfg, on) ↦ ground arith
]
stop_grpc-goes (some ln) s e h = elim (Option-cases s.c.grpc_server) [
  | inl off ↦ ground arith
  | inr (cfg, on) ↦ ground (arith, is_open-close_listener ln s.w.listening)
]

pub disconnect-goes :
    (s : State)
    → s.w.connection ≡ s.c.conn
    → disconnect s ≡ (go tt, record s { w = record s.w { connection = false } })
unfolding disconnect
disconnect-goes s e = ground (arith, Bool-cases s.c.conn)

pub close_host-goes :
    (s : State)
    → s.w.host ≡ s.c.h
    → close_host s ≡ (go tt, record s { w = record s.w { host = false } })
unfolding close_host
close_host-goes s e = ground (arith, Bool-cases s.c.h)

pub stop_database-goes :
    (s : State)
    → s.w.database ≡ s.c.tmsql
    → stop_database s ≡ (go tt, record s { w = record s.w { database = none } })
unfolding stop_database
stop_database-goes s e = ground (arith, Option-cases s.c.tmsql)
