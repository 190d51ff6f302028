-- ===== src/Server/Serving.antt =====
-- How the HTTP and the gRPC server run and end: the two goroutines that gserver/internal/gsi/http.go and
-- gserver/internal/ggrpc/server.go start for a server, and what `Wait` waits for.
pub mod Ends
use gcosmos.Base.{
  ℕ, suc, ◌+◌, ◌≡◌, ◌⊎◌, Bool, true, false, Option, none, some, Bytes, Result, ok, panic,
}

-- `serving` and `watching` say whether `serve` and `waitForShutdown` run, `done` is the closed channel, and
-- `stopped` the server that was told to end.
pub record Serving : Type 0 where
  pub serving : Bool
  pub watching : Bool
  pub done : Bool
  pub ctx_done : Bool
  pub listening : Bool
  pub stopped : Bool

-- `NewHTTPServer`
unfoldable pub new_http_server : Serving
new_http_server = record {
  serving = true;
  watching = true;
  done = false;
  ctx_done = false;
  listening = true;
  stopped = false;
}

-- `NewGordianGRPCServer`, which panics without a listener.
pub new_gordian_grpc_server : Option Bytes → Result (Unit {0}) Serving
new_gordian_grpc_server none = panic
new_gordian_grpc_server (some ln) = ok (record {
  serving = true;
  watching = true;
  done = false;
  ctx_done = false;
  listening = true;
  stopped = false;
})

-- One turn of a goroutine. `Serve` returns when the server was told to end or its listener gives no more
-- connections; it closes the listener, and `done` is closed behind it. The other goroutine ends when it
-- sees `done`, or tells the server to end when it sees the context cancelled.
pub data Turn : Serving → Serving → Type 0 where
  serve_ends :
      (s : Serving)
      → s.serving ≡ true
      → (s.stopped ≡ true) ⊎ (s.listening ≡ false)
      → Turn s (record s { serving = false; listening = false; done = true })
  sees_done :
      (s : Serving) → s.watching ≡ true → s.done ≡ true → Turn s (record s { watching = false })
  shuts_down :
      (s : Serving)
      → s.watching ≡ true
      → s.ctx_done ≡ true
      → Turn s (record s { watching = false; stopped = true; listening = false })

-- What happens outside: the context is cancelled, or the listener is closed or fails for good.
pub data Outside : Serving → Serving → Type 0 where
  cancels : (s : Serving) → Outside s (record s { ctx_done = true })
  closes : (s : Serving) → Outside s (record s { listening = false })

-- States that a server comes to.
pub data Reached (start : Serving) : Serving → Type 0 where
  here : Reached start start
  by_turn : {s s' : Serving} → Reached start s → Turn s s' → Reached start s'
  by_outside : {s s' : Serving} → Reached start s → Outside s s' → Reached start s'

-- A number of turns one after the other.
pub data Turns : ℕ → Serving → Serving → Type 0 where
  no_turn : (s : Serving) → Turns 0 s s
  then_turn : {n : ℕ} {s s₁ s₂ : Serving} → Turns n s s₁ → Turn s₁ s₂ → Turns (suc n) s s₂
