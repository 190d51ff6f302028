-- ===== src/Server/Serving/Ends.antt =====
-- A server that is told to end does, with both of its goroutines.
use gcosmos.Base.{
  ℕ, suc, ◌+◌, ◌≤◌, ◌≡◌, ◌⊎◌, inl, inr, refl, Bool, true, false, arith, Bool-cases, Bytes, some, ok,
}
use gcosmos.Server.Serving.{
  Serving, new_http_server, new_gordian_grpc_server, Turn, serve_ends, sees_done, shuts_down,
  Outside, cancels, closes, Reached, here, by_turn, by_outside, Turns, no_turn, then_turn,
}

-- `done` is closed once `serve` has returned, and a watcher that ended saw that or stopped the server.
record IsSound (s : Serving) : Type 0 where
  done_after : (s.done ≡ true) ⊎ (s.serving ≡ true)
  watcher_after : (s.watching ≡ true) ⊎ (s.done ≡ true) ⊎ (s.stopped ≡ true)
  closed_once : (s.done ≡ false) ⊎ (s.serving ≡ false)

Turn-IsSound : {s s' : Serving} → Turn s s' → IsSound s → IsSound s'
Turn-IsSound (serve_ends s r o) h = ground arith
Turn-IsSound (sees_done s w d) h = ground arith
Turn-IsSound (shuts_down s w c) h = ground arith

Outside-IsSound : {s s' : Serving} → Outside s s' → IsSound s → IsSound s'
Outside-IsSound (cancels s) h = ground arith
Outside-IsSound (closes s) h = ground arith

Reached-IsSound : {s s' : Serving} → IsSound s → Reached s s' → IsSound s'
Reached-IsSound h here = h
Reached-IsSound h (by_turn r t) = Turn-IsSound t (Reached-IsSound h r)
Reached-IsSound h (by_outside r o) = Outside-IsSound o (Reached-IsSound h r)

abbrev count : Bool → ℕ
count true = 1
count false = 0

-- The goroutines that run.
abbrev running : Serving → ℕ
running s = count s.serving + count s.watching

running-le : (s : Serving) → running s ≤ 2
running-le s = ground arith

Turn-running : {s s' : Serving} → Turn s s' → running s ≡ suc (running s')
Turn-running (serve_ends s r o) = ground arith
Turn-running (sees_done s w d) = ground arith
Turn-running (shuts_down s w c) = ground arith

Turns-running : {n : ℕ} {s s' : Serving} → Turns n s s' → running s ≡ n + running s'
Turns-running (no_turn s) = omega arith
Turns-running (then_turn ts t) = omega (arith, Turns-running ts, Turn-running t)

-- The server was told to end.
abbrev IsAsked : Serving → Type 0
IsAsked s = (s.ctx_done ≡ true) ⊎ (s.listening ≡ false)

Turn-IsAsked : {s s' : Serving} → Turn s s' → IsAsked s → IsAsked s'
Turn-IsAsked (serve_ends s r o) h = inr refl
Turn-IsAsked (sees_done s w d) h = h
Turn-IsAsked (shuts_down s w c) h = inr refl

Turns-Keeps :
    {n : ℕ} {s s' : Serving} → Turns n s s' → IsSound s → IsAsked s → IsSound s' × IsAsked s'
Turns-Keeps (no_turn s) h k = (h, k)
Turns-Keeps (then_turn ts t) h k =
    let (h', k') = Turns-Keeps ts h k in (Turn-IsSound t h', Turn-IsAsked t k')

-- Both goroutines have ended, and `Wait` returns.
pub record HasEnded (s : Serving) : Type 0 where
  pub served : s.serving ≡ false
  pub watched : s.watching ≡ false
  pub done : s.done ≡ true

-- `serve` runs: it can return, or the watcher can tell it to.
serving_moves :
    (s : Serving) → IsSound s → IsAsked s → s.serving ≡ true → (s' : Serving) × Turn s s'
serving_moves s h (inr closed) r = (_, serve_ends s r (inr closed))
serving_moves s h (inl c) r = elim (Bool-cases s.watching) [
  | inl w ↦ (_, shuts_down s w c)
  | inr gone ↦ (_, serve_ends s r (inl (ground arith)))
]

moves : (s : Serving) → IsSound s → IsAsked s → HasEnded s ⊎ ((s' : Serving) × Turn s s')
moves s h k = elim (Bool-cases s.serving) [
  | inl r ↦ inr (serving_moves s h k r)
  | inr returned ↦ elim (Bool-cases s.watching) [
    | inl w ↦ inr (_, sees_done s w (ground arith))
    | inr gone ↦ inl (record { served = returned; watched = gone; done = ground arith })
  ]
]

-- A server as it is made.
abbrev Starts : Serving → Type 0
Starts s = (s ≡ new_http_server) ⊎ ((ln : Bytes) × (new_gordian_grpc_server (some ln) ≡ ok s))

Starts-IsSound : (s : Serving) → Starts s → IsSound s
unfolding new_http_server new_gordian_grpc_server
Starts-IsSound s (inl e) = ground arith
Starts-IsSound s (inr (ln, e)) = ground arith

-- Once the context of a server, HTTP or gRPC, is cancelled, or its listener closed or failed for good, its
-- goroutines take at most two more turns, in whatever order; and as long as they have not both ended, with
-- the channel closed that Wait waits for, one of them can take a turn. Serve returns only once the server
-- was told to end or its listener is gone.
pub server_ends :
    (n : ℕ) (start s s' : Serving)
    → Starts start
    → Reached start s
    → IsAsked s
    → Turns n s s'
    → (n ≤ 2) × (HasEnded s' ⊎ ((s'' : Serving) × Turn s' s''))
server_ends n start s s' made reached asked ts =
    let (h, k) = Turns-Keeps ts (Reached-IsSound (Starts-IsSound start made) reached) asked in
    (omega (arith, Turns-running ts, running-le s), moves s' h k)
