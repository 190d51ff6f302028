-- ===== src/Catchup/Peers.antt =====
-- The main loop of gserver/internal/gp2papi/catchupclient.go: which peers may be asked, and the
-- request for one that waits because there is none.
use gcosmos.Base.{
  ℕ, suc, ◌≡◌, ◌≢◌, refl, Bool, true, false, [], none, some, arith, Bytes, Map, lookup, put, remove,
  lookup-put, lookup-remove, bytes_key, bytes_beq_iff,
}

-- `blocked` is `requestBlockedOnMissingPeer != nil`. `fetch_ctx` counts the contexts made so far, of
-- which all but the last are cancelled.
pub record State : Type 0 where
  pub peers : Map Bytes (Unit {0})
  pub excluded_peers : Map Bytes (Unit {0})
  pub blocked : Bool
  pub fetch_ctx : ℕ

abbrev pub initial : State
initial = record { peers = []; excluded_peers = []; blocked = false; fetch_ctx = 0 }

-- What the fetch worker gets from one turn of the loop.
pub data Output : Type 0 where
  nothing : Output
  peer : Bytes → Output
  new_fetch_state : ℕ → ℕ → ℕ → Output

-- One turn of the loop.
pub data Turn : State → Output → State → Type 0 where
  resume : (s : State) (start stop : ℕ) → Turn s (new_fetch_state s.fetch_ctx start stop) s
  pause : (s : State) → Turn s nothing (record s { fetch_ctx = suc s.fetch_ctx })
  next_peer_blocked :
      (s : State) → s.blocked ≡ false → s.peers ≡ [] → Turn s nothing (record s { blocked = true })
  next_peer :
      (s : State) (p : Bytes) → s.blocked ≡ false → lookup p s.peers ≡ some tt → Turn s (peer p) s
  add_peer_excluded :
      (s : State) (p : Bytes) → lookup p s.excluded_peers ≡ some tt → Turn s nothing s
  add_peer :
      (s : State) (p : Bytes)
      → lookup p s.excluded_peers ≡ none
      → s.blocked ≡ false
      → Turn s nothing (record s { peers = put p tt s.peers })
  add_peer_unblocks :
      (s : State) (p : Bytes)
      → lookup p s.excluded_peers ≡ none
      → s.blocked ≡ true
      → Turn s (peer p) (record s { peers = put p tt s.peers; blocked = false })
  remove_peer : (s : State) (p : Bytes) → Turn s nothing (record s { peers = remove p s.peers })
  exclude_peer :
      (s : State) (p : Bytes)
      → Turn s nothing
          (record s { peers = remove p s.peers; excluded_peers = put p tt s.excluded_peers })

-- Turns one after the other.
pub data Turns : State → State → Type 0 where
  done : (s : State) → Turns s s
  then_turn : {s s₁ s₂ : State} (o : Output) → Turns s s₁ → Turn s₁ o s₂ → Turns s s₂

pub record IsSound (s : State) : Type 0 where
  pub apart : (p : Bytes) → lookup p s.excluded_peers ≡ some tt → lookup p s.peers ≡ none
  pub blocked_alone : s.blocked ≡ true → s.peers ≡ []

pub initial-IsSound : IsSound initial
unfolding lookup
initial-IsSound = record { apart = λ p e. refl; blocked_alone = λ e. cc }

remove_none : (p : Bytes) (m : Map Bytes (Unit {0})) → m ≡ [] → remove p m ≡ []
unfolding remove
remove_none p m e = rw e

pub Turn-IsSound : {s s' : State} {o : Output} → Turn s o s' → IsSound s → IsSound s'
Turn-IsSound (resume s start stop) h = h
Turn-IsSound (pause s) h = record { apart = h.apart; blocked_alone = h.blocked_alone }
Turn-IsSound (next_peer_blocked s free empty) h = record {
  apart = h.apart;
  blocked_alone = λ _. empty;
}
Turn-IsSound (next_peer s p free known) h = h
Turn-IsSound (add_peer_excluded s p known) h = h
Turn-IsSound (add_peer s p fresh free) h = record {
  apart = λ q e. ground (arith, lookup-put p q tt s.peers, h.apart q, bytes_beq_iff p q);
  blocked_alone = λ e. cc;
}
Turn-IsSound (add_peer_unblocks s p fresh blocked) h = record {
  apart = λ q e. ground (arith, lookup-put p q tt s.peers, h.apart q, bytes_beq_iff p q);
  blocked_alone = λ e. cc;
}
Turn-IsSound (remove_peer s p) h = record {
  apart = λ q e. ground (arith, lookup-remove p q s.peers, h.apart q);
  blocked_alone = λ e. remove_none p s.peers (h.blocked_alone e);
}
Turn-IsSound (exclude_peer s p) h = record {
  apart = λ q e.
      ground (arith, lookup-remove p q s.peers, lookup-put p q tt s.excluded_peers, h.apart q);
  blocked_alone = λ e. remove_none p s.peers (h.blocked_alone e);
}

-- In every state the loop reaches, no excluded peer is among the peers, and a request for a peer waits
-- only while there is none.
pub Turns-IsSound : {s s' : State} → Turns s s' → IsSound s → IsSound s'
Turns-IsSound (done s) h = h
Turns-IsSound (then_turn o before last) h = Turn-IsSound last (Turns-IsSound before h)

Turn-excluded :
    {s s' : State} {o : Output} (p : Bytes)
    → Turn s o s'
    → lookup p s.excluded_peers ≡ some tt
    → lookup p s'.excluded_peers ≡ some tt
Turn-excluded q (resume s start stop) e = e
Turn-excluded q (pause s) e = e
Turn-excluded q (next_peer_blocked s free empty) e = e
Turn-excluded q (next_peer s p free known) e = e
Turn-excluded q (add_peer_excluded s p known) e = e
Turn-excluded q (add_peer s p fresh free) e = e
Turn-excluded q (add_peer_unblocks s p fresh blocked) e = e
Turn-excluded q (remove_peer s p) e = e
Turn-excluded q (exclude_peer s p) e = ground (arith, lookup-put p q tt s.excluded_peers)

Turns-excluded :
    {s s' : State} (p : Bytes)
    → Turns s s'
    → lookup p s.excluded_peers ≡ some tt
    → lookup p s'.excluded_peers ≡ some tt
Turns-excluded p (done s) e = e
Turns-excluded p (then_turn o before last) e = Turn-excluded p last (Turns-excluded p before e)

Turn-peer :
    (p : Bytes) {s s' : State}
    → IsSound s
    → Turn s (peer p) s'
    → lookup p s.excluded_peers ≢ some tt
Turn-peer p h (next_peer s _ free known) e = ground (arith, h.apart p)
Turn-peer p h (add_peer_unblocks s _ fresh blocked) e = cc

-- A peer that was excluded in some reachable state is not given to the fetch worker in any later turn,
-- not even when it is added again.
pub excluded_never_given :
    (s s₁ s₂ : State) (p : Bytes)
    → Turns initial s
    → lookup p s.excluded_peers ≡ some tt
    → Turns s s₁
    → ¬ Turn s₁ (peer p) s₂
excluded_never_given s s₁ s₂ p before e after given =
    Turn-peer p (Turns-IsSound after (Turns-IsSound before initial-IsSound)) given
      (Turns-excluded p after e)
