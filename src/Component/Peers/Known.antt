-- ===== src/Component/Peers/Known.antt =====
-- Which peers the catchup client knows after events of the host.
use gcosmos.Base.{
  ◌≡◌, refl, Bool, true, false, not, ◌&&◌, ◌||◌, ap, ◌∙◌, inl, inr, Bool-cases, List, [], ◌∷◌, ◌++◌,
  Option, none, some, Bytes, arith, bytes_beq, bytes_beq_iff, bytes_key, lookup, lookup-put,
  lookup-remove, if◌then◌else◌,
}
use gcosmos.Catchup.Peers.{
  State, Turn, Turns, Output, initial, resume, pause, next_peer_blocked, next_peer,
  add_peer_excluded, add_peer, add_peer_unblocks, remove_peer, exclude_peer, done, then_turn,
}
use gcosmos.Component.Peers.{
  Connectedness, connected, not_connected, limited, PeerEvent, context_done, other_event,
  connectedness_changed, PeerCall, forward, adds, removes,
}
use gcosmos.Component.Peers

-- The call that a turn of the client's main loop handles.
abbrev call_of : {s s' : State} {o : Output} → Turn s o s' → List PeerCall
call_of (resume s start stop) = []
call_of (pause s) = []
call_of (next_peer_blocked s free empty) = []
call_of (next_peer s p free known) = []
call_of (add_peer_excluded s p known) = Peers.add_peer p ∷ []
call_of (add_peer s p fresh free) = Peers.add_peer p ∷ []
call_of (add_peer_unblocks s p fresh blocked) = Peers.add_peer p ∷ []
call_of (remove_peer s p) = Peers.remove_peer p ∷ []
call_of (exclude_peer s p) = []

abbrev pub calls : {s s' : State} → Turns s s' → List PeerCall
calls (done s) = []
calls (then_turn o before t) = calls before ++ call_of t

-- Whether a peer has connected, or disconnected, while the context lasted.
pub ever_connected : Bytes → List PeerEvent → Bool
ever_connected p [] = false
ever_connected p (context_done ∷ events) = false
ever_connected p (other_event ∷ events) = ever_connected p events
ever_connected p (connectedness_changed connected q ∷ events) =
    bytes_beq q p || ever_connected p events
ever_connected p (connectedness_changed not_connected q ∷ events) = ever_connected p events
ever_connected p (connectedness_changed limited q ∷ events) = ever_connected p events

unfoldable pub ever_disconnected : Bytes → List PeerEvent → Bool
ever_disconnected p [] = false
ever_disconnected p (context_done ∷ events) = false
ever_disconnected p (other_event ∷ events) = ever_disconnected p events
ever_disconnected p (connectedness_changed connected q ∷ events) = ever_disconnected p events
ever_disconnected p (connectedness_changed not_connected q ∷ events) =
    bytes_beq q p || ever_disconnected p events
ever_disconnected p (connectedness_changed limited q ∷ events) = ever_disconnected p events

abbrev is_among : Bytes → List Bytes → Bool
is_among p [] = false
is_among p (q ∷ qs) = bytes_beq q p || is_among p qs

adds-forward :
    (p : Bytes) (events : List PeerEvent)
    → is_among p (adds (forward events)) ≡ ever_connected p events
unfolding ever_connected forward
adds-forward p [] = refl
adds-forward p (context_done ∷ events) = refl
adds-forward p (other_event ∷ events) = adds-forward p events
adds-forward p (connectedness_changed connected q ∷ events) =
    ap (λ b. bytes_beq q p || b) (adds-forward p events)
adds-forward p (connectedness_changed not_connected q ∷ events) = adds-forward p events
adds-forward p (connectedness_changed limited q ∷ events) = adds-forward p events

removes-forward :
    (p : Bytes) (events : List PeerEvent)
    → is_among p (removes (forward events)) ≡ ever_disconnected p events
unfolding ever_disconnected forward
removes-forward p [] = refl
removes-forward p (context_done ∷ events) = refl
removes-forward p (other_event ∷ events) = removes-forward p events
removes-forward p (connectedness_changed connected q ∷ events) = removes-forward p events
removes-forward p (connectedness_changed not_connected q ∷ events) =
    ap (λ b. bytes_beq q p || b) (removes-forward p events)
removes-forward p (connectedness_changed limited q ∷ events) = removes-forward p events

-- Whether the last call for a peer adds it.
abbrev after_call : Bytes → Bool → PeerCall → Bool
after_call p b (Peers.add_peer q) = if bytes_beq q p then true else b
after_call p b (Peers.remove_peer q) = if bytes_beq q p then false else b

is_added : Bytes → Bool → List PeerCall → Bool
is_added p b [] = b
is_added p b (c ∷ cs) = is_added p (after_call p b c) cs

is_added-append :
    (p : Bytes) (b : Bool) (xs ys : List PeerCall)
    → is_added p b (xs ++ ys) ≡ is_added p (is_added p b xs) ys
unfolding is_added
is_added-append p b [] ys = refl
is_added-append p b (x ∷ xs) ys = is_added-append p (after_call p b x) xs ys

-- A peer that is never removed is added if it ever is, whatever the order.
is_added-never_removed :
    (p : Bytes) (b : Bool) (cs : List PeerCall)
    → is_among p (removes cs) ≡ false
    → is_added p b cs ≡ (b || is_among p (adds cs))
unfolding is_added
is_added-never_removed p b [] h = ground (arith, Bool-cases b)
is_added-never_removed p b (Peers.add_peer q ∷ cs) h = elim (Bool-cases (bytes_beq q p)) [
  | inl same ↦ rw same (is_added-never_removed p true cs h ∙ ground (arith, Bool-cases b))
  | inr other ↦ rw other (is_added-never_removed p b cs h)
]
is_added-never_removed p b (Peers.remove_peer q ∷ cs) h = elim (Bool-cases (bytes_beq q p)) [
  | inl same ↦ absurd (ground arith)
  | inr other ↦ rw other (is_added-never_removed p b cs (ground arith))
]

abbrev pub is_known : Option (Unit {0}) → Bool
is_known none = false
is_known (some v) = true

Turn-known :
    (p : Bytes) {s s' : State} {o : Output} (t : Turn s o s') (b : Bool)
    → is_known (lookup p s.peers) ≡ (b && not (is_known (lookup p s.excluded_peers)))
    → is_known (lookup p s'.peers)
      ≡ (is_added p b (call_of t) && not (is_known (lookup p s'.excluded_peers)))
unfolding is_added
Turn-known p (resume s start stop) b h = h
Turn-known p (pause s) b h = h
Turn-known p (next_peer_blocked s free empty) b h = h
Turn-known p (next_peer s q free known) b h = h
Turn-known p (add_peer_excluded s q known) b h = ground (arith, bytes_beq_iff q p)
Turn-known p (add_peer s q fresh free) b h =
    ground (arith, bytes_beq_iff q p, lookup-put q p tt s.peers)
Turn-known p (add_peer_unblocks s q fresh blocked) b h =
    ground (arith, bytes_beq_iff q p, lookup-put q p tt s.peers)
Turn-known p (remove_peer s q) b h = ground (arith, bytes_beq_iff q p, lookup-remove q p s.peers)
Turn-known p (exclude_peer s q) b h =
    ground (arith, bytes_beq_iff q p, lookup-remove q p s.peers, lookup-put q p tt s.excluded_peers)

Turns-known :
    (p : Bytes) {s s' : State} (ts : Turns s s')
    → is_known (lookup p s.peers) ≡ false
    → is_known (lookup p s'.peers)
      ≡ (is_added p false (calls ts) && not (is_known (lookup p s'.excluded_peers)))
unfolding is_added
Turns-known p (done s) h = h
Turns-known p (then_turn o before t) h =
    rw (is_added-append p false (calls before) (call_of t))
      (Turn-known p t (is_added p false (calls before)) (Turns-known p before h))

-- A peer that has not disconnected while the context lasted is one that the catchup client may ask
-- exactly if it has connected and has not been excluded, once the client has handled what the component
-- told it of the host's events. Connections and disconnections come through a channel of their own each,
-- of which the client keeps the order, while it takes from the two in any order.
pub known-forward :
    (p : Bytes) (events : List PeerEvent) (s : State) (ts : Turns initial s)
    → adds (calls ts) ≡ adds (forward events)
    → removes (calls ts) ≡ removes (forward events)
    → ever_disconnected p events ≡ false
    → is_known (lookup p s.peers)
      ≡ (ever_connected p events && not (is_known (lookup p s.excluded_peers)))
unfolding lookup
known-forward p events s ts added removed stays =
    let never : is_among p (removes (calls ts)) ≡ false =
      ap (is_among p) removed ∙ removes-forward p events ∙ stays in
    let connected_is : is_added p false (calls ts) ≡ ever_connected p events =
      is_added-never_removed p false (calls ts) never
      ∙ ap (is_among p) added
      ∙ adds-forward p events in
    rw (← connected_is) (Turns-known p ts refl)
