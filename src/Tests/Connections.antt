-- ===== src/Tests/Connections.antt =====
-- Peers that connect and disconnect.
use gcosmos.Base.{
  lookup, put, remove, bytes_key, not, ◌&&◌, List, ◌≡◌, refl, true, false, [], ◌∷◌, codes,
}
use gcosmos.Catchup.Peers
use gcosmos.Catchup.Peers.{
  Turns, initial, nothing, add_peer, exclude_peer, remove_peer, done, then_turn,
}
use gcosmos.Component.Peers.{
  PeerEvent, connected, not_connected, context_done, other_event, connectedness_changed, forward,
  adds, removes,
}
use gcosmos.Component.Peers.Known.{
  calls, ever_connected, ever_disconnected, is_known, known-forward,
}

-- Two peers connect, the second is excluded, and the first is what the client may ask.
abbrev two_events : List PeerEvent
two_events =
    connectedness_changed connected (codes "a")
    ∷ other_event
    ∷ connectedness_changed connected (codes "b")
    ∷ context_done
    ∷ connectedness_changed not_connected (codes "a")
    ∷ []

abbrev with_a : Peers.State
with_a = record initial { peers = put (codes "a") tt [] }

abbrev with_ab : Peers.State
with_ab = record with_a { peers = put (codes "b") tt with_a.peers }

abbrev without_b : Peers.State
without_b = record with_ab {
  peers = remove (codes "b") with_ab.peers;
  excluded_peers = put (codes "b") tt [];
}

two_turns : Turns initial without_b
unfolding lookup put remove
two_turns =
    then_turn nothing
      (then_turn nothing (then_turn nothing (done initial) (add_peer initial (codes "a") refl refl))
        (add_peer with_a (codes "b") refl refl))
      (exclude_peer with_ab (codes "b"))

two_added : adds (calls two_turns) ≡ adds (forward two_events)
unfolding two_turns forward
two_added = refl

none_removed : removes (calls two_turns) ≡ removes (forward two_events)
unfolding two_turns forward
none_removed = refl

a_stays : ever_disconnected (codes "a") two_events ≡ false
unfolding ever_disconnected
a_stays = refl

known-forward_example : is_known (lookup (codes "a") without_b.peers) ≡ (
    ever_connected (codes "a") two_events
    && not (is_known (lookup (codes "a") without_b.excluded_peers)))
known-forward_example =
    known-forward (codes "a") two_events without_b two_turns two_added none_removed a_stays

a_known : is_known (lookup (codes "a") without_b.peers) ≡ true
unfolding lookup put remove
a_known = refl

-- A peer connects and disconnects, the client takes the two calls the other way round, and goes on
-- asking the peer.
abbrev brief : List PeerEvent
brief =
    connectedness_changed connected (codes "a")
    ∷ connectedness_changed not_connected (codes "a")
    ∷ []

swapped : Turns initial with_a
unfolding lookup put remove
swapped =
    then_turn nothing (then_turn nothing (done initial) (remove_peer initial (codes "a")))
      (add_peer initial (codes "a") refl refl)

calls-swapped :
    (adds (calls swapped) ≡ adds (forward brief))
    × (removes (calls swapped) ≡ removes (forward brief))
unfolding swapped forward
calls-swapped = (refl, refl)

still_known : is_known (lookup (codes "a") with_a.peers) ≡ true
unfolding lookup put
still_known = refl
