-- ===== src/Component/Peers.antt =====
-- The goroutine of `Start` that tells the catchup client of peers that connect and disconnect, and
-- `WriteCustomConfigAt`.
pub mod Known
use gcosmos.Base.{
  ℕ, Bool, true, false, List, [], ◌∷◌, ◌++◌, Option, none, some, Bytes, codes, Result, ok, err,
}

-- libp2p's connectedness, where only two values are told apart.
pub data Connectedness : Type 0 where
  connected not_connected limited : Connectedness

-- What the subscription gives, or the end of the context.
pub data PeerEvent : Type 0 where
  context_done other_event : PeerEvent
  connectedness_changed : Connectedness → Bytes → PeerEvent

pub data PeerCall : Type 0 where
  add_peer remove_peer : Bytes → PeerCall

abbrev pub on_change : Connectedness → Bytes → List PeerCall
on_change connected p = add_peer p ∷ []
on_change not_connected p = remove_peer p ∷ []
on_change limited p = []

-- What the channel of each kind of call carries: the client's loop takes from either.
abbrev pub adds : List PeerCall → List Bytes
adds [] = []
adds (add_peer p ∷ calls) = p ∷ adds calls
adds (remove_peer p ∷ calls) = adds calls

abbrev pub removes : List PeerCall → List Bytes
removes [] = []
removes (add_peer p ∷ calls) = removes calls
removes (remove_peer p ∷ calls) = p ∷ removes calls

-- The calls of the catchup client, in the order in which they are made. The goroutine ends with the context.
unfoldable pub forward : List PeerEvent → List PeerCall
forward [] = []
forward (context_done ∷ events) = []
forward (other_event ∷ events) = forward events
forward (connectedness_changed c p ∷ events) = on_change c p ++ forward events

-- The path of the empty file that `WriteCustomConfigAt` makes.
unfoldable write_custom_config_at :
    (Bytes → Bytes → Bytes) → (Bytes → Bool) → Bytes → Result (Unit {0}) (Bytes × Bytes)
write_custom_config_at file_path create config_path =
    elim (create (file_path config_path (codes "config.toml"))) [
      | true ↦ ok (file_path config_path (codes "config.toml"), [])
      | false ↦ err tt
    ]
