-- ===== src/Requests.antt =====
-- gserver/internal/gsbd/cache.go: requests for block data, shared by pointer between the cache and
-- those that wait for the data. The mutex makes every method one step.
pub mod Laws
use gcosmos.Base.{
  ℕ, suc, Bool, true, false, List, [], Option, none, some, Bytes, Map, lookup, put, remove, nat_key,
  bytes_key, Result, ok, panic,
}

-- `ready` says that the channel is closed.
pub record BlockDataRequest (Tx : Type 0) : Type 0 where
  pub ready : Bool
  pub transactions : List Tx
  pub encoded_transactions : Bytes

-- The cache and the objects it points to. `none` is the nil pointer.
pub record RequestCache (Tx : Type 0) : Type 0 where
  pub rs : Map Bytes (Option ℕ)
  pub heap : Map ℕ (BlockDataRequest Tx)
  pub next : ℕ

abbrev pub pointer : Option (Option ℕ) → Result (Unit {0}) (Option ℕ)
pointer none = ok none
pointer (some none) = panic
pointer (some (some p)) = ok (some p)

module _ {Tx : Type 0} where
  -- `&BlockDataRequest{…}`: a new object, and the cache as it was.
  unfoldable pub allocate : BlockDataRequest Tx → RequestCache Tx → RequestCache Tx
  allocate req c = record c { heap = put c.next req c.heap; next = suc c.next }

  abbrev add_new :
      RequestCache Tx → Bytes → Option ℕ → Option (Option ℕ) → Result (Unit {0}) (RequestCache Tx)
  add_new c id req (some old) = panic
  add_new c id req none = ok (record c { rs = put id req c.rs })

  unfoldable pub set_in_flight :
      Bytes → Option ℕ → RequestCache Tx → Result (Unit {0}) (RequestCache Tx)
  set_in_flight id none c = panic
  set_in_flight id (some p) c = add_new c id (some p) (lookup id c.rs)

  unfoldable pub set_immediately_available :
      Bytes → List Tx → Bytes → RequestCache Tx → Result (Unit {0}) (RequestCache Tx)
  unfolding allocate set_in_flight
  set_immediately_available id txs encoded c =
      set_in_flight id (some c.next)
        (allocate (record { ready = true; transactions = txs; encoded_transactions = encoded }) c)

  abbrev purge_old :
      RequestCache Tx → Bytes → Option (Option ℕ) → Result (Unit {0}) (RequestCache Tx)
  purge_old c id none = panic
  purge_old c id (some old) = ok (record c { rs = remove id c.rs })

  unfoldable pub purge : Bytes → RequestCache Tx → Result (Unit {0}) (RequestCache Tx)
  purge id c = purge_old c id (lookup id c.rs)

  -- The pointer, if there is an entry.
  unfoldable pub get : Bytes → RequestCache Tx → Result (Unit {0}) (Option ℕ)
  get id c = pointer (lookup id c.rs)

  abbrev pub behind : RequestCache Tx → Option (Option ℕ) → Option (BlockDataRequest Tx)
  behind c none = none
  behind c (some none) = none
  behind c (some (some p)) = lookup p c.heap

  -- What a reader sees that follows the pointer.
  abbrev pub request_at : RequestCache Tx → Bytes → Option (BlockDataRequest Tx)
  request_at c id = behind c (lookup id c.rs)
