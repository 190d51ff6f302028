-- ===== src/TxManager.antt =====
-- gserver/internal/gsi/txmanager.go: the callbacks of the transaction buffer.
use gcosmos.Base.{
  ◌≡◌, refl, Bool, true, false, List, [], ◌∷◌, Option, none, some, arith, Bytes, Map, lookup, put,
  lookup-put, bytes_key, bytes_beq, if◌then◌else◌, Result, ok, err,
}
use gcosmos.Consensus.Consider.{AppManager}
use gcosmos.Tx.{TxApi}

pub data AddTxError : Type 0 where
  simulation_failed tx_invalid : AddTxError

abbrev simulated : {S : Type 0} → Option (Bool × S) → Result AddTxError S
simulated none = err simulation_failed
simulated (some (true, s)) = err tx_invalid
simulated (some (false, s)) = ok s

module _ {Tx S : Type 0} (am : AppManager Tx S) where
  unfoldable pub add_tx : S → Tx → Result AddTxError S
  add_tx s tx = simulated (am.simulate_with_state s tx)

module _ {Tx : Type 0} (api : TxApi Tx) where
  unfoldable reject_map : Map Bytes (Unit {0}) → List Tx → Map Bytes (Unit {0})
  reject_map m [] = m
  reject_map m (r ∷ reject) = reject_map (put (api.hash r) tt m) reject

  abbrev found : {V : Type 0} → Option V → Bool
  found none = false
  found (some v) = true

  unfoldable tx_deleter_func : List Tx → Tx → Bool
  tx_deleter_func reject tx = found (lookup (api.hash tx) (reject_map [] reject))

  -- Some transaction of the list has the hash.
  abbrev any_hash : Bytes → List Tx → Bool
  any_hash h [] = false
  any_hash h (r ∷ reject) = if bytes_beq (api.hash r) h then true else any_hash h reject

  found-reject_map :
      (h : Bytes) (m : Map Bytes (Unit {0})) (reject : List Tx)
      → found (lookup h (reject_map m reject))
        ≡ (if any_hash h reject then true else found (lookup h m))
  unfolding reject_map
  found-reject_map h m [] = refl
  found-reject_map h m (r ∷ reject) =
      ground
        (arith, found-reject_map h (put (api.hash r) tt m) reject, lookup-put (api.hash r) h tt m)

  -- A transaction is deleted exactly if one of the rejected ones has its hash.
  tx_deleter_func-any_hash :
      (reject : List Tx) (tx : Tx) → tx_deleter_func reject tx ≡ any_hash (api.hash tx) reject
  unfolding tx_deleter_func lookup
  tx_deleter_func-any_hash reject tx = ground (arith, found-reject_map (api.hash tx) [] reject)
