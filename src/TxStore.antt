-- ===== src/TxStore.antt =====
-- txstore/txmemstore/store.go and txstore/store.go: results of transactions by transaction hash.
pub mod Laws
use gcosmos.Base.{
  ℕ, List, [], ◌∷◌, Option, none, some, Bytes, Map, lookup, put, bytes_key, length, nat_eq,
  if◌then◌else◌, Result, ok, err, panic,
}
use gcosmos.Tx.{TxApi}

pub record IndexedTx (R : Type 0) : Type 0 where
  pub height : ℕ
  pub tx_bytes : Bytes
  pub result : R

pub data LoadError : Type 0 where
  invalid_hash_length unknown_hash : LoadError

abbrev pub Store : Type 0 → Type 0
Store R = Map Bytes (IndexedTx R)

module _ {Tx R : Type 0} (api : TxApi Tx) where
  -- Results are taken in the order of the transactions; a later one replaces an earlier one.
  unfoldable pub save_loop : ℕ → Store R → List Tx → List R → Store R
  save_loop height s (tx ∷ txs) (r ∷ rs) =
      save_loop height
        (put (api.hash tx) (record { height = height; tx_bytes = api.bytes tx; result = r }) s) txs
        rs
  save_loop height s _ _ = s

  unfoldable pub save_block_result : Store R → ℕ → List Tx → List R → Result (Unit {0}) (Store R)
  save_block_result s height txs results =
      if nat_eq (length txs) (length results) then ok (save_loop height s txs results) else panic

module _ {R : Type 0} where
  abbrev pub found : Option (IndexedTx R) → Result LoadError (IndexedTx R)
  found none = err unknown_hash
  found (some itx) = ok itx

  unfoldable pub load_tx_by_hash : Store R → Bytes → Result LoadError (IndexedTx R)
  load_tx_by_hash s hash =
      if nat_eq (length hash) 32 then found (lookup hash s) else err invalid_hash_length
