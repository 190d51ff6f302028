-- ===== src/TxStore/Laws.antt =====
-- What a load answers after a block was saved.
use gcosmos.Base.{
  ℕ, ◌≡◌, ◌≢◌, refl, List, [], ◌∷◌, Option, none, some, arith, Bytes, lookup, put, lookup-put,
  bytes_key, bytes_beq, length, nat_eq, if◌then◌else◌, ok, err, panic,
}
use gcosmos.Tx.{TxApi}
use gcosmos.TxStore.{
  Store, IndexedTx, invalid_hash_length, save_loop, save_block_result, found, load_tx_by_hash,
}

module _ {Tx R : Type 0} (api : TxApi Tx) where
  -- The last transaction with the hash, with its result, among the pairs of a block.
  abbrev pub last_with : ℕ → Bytes → List Tx → List R → Option (IndexedTx R)
  last_with height hash [] rs = none
  last_with height hash (tx ∷ txs) [] = none
  last_with height hash (tx ∷ txs) (r ∷ rs) = elim (last_with height hash txs rs) [
    | some later ↦ some later
    | none ↦
        if bytes_beq (api.hash tx) hash
        then some (record { height = height; tx_bytes = api.bytes tx; result = r })
        else none
  ]

  abbrev pub or_else : Option (IndexedTx R) → Option (IndexedTx R) → Option (IndexedTx R)
  or_else (some a) b = some a
  or_else none b = b

  lookup-save_loop :
      (height : ℕ) (s : Store R) (txs : List Tx) (rs : List R) (hash : Bytes)
      → lookup hash (save_loop api height s txs rs)
        ≡ or_else (last_with height hash txs rs) (lookup hash s)
  unfolding save_loop
  lookup-save_loop height s [] rs hash = refl
  lookup-save_loop height s (tx ∷ txs) [] hash = refl
  lookup-save_loop height s (tx ∷ txs) (r ∷ rs) hash =
      let new : IndexedTx R = record { height = height; tx_bytes = api.bytes tx; result = r } in
      ground (
        arith,
        lookup-save_loop height (put (api.hash tx) new s) txs rs hash,
        lookup-put (api.hash tx) hash new s,
      )

  -- After a block was saved, a hash of 32 bytes finds the last transaction of the block that has it,
  -- with the block's height and the transaction's own result, and any other hash what it found
  -- before; a hash of another length is refused.
  pub load-save :
      (s t : Store R) (height : ℕ) (txs : List Tx) (rs : List R) (hash : Bytes)
      → save_block_result api s height txs rs ≡ ok t
      → load_tx_by_hash t hash ≡ (
          if nat_eq (length hash) 32
          then found (or_else (last_with height hash txs rs) (lookup hash s))
          else err invalid_hash_length)
  unfolding save_block_result load_tx_by_hash
  load-save s t height txs rs hash saved = ground (arith, lookup-save_loop height s txs rs hash)

  -- A block is stored exactly if there is a result for each transaction; otherwise the call panics.
  save_block_result-panic :
      (s : Store R) (height : ℕ) (txs : List Tx) (rs : List R)
      → (save_block_result api s height txs rs ≡ panic → length txs ≢ length rs)
        × (length txs ≢ length rs → save_block_result api s height txs rs ≡ panic)
  unfolding save_block_result
  save_block_result-panic s height txs rs = (λ e. ground arith, λ e. ground arith)
