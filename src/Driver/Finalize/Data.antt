-- ===== src/Driver/Finalize/Data.antt =====
-- Where a finalization takes the transactions of its block from, and what it saves.
use gcosmos.Base.{
  ℕ, ◌≡◌, ◌⊎◌, inl, inr, refl, Bool, true, false, List, [], Option, none, some, arith, Bytes,
  lookup, nat_key, Result, ok, err, panic, Bool-cases,
}
use gcosmos.BlockStore.{BlockDataStore, StoreError, save_block_data}
use gcosmos.Consensus.Consider.{Annotations}
use gcosmos.DataId.{is_zero_tx_data_id}
use gcosmos.Driver.Steps.{go, ◌>>=◌, ◌>>◌, pure, >>=-eq-go}
use gcosmos.Requests.{BlockDataRequest, RequestCache, get}
use gcosmos.Tx.{TxApi}
use gcosmos.Driver.Finalize.{
  Sdk, FinalizeBlockRequest, Driver, Waiting, await_block_data, await_entry, await_found,
  when_ready, saved, save_data, block_txs,
}

module _ {Tx S C R W : Type 0} (sdk : Sdk Tx S C R W) (api : TxApi Tx) (ann : Annotations)
    (is_valid : Bytes → Bool) (chain_id : Bytes) (wait : Waiting Tx) where
  save_data_lem :
      (height : ℕ) (id encoded : Bytes) (d d' : Driver Tx R W) {u : Unit {0}}
      → save_data sdk api ann is_valid chain_id wait height id encoded d ≡ (go u, d')
      → (s : BlockDataStore) × (save_block_data d.block_data height id encoded ≡ ok s)
        × (d' ≡ record d { block_data = s })
  unfolding save_data
  save_data_lem height id encoded d d' {u} e =
      from (save_block_data d.block_data height id encoded) e
    where
      from :
          (o : Result StoreError BlockDataStore)
          → saved sdk api ann is_valid chain_id wait d o ≡ (go u, d')
          → (s : BlockDataStore) × (o ≡ ok s) × (d' ≡ record d { block_data = s })
      from (ok s) e = (s, refl, cc)
      from (err x) e = cc
      from panic e = cc

  -- The cache in which the request behind a pointer is read: the one at hand if the request is ready,
  -- otherwise the one in which it has become so.
  abbrev pub ReadIn : ℕ → Driver Tx R W → RequestCache Tx → Type 0
  ReadIn p d c =
      (first : BlockDataRequest Tx) × (lookup p d.cache.heap ≡ some first)
      × (((first.ready ≡ true) × (c ≡ d.cache))
          ⊎ ((first.ready ≡ false) × (wait.cache_when_ready ≡ some c)))

  -- The request is the one that the pointer of the ID leads to.
  abbrev Awaited : Bytes → Driver Tx R W → BlockDataRequest Tx → Driver Tx R W → Type 0
  Awaited id d bdr d' =
      (p : ℕ) × (c : RequestCache Tx) × (get id d.cache ≡ ok (some p))
      × ReadIn p d c
      × (lookup p c.heap ≡ some bdr)
      × (d' ≡ record d { cache = c })

  when_ready_lem :
      (d d' : Driver Tx R W) (p : ℕ) (o : Option (RequestCache Tx)) (bdr : BlockDataRequest Tx)
      → when_ready sdk api ann is_valid chain_id wait d p o ≡ (go bdr, d')
      → (c : RequestCache Tx) × (o ≡ some c)
        × (lookup p c.heap ≡ some bdr)
        × (d' ≡ record d { cache = c })
  when_ready_lem d d' p none bdr e = cc
  when_ready_lem d d' p (some c) bdr e = (c, refl, ground arith, ground arith)

  await_found_lem :
      (d d' : Driver Tx R W) (p : ℕ) (o : Option (BlockDataRequest Tx)) (bdr : BlockDataRequest Tx)
      → lookup p d.cache.heap ≡ o
      → await_found sdk api ann is_valid chain_id wait d p o ≡ (go bdr, d')
      → (c : RequestCache Tx) × ReadIn p d c
        × (lookup p c.heap ≡ some bdr)
        × (d' ≡ record d { cache = c })
  await_found_lem d d' p none bdr at e = cc
  await_found_lem d d' p (some req) bdr at e = elim (Bool-cases req.ready) [
    | inl is_ready ↦ (d.cache, (req, at, inl (is_ready, refl)), ground arith, ground arith)
    | inr is_not ↦
        let (c, woken, found, same) =
          when_ready_lem d d' p wait.cache_when_ready bdr (rw is_not at e) in
        (c, (req, at, inr (is_not, woken)), found, same)
  ]

  await_block_data_lem :
      (id : Bytes) (d d' : Driver Tx R W) (bdr : BlockDataRequest Tx)
      → await_block_data sdk api ann is_valid chain_id wait id d ≡ (go bdr, d')
      → Awaited id d bdr d'
  unfolding await_block_data
  await_block_data_lem id d d' bdr e = from (get id d.cache) refl e
    where
      from :
          (o : Result (Unit {0}) (Option ℕ))
          → get id d.cache ≡ o
          → await_entry sdk api ann is_valid chain_id wait d o ≡ (go bdr, d')
          → Awaited id d bdr d'
      from (ok none) at e = cc
      from (ok (some p)) at e =
          let (c, read, found, same) = await_found_lem d d' p (lookup p d.cache.heap) bdr refl e in
          (p, c, at, read, found, same)
      from (err x) at e = cc
      from panic at e = cc

  -- Where the transactions come from, and what is saved.
  abbrev pub BlockData : FinalizeBlockRequest → Driver Tx R W → List Tx → Driver Tx R W → Type 0
  BlockData req d txs d' =
      ((is_zero_tx_data_id req.data_id ≡ true) × (txs ≡ []) × (d'.block_data ≡ d.block_data))
      ⊎ ((p : ℕ) × (c : RequestCache Tx) × (bdr : BlockDataRequest Tx) × (is_zero_tx_data_id
              req.data_id
            ≡ false)
          × (get req.data_id d.cache ≡ ok (some p))
          × ReadIn p d c
          × (lookup p c.heap ≡ some bdr)
          × (txs ≡ bdr.transactions)
          × (save_block_data d.block_data req.height req.data_id bdr.encoded_transactions
              ≡ ok d'.block_data))

  pub block_txs_lem :
      (req : FinalizeBlockRequest) (d d' : Driver Tx R W) (txs : List Tx)
      → block_txs sdk api ann is_valid chain_id wait req d ≡ (go txs, d')
      → BlockData req d txs d'
        × (d'.world ≡ d.world)
        × (d'.tx_store ≡ d.tx_store)
        × (d'.responses ≡ d.responses)
  unfolding block_txs
  block_txs_lem req d d' txs e = elim (Bool-cases (is_zero_tx_data_id req.data_id)) [
    | inl none_there ↦ ground arith
    | inr some_there ↦ from_data (rw some_there at e) some_there
  ]
    where
      from_data :
          (await_block_data sdk api ann is_valid chain_id wait req.data_id >>= λ bdr.
          save_data sdk api ann is_valid chain_id wait req.height req.data_id
            bdr.encoded_transactions
          >> pure bdr.transactions)
              d
            ≡ (go txs, d')
          → is_zero_tx_data_id req.data_id ≡ false
          → BlockData req d txs d'
            × (d'.world ≡ d.world)
            × (d'.tx_store ≡ d.tx_store)
            × (d'.responses ≡ d.responses)
      from_data e some_there =
          let (bdr, d₁, e₁, k₁) =
            >>=-eq-go (await_block_data sdk api ann is_valid chain_id wait req.data_id)
              (λ bdr.
                save_data sdk api ann is_valid chain_id wait req.height req.data_id
                  bdr.encoded_transactions
                >> pure bdr.transactions)
              d e in
          let (u, d₂, e₂, k₂) =
            >>=-eq-go
              (save_data sdk api ann is_valid chain_id wait req.height req.data_id
                bdr.encoded_transactions)
              (λ _. pure bdr.transactions) d₁ k₁ in
          let (p, c, at, read, found, same₁) = await_block_data_lem req.data_id d d₁ bdr e₁ in
          let (s, saved_as, same₂) =
            save_data_lem req.height req.data_id bdr.encoded_transactions d₁ d₂ e₂ in
          (
            inr (p, c, bdr, some_there, at, read, found, ground arith, ground arith),
            ground arith,
            ground arith,
            ground arith,
          )
