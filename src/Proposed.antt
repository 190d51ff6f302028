-- ===== src/Proposed.antt =====
-- A block that this node proposes, from gserver/internal/gsi/consensusstrategy.go to the finalization in
-- gserver/internal/gsi/driver.go, through the request cache that both use.
use gcosmos.Base.{
  ℕ, ◌<◌, ◌^◌, ◌≡◌, ◌≢◌, ◌∙◌, inl, inr, refl, Bool, true, false, List, ◌∷◌, Option, none, some,
  arith, Bytes, lookup, length, nat_key, bytes_key, ok,
}
use gcosmos.Consensus.Consider.{Annotations, block_time}
use gcosmos.Consensus.Propose.{
  Config, Strategy, RoundView, ProposalOut, Proposal, proposed, enter_round,
}
use gcosmos.Consensus.Propose.Laws.{enter_round_data, enter_round_id}
use gcosmos.DataId.{is_zero_tx_data_id}
use gcosmos.DataId.Zero.{is_zero_tx_data_id-data_id}
use gcosmos.Driver.Finalize.{
  Sdk, FinalizeBlockRequest, Driver, Waiting, initial_height, handle_finalization,
}
use gcosmos.Driver.Finalize.Completes.{IsWilling, handle_finalization-completes}
use gcosmos.Driver.Finalize.Done.{Executed}
use gcosmos.Driver.Finalize.Data.{BlockData}
use gcosmos.Driver.Steps.{go}
use gcosmos.Requests.{BlockDataRequest, RequestCache, get, request_at, pointer, behind}
use gcosmos.Requests.Laws.{IsSound}
use gcosmos.Tx.{IsHash}

module _ {Tx : Type 0} where
  -- A request that a reader sees has a pointer.
  pointed :
      (c : RequestCache Tx) (id : Bytes) (req : BlockDataRequest Tx)
      → request_at c id ≡ some req
      → (p : ℕ) × (get id c ≡ ok (some p)) × (lookup p c.heap ≡ some req)
  unfolding get
  pointed c id req e = from (lookup id c.rs) e
    where
      from :
          (o : Option (Option ℕ))
          → behind c o ≡ some req
          → (p : ℕ) × (pointer o ≡ ok (some p)) × (lookup p c.heap ≡ some req)
      from none e = cc
      from (some none) e = cc
      from (some (some p)) e = (p, refl, e)

module _ {Tx S C R W : Type 0} (sdk : Sdk Tx S C R W) (cfg : Config Tx) (ann : Annotations)
    (is_valid : Bytes → Bool) (chain_id : Bytes) (wait : Waiting Tx) where
  -- Data that is ready in the cache is what a finalization takes.
  ready_taken :
      (req : FinalizeBlockRequest) (d d' : Driver Tx R W) (txs : List Tx)
      (bdr : BlockDataRequest Tx)
      → is_zero_tx_data_id req.data_id ≡ false
      → request_at d.cache req.data_id ≡ some bdr
      → bdr.ready ≡ true
      → BlockData sdk cfg.api ann is_valid chain_id wait req d txs d'
      → txs ≡ bdr.transactions
  ready_taken req d d' txs bdr not_zero at is_ready (inl (zero, none_there, kept)) = cc
  ready_taken req d d' txs bdr not_zero at is_ready
        (inr (
          p,
          c,
          found,
          some_there,
          got,
          (first, here, inl (ready, same)),
          found_at,
          txs_are,
          saved,
        )) =
      let (q, got', at') = pointed d.cache req.data_id bdr at in cc
  ready_taken req d d' txs bdr not_zero at is_ready
        (inr (
          p,
          c,
          found,
          some_there,
          got,
          (first, here, inr (not_ready, woken)),
          found_at,
          txs_are,
          saved,
        )) =
      let (q, got', at') = pointed d.cache req.data_id bdr at in cc

  -- A node that enters a round with transactions pending and sends a proposal finalizes the block to
  -- the end with exactly these transactions, if the header has the height of the round, above the
  -- initial one, and the data ID of the proposal. The driver shares the strategy's cache, which was
  -- sound, the SDK reports no error and a result for each transaction, the annotation has a time,
  -- the engine takes the response, neither the height nor the ID is in the block store, the numbers
  -- fit their Go types, and the hash has 32 bytes.
  pub proposed-Executed :
      (s : Strategy Tx) (rv : RoundView) (out : ProposalOut) (now : ℕ) (tx : Tx) (txs : List Tx)
      (p : Proposal) (req : FinalizeBlockRequest) (d : Driver Tx R W) (time : ℕ)
      → IsHash cfg.api
      → IsSound s.cache
      → rv.height < 2 ^ 64
      → rv.round < 2 ^ 32
      → length (tx ∷ txs) < 2 ^ 31
      → (enter_round cfg s rv out (tx ∷ txs) now).0 ≡ proposed p
      → d.cache ≡ (enter_round cfg s rv out (tx ∷ txs) now).1.cache
      → req.height ≡ rv.height
      → req.height ≢ initial_height
      → req.data_id ≡ p.data_id
      → IsWilling sdk
      → block_time ann req.annotation ≡ some time
      → wait.response_taken ≡ true
      → lookup req.height d.block_data.id_by_height ≡ none
      → lookup req.data_id d.block_data.height_by_id ≡ none
      → (d' : Driver Tx R W) × (handle_finalization sdk cfg.api ann is_valid chain_id wait req d
          ≡ (go tt, d'))
        × (x : Executed sdk cfg.api ann is_valid chain_id wait req d d') × (x.txs ≡ tx ∷ txs)
  proposed-Executed s rv out now tx txs p req d time hash sound hh hr hn sent shared at_height
        is_later same_id willing time_is taken new_height new_id =
      let (parsed, bdr, _, _, _, _, _, seen, is_ready, txs_are) =
        enter_round_data cfg s rv out now tx txs p hash sound hh hr hn sent in
      let (size, _, named) = enter_round_id cfg s rv out now tx txs p sent in
      let not_zero : is_zero_tx_data_id req.data_id ≡ false = rw same_id (
        ground (
          arith,
          is_zero_tx_data_id-data_id cfg.api rv.height rv.round size (tx ∷ txs) p.data_id hn named,
        )) in
      let at : request_at d.cache req.data_id ≡ some bdr = rw same_id (rw shared seen) in
      let (q, got, found) = pointed d.cache req.data_id bdr at in
      let (d', done, x) =
        handle_finalization-completes sdk cfg.api ann is_valid chain_id wait req d time is_later
          willing time_is taken
          (inr (q, not_zero, got, (bdr, found, inl is_ready), new_height, new_id)) in
      (
        d',
        done,
        x,
        ready_taken req d x.with_data x.txs bdr not_zero at is_ready x.txs_from ∙ txs_are,
      )
