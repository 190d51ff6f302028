-- ===== src/Tests/Agreed.antt =====
-- A block that the node proposed is finalized.
use gcosmos.Base.{ℕ, ◌≡◌, refl, none, [], ◌∷◌, Bytes, codes, arith, lookup, nat_key, bytes_key}
use gcosmos.BlockStore.{new_block_data_store}
use gcosmos.Consensus.Propose.{receiving, enter_round}
use gcosmos.Driver.Finalize.{Driver, handle_finalization}
use gcosmos.Driver.Finalize.Done.{Executed}
use gcosmos.Driver.Steps.{go}
use gcosmos.Proposed.{proposed-Executed}
use gcosmos.Tests.Chain.{sdk, sdk-IsWilling, any_key, taken, req, time_is_8}
use gcosmos.Tests.Fixtures.{ann, api-IsHash, two_txs, two_id}
use gcosmos.Tests.Rounds.{config, idle, view, proposal, proposal_made}
use gcosmos.Tests.Stores.{no_requests-IsSound}

abbrev sharing : Driver Bytes ℕ ℕ
sharing = record {
  world = 4;
  cache = (enter_round config idle view receiving two_txs 9).1.cache;
  block_data = new_block_data_store;
  tx_store = [];
  responses = [];
}

nothing_at_5 : lookup 5 sharing.block_data.id_by_height ≡ none
unfolding lookup
nothing_at_5 = refl

nothing_under_id : lookup two_id sharing.block_data.height_by_id ≡ none
unfolding lookup
nothing_under_id = refl

proposed-Executed_example :
    (d' : Driver Bytes ℕ ℕ) × (handle_finalization sdk config.api ann any_key
        (codes "chain")
        taken
        req
        sharing
      ≡ (go tt, d'))
    × (x : Executed sdk config.api ann any_key (codes "chain") taken req sharing d') × (x.txs
        ≡ two_txs)
proposed-Executed_example =
    proposed-Executed sdk config ann any_key (codes "chain") taken idle view receiving 9
      (codes "ab") (codes "c" ∷ []) proposal req sharing 8 api-IsHash no_requests-IsSound
      (omega arith) (omega arith) (omega arith) proposal_made refl refl (λ e. cc) refl sdk-IsWilling
      time_is_8 refl nothing_at_5 nothing_under_id
