-- ===== src/Consensus/Propose/Turn.antt =====
-- Whose turn it is to propose, and a proposal without transactions.
use gcosmos.Base.{
  ℕ, ◌<◌, ◌^◌, ◌≡◌, refl, true, List, [], Option, none, some, arith, Bytes, bytes_beq_iff, Result,
  ok, err, panic,
}
use gcosmos.Strconv.Integer.{pos}
use gcosmos.DataId.{DataId, data_id, parse_data_id}
use gcosmos.DataId.RoundTrip.{parse_data_id-data_id_none}
use gcosmos.Consensus.Proposer.{Validator}
use gcosmos.Consensus.Propose.{
  Config, Strategy, RoundView, ProposalOut, receiving, Proposal, proposed, equals, without_txs,
  propose, selected, enter_round,
}

equals_lem : (key : Bytes) (k : Option Bytes) → equals key k ≡ true → k ≡ some key
equals_lem key none e = cc
equals_lem key (some k) e = ground (arith, bytes_beq_iff key k)

module _ {Tx : Type 0} (cfg : Config Tx) (s : Strategy Tx) (rv : RoundView) (out : ProposalOut)
    (txs : List Tx) (now : ℕ) where
  -- Height and round are those of the round that was entered, on every path.
  enter_round_tracks :
      ((enter_round cfg s rv out txs now).1.cur_h ≡ rv.height)
      × ((enter_round cfg s rv out txs now).1.cur_r ≡ rv.round)
  unfolding enter_round
  enter_round_tracks = ground arith

  selected_our_turn :
      (s' : Strategy Tx) (x : Result (Unit {0}) Validator) (p : Proposal)
      → (selected cfg s' rv out txs now x).0 ≡ proposed p
      → (v : Validator) × (x ≡ ok v) × (cfg.signer_pub_key ≡ some v.pub_key) × (out ≡ receiving)
  selected_our_turn s' panic p e = cc
  selected_our_turn s' (err x) p e = cc
  selected_our_turn s' (ok v) p e =
      (v, refl, equals_lem v.pub_key cfg.signer_pub_key (ground arith), ground arith)

  -- If a round is entered and a proposal sent, our key is that of the validator that the selection
  -- chose for the round, and the engine gave a channel and received from it.
  enter_round_our_turn :
      (p : Proposal)
      → (enter_round cfg s rv out txs now).0 ≡ proposed p
      → (v : Validator) × (cfg.proposer_selection rv.height rv.round rv.validators ≡ ok v)
        × (cfg.signer_pub_key ≡ some v.pub_key)
        × (out ≡ receiving)
  unfolding enter_round
  enter_round_our_turn p e = selected_our_turn _ _ p e

module _ {Tx : Type 0} (cfg : Config Tx) (s : Strategy Tx) (rv : RoundView) (out : ProposalOut)
    (now : ℕ) where
  abbrev pub entered : Strategy Tx
  entered = record s { cur_h = rv.height; cur_r = rv.round }

  pub selected-propose :
      (txs : List Tx) (x : Result (Unit {0}) Validator) (p : Proposal)
      → (selected cfg entered rv out txs now x).0 ≡ proposed p
      → selected cfg entered rv out txs now x
        ≡ propose cfg entered out txs (cfg.marshal_block_annotation now)
  selected-propose txs panic p e = cc
  selected-propose txs (err x) p e = cc
  selected-propose txs (ok v) p e = ground arith

  without_txs_id :
      (ba : Bytes) (x : Result (Unit {0}) Bytes) (p : Proposal)
      → (without_txs entered out ba x).0 ≡ proposed p
      → x ≡ ok p.data_id
  without_txs_id ba (ok id) p e = ground arith
  without_txs_id ba (err x) p e = cc
  without_txs_id ba panic p e = cc

  propose_empty :
      (o : Option Bytes) (p : Proposal)
      → (propose cfg entered out [] o).0 ≡ proposed p
      → data_id cfg.api rv.height rv.round 0 [] ≡ ok p.data_id
  propose_empty none p e = cc
  propose_empty (some ba) p e = without_txs_id ba _ p e

  -- If a round with nothing pending is entered and a proposal sent, its data ID is parsed to the
  -- round that was entered and no transactions. The height and the round fit their Go types.
  enter_round_empty :
      (p : Proposal)
      → rv.height < 2 ^ 64
      → rv.round < 2 ^ 32
      → (enter_round cfg s rv out [] now).0 ≡ proposed p
      → (d : DataId) × (parse_data_id p.data_id ≡ ok d)
        × (d.height ≡ rv.height)
        × (d.round ≡ rv.round)
        × (d.n_txs ≡ pos 0)
  unfolding enter_round
  enter_round_empty p hh hr e =
      let same =
        selected-propose [] (cfg.proposer_selection rv.height rv.round rv.validators) p e in
      let named = propose_empty (cfg.marshal_block_annotation now) p (rw same at e) in
      (
        _,
        parse_data_id-data_id_none cfg.api rv.height rv.round 0 p.data_id hh hr named,
        refl,
        refl,
        refl,
      )
