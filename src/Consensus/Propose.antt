-- ===== src/Consensus/Propose.antt =====
-- `EnterRound` of gserver/internal/gsi/consensusstrategy.go.
pub mod Turn
pub mod Laws
use gcosmos.Base.{
  ℕ, Bool, true, false, List, [], ◌∷◌, Option, none, some, Bytes, bytes_beq, if◌then◌else◌, Result,
  ok, err, panic,
}
use gcosmos.BlockData.Codecs.{Codecs}
use gcosmos.DataId.{data_id}
use gcosmos.Provider.{Location, ProvideResult, ProvideError, Host, provide}
use gcosmos.Requests.{RequestCache, set_immediately_available}
use gcosmos.Tx.{TxApi}
use gcosmos.Consensus.Proposer.{Validator}

-- `proposer_selection` is the configured function or the default one; a nil signer equals no key.
-- The annotations' JSON may fail to be made.
pub record Config (Tx : Type 0) : Type 0 where
  pub codecs : Codecs
  pub api : TxApi Tx
  pub signer_pub_key : Option Bytes
  pub proposer_selection : ℕ → ℕ → List Validator → Result (Unit {0}) Validator
  pub marshal_block_annotation : ℕ → Option Bytes
  pub marshal_proposal_annotation : List Location → Option Bytes

pub record Strategy (Tx : Type 0) : Type 0 where
  pub cur_h : ℕ
  pub cur_r : ℕ
  pub cache : RequestCache Tx
  pub host : Host

pub record RoundView : Type 0 where
  pub height : ℕ
  pub round : ℕ
  pub validators : List Validator
  -- The public keys of the proposers of the proposed headers that the round has.
  pub proposers : List Bytes

-- `proposalOut`: nil, taken by the engine, or not taken before the context is cancelled.
pub data ProposalOut : Type 0 where
  nil_channel receiving cancelled : ProposalOut

pub record Proposal : Type 0 where
  pub data_id : Bytes
  pub block_annotation : Bytes
  pub proposal_annotation : Option Bytes

pub data EnterOutcome : Type 0 where
  nothing_to_propose : EnterOutcome
  proposed : Proposal → EnterOutcome
  marshal_failed provide_failed context_cancelled panicked : EnterOutcome

abbrev pub equals : Bytes → Option Bytes → Bool
equals key none = false
equals key (some k) = bytes_beq key k

abbrev any_equals : Bytes → List Bytes → Bool
any_equals key [] = false
any_equals key (k ∷ ks) = if bytes_beq key k then true else any_equals key ks

abbrev pub Entered : Type 0 → Type 0
Entered Tx = EnterOutcome × Strategy Tx

module _ {Tx : Type 0} where
  abbrev pub send : Strategy Tx → ProposalOut → Proposal → Entered Tx
  send s cancelled p = (context_cancelled, s)
  send s receiving p = (proposed p, s)
  send s nil_channel p = (context_cancelled, s)

  abbrev pub cached :
      Strategy Tx → ProposalOut → Proposal → Result (Unit {0}) (RequestCache Tx) → Entered Tx
  cached s out p (ok c) = send (record s { cache = c }) out p
  cached s out p (err e) = (panicked, s)
  cached s out p panic = (panicked, s)

  abbrev pub annotated :
      Strategy Tx → ProposalOut → List Tx → Bytes → ProvideResult → Option Bytes → Entered Tx
  annotated s out txs ba r none = (marshal_failed, s)
  annotated s out txs ba r (some pda) =
      cached s out
        (record { data_id = r.data_id; block_annotation = ba; proposal_annotation = some pda })
        (set_immediately_available r.data_id txs r.encoded s.cache)

  abbrev pub without_txs : Strategy Tx → ProposalOut → Bytes → Result (Unit {0}) Bytes → Entered Tx
  without_txs s out ba (ok id) =
      send s out (record { data_id = id; block_annotation = ba; proposal_annotation = none })
  without_txs s out ba (err e) = (panicked, s)
  without_txs s out ba panic = (panicked, s)

module _ {Tx : Type 0} (cfg : Config Tx) where
  abbrev pub provided :
      Strategy Tx
      → ProposalOut
      → List Tx
      → Bytes
      → Result ProvideError ProvideResult × Host
      → Entered Tx
  provided s out txs ba (panic, h) = (panicked, record s { host = h })
  provided s out txs ba (err e, h) = (provide_failed, record s { host = h })
  provided s out txs ba (ok r, h) =
      annotated (record s { host = h }) out txs ba r (cfg.marshal_proposal_annotation r.addrs)

  -- The pending transactions are those that `Buffered` returns.
  abbrev pub propose : Strategy Tx → ProposalOut → List Tx → Option Bytes → Entered Tx
  propose s out txs none = (marshal_failed, s)
  propose s out [] (some ba) = without_txs s out ba (data_id cfg.api s.cur_h s.cur_r 0 [])
  propose s out (tx ∷ txs) (some ba) =
      provided s out (tx ∷ txs) ba (provide cfg.codecs cfg.api s.host s.cur_h s.cur_r (tx ∷ txs))

  -- With no channel, our own header must be among the proposed ones.
  abbrev our_turn : Strategy Tx → RoundView → Bytes → ProposalOut → List Tx → ℕ → Entered Tx
  our_turn s rv key nil_channel txs now =
      if any_equals key rv.proposers then (nothing_to_propose, s) else (panicked, s)
  our_turn s rv key receiving txs now = propose s receiving txs (cfg.marshal_block_annotation now)
  our_turn s rv key cancelled txs now = propose s cancelled txs (cfg.marshal_block_annotation now)

  abbrev pub selected :
      Strategy Tx → RoundView → ProposalOut → List Tx → ℕ → Result (Unit {0}) Validator → Entered Tx
  selected s rv out txs now panic = (panicked, s)
  selected s rv out txs now (err e) = (panicked, s)
  selected s rv out txs now (ok v) =
      if equals v.pub_key cfg.signer_pub_key
      then our_turn s rv v.pub_key out txs now
      else (nothing_to_propose, s)

  unfoldable pub enter_round : Strategy Tx → RoundView → ProposalOut → List Tx → ℕ → Entered Tx
  enter_round s rv out txs now =
      selected (record s { cur_h = rv.height; cur_r = rv.round }) rv out txs now
        (cfg.proposer_selection rv.height rv.round rv.validators)
