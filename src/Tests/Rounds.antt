-- ===== src/Tests/Rounds.antt =====
-- The consensus strategy.
use gcosmos.Base.{
  none, Option, All, ℕ, suc, ◌≡◌, ◌≢◌, ◌<◌, ◌+◌, refl, ok, some, arith, [], ◌∷◌, Bytes, codes, true,
  lookup, bytes_key,
}
use gcosmos.Tests.Fixtures.{api, api-IsHash, two_txs, two_id, ann, am}
use gcosmos.Tests.Codec.{codec}
use gcosmos.Tests.Stores.{no_requests, no_requests-IsSound}
use gcosmos.BlockData.Encoder.{encode_block_data, compress_encoded_block_data}
use gcosmos.BlockData.Varint.{append_varint, append_uvarint}
use gcosmos.Consensus.Consider.{ProposedHeader, Moment, judge, consider_proposed_blocks, block_time}
use gcosmos.Consensus.Consider.Ends.{IsUsable}
use gcosmos.Consensus.Consider.Sound.{Chosen, consider_proposed_blocks-Chosen}
use gcosmos.Consensus.Propose.{
  Config, Strategy, RoundView, receiving, Proposal, proposed, enter_round,
}
use gcosmos.Consensus.Propose.Laws.{enter_round_data}
use gcosmos.Consensus.Proposer.{
  Validator, default_proposer_selection, every_validator_proposes, VoteSummary, decide_precommit,
}
use gcosmos.DataId.{DataId, data_id, parse_data_id, parse_zero, txs_hash}
use gcosmos.Provider.{Host, provide}
use gcosmos.Requests.{
  BlockDataRequest, request_at, set_immediately_available, set_in_flight, allocate,
}
use gcosmos.Strconv.Integer.{pos, format_uint, emit, parse_uint, scan}
use gcosmos.Strconv.Text.{hex_encode}

abbrev alice : Validator
alice = record { pub_key = codes "a"; power = 10 }

abbrev bob : Validator
bob = record { pub_key = codes "b"; power = 20 }

every_validator_proposes_example :
    (k : ℕ) × (k < 2) × (default_proposer_selection 7 (2 + k) (alice ∷ bob ∷ []) ≡ ok bob)
every_validator_proposes_example =
    every_validator_proposes 7 2 1 (alice ∷ bob ∷ []) bob (omega arith) refl

-- A Byzantine majority of 30.
abbrev majority : ℕ → ℕ
majority n = suc n

abbrev summary : VoteSummary
summary = record {
  available_power = 30;
  prevote_block_power = (codes "h", 31) ∷ [];
  most_voted_prevote_hash = codes "h";
}

abbrev pub config : Config Bytes
config = record {
  codecs = codec;
  api = api;
  signer_pub_key = some (codes "a");
  proposer_selection = λ h r vals. ok alice;
  marshal_block_annotation = λ now. some (now ∷ []);
  marshal_proposal_annotation = λ locs. some (codes "here");
}

abbrev quiet : Host
quiet = record { handlers = []; marshalled_info = some (codes "here") }

abbrev pub idle : Strategy Bytes
idle = record { cur_h = 0; cur_r = 0; cache = no_requests; host = quiet }

abbrev pub view : RoundView
view = record { height = 5; round = 1; validators = alice ∷ bob ∷ []; proposers = [] }

abbrev pub proposal : Proposal
proposal = record {
  data_id = two_id;
  block_annotation = 9 ∷ [];
  proposal_annotation = some (codes "here");
}

pub proposal_made : (enter_round config idle view receiving two_txs 9).0 ≡ proposed proposal
unfolding enter_round provide encode_block_data compress_encoded_block_data append_varint
    append_uvarint data_id format_uint emit hex_encode txs_hash set_immediately_available
    set_in_flight allocate lookup
proposal_made = refl

enter_round_data_example :
    (d : DataId) × (req : BlockDataRequest Bytes) × (parse_data_id two_id ≡ ok d)
    × (d.height ≡ 5)
    × (d.round ≡ 1)
    × (d.n_txs ≡ pos 2)
    × (d.txs_hash ≡ txs_hash api two_txs)
    × (request_at (enter_round config idle view receiving two_txs 9).1.cache two_id ≡ some req)
    × (req.ready ≡ true)
    × (req.transactions ≡ two_txs)
enter_round_data_example =
    enter_round_data config idle view receiving 9 (codes "ab") (codes "c" ∷ []) proposal api-IsHash
      no_requests-IsSound (omega arith) (omega arith) (omega arith) proposal_made

abbrev empty_id : Bytes
empty_id = codes "5:1:0:0:0e5751c026e543b2e8ab2eb06099daa1d1e5df47778f7787faab45cdf12fe3a8"

abbrev empty_proposal : Proposal
empty_proposal = record {
  data_id = empty_id;
  block_annotation = 9 ∷ [];
  proposal_annotation = none;
}

empty_made : (enter_round config idle view receiving [] 9).0 ≡ proposed empty_proposal
unfolding enter_round data_id format_uint emit
empty_made = refl

abbrev header : ProposedHeader
header = record {
  height = 5;
  round = 1;
  hash = codes "h";
  data_id = codes "5:1:0:0:0e5751c026e543b2e8ab2eb06099daa1d1e5df47778f7787faab45cdf12fe3a8";
  proposer_pub_key = codes "a";
  proposal_annotation = [];
  header_annotation = 8 ∷ [];
}

abbrev moment : Moment Bytes
moment = record { header = header; cache = no_requests; now = 9 }

header_chosen : (consider_proposed_blocks am ann 5 1 (moment ∷ [])).0 ≡ ok (some (codes "h"))
unfolding consider_proposed_blocks judge parse_data_id parse_zero block_time
    gcosmos.Strconv.Text.cut_suffix gcosmos.Strconv.Text.split_n gcosmos.Strconv.Text.cut parse_uint
    scan
header_chosen = refl

nothing_cached : All IsUsable (moment ∷ [])
unfolding lookup
nothing_cached = (tt, tt)

consider_proposed_blocks-Chosen_example :
    (choice : Option Bytes) × ((consider_proposed_blocks am ann 5 1 (moment ∷ [])).0 ≡ ok choice)
    × Chosen am ann 5 1 (moment ∷ []) choice
consider_proposed_blocks-Chosen_example =
    consider_proposed_blocks-Chosen am ann 5 1 (moment ∷ []) nothing_cached

precommitted : decide_precommit majority summary ≢ []
unfolding decide_precommit lookup
precommitted = λ e. cc
