-- ===== src/Consensus/Consider.antt =====
-- `ConsiderProposedBlocks` and `ChooseProposedBlock` of gserver/internal/gsi/consensusstrategy.go,
-- and `TxManager.AddTx`'s way to run a transaction.
pub mod Runs
pub mod Acceptable
pub mod Ends
pub mod Sound
use gcosmos.Base.{
  ℕ, Bool, true, false, not, List, [], ◌∷◌, Option, none, some, Bytes, lookup, nat_key, ltb, nat_eq,
  if◌then◌else◌, Result, ok, err, panic,
}
use gcosmos.Strconv.Integer.{ℤ, pos, negsuc}
use gcosmos.DataId.{DataId, ParseError, parse_data_id}
use gcosmos.Requests.{BlockDataRequest, RequestCache, get}

pub record ProposedHeader : Type 0 where
  pub height : ℕ
  pub round : ℕ
  pub hash : Bytes
  pub data_id : Bytes
  pub proposer_pub_key : Bytes
  -- The driver's part of the proposal's annotations and of the header's.
  pub proposal_annotation : Bytes
  pub header_annotation : Bytes

-- The application manager: `none` is an error of the call, and the flag says that the transaction's
-- result holds an error.
pub record AppManager (Tx S : Type 0) : Type 0 where
  pub simulate : Tx → Option (Bool × S)
  pub simulate_with_state : S → Tx → Option (Bool × S)

-- The block time of a header annotation, if the JSON and the RFC 3339 time can be parsed.
pub record Annotations : Type 0 where
  pub unmarshal_block_annotation : Bytes → Option Bytes
  pub parse_time : Bytes → Option ℕ

-- A header, with the cache and the clock as the loop finds them when it comes to the header: other
-- goroutines run between two rounds of the loop.
pub record Moment (Tx : Type 0) : Type 0 where
  pub header : ProposedHeader
  pub cache : RequestCache Tx
  pub now : ℕ

pub data Verdict : Type 0 where
  ignored : Verdict
  -- `Retrieve` is called, and the header is passed over whether it fails or not.
  fetched : Verdict
  accepted : Verdict

abbrev pub is_zero : ℤ → Bool
is_zero (pos n) = nat_eq n 0
is_zero (negsuc n) = false

module _ (ann : Annotations) where
  abbrev time_of : Option Bytes → Option ℕ
  time_of none = none
  time_of (some s) = ann.parse_time s

  unfoldable pub block_time : Bytes → Option ℕ
  block_time annotation = time_of (ann.unmarshal_block_annotation annotation)

-- The last checks: the block annotation has a time, and it is not after now.
abbrev pub not_future : ℕ → Option ℕ → Verdict
not_future now none = ignored
not_future now (some t) = if ltb now t then ignored else accepted

module _ {Tx S : Type 0} (am : AppManager Tx S) where
  abbrev pub and_then : Option (Bool × S) → (S → Bool) → Bool
  and_then none k = false
  and_then (some (true, s)) k = false
  and_then (some (false, s)) k = k s

  pub apply_rest : S → List Tx → Bool
  apply_rest s [] = true
  apply_rest s (tx ∷ txs) = and_then (am.simulate_with_state s tx) (λ s'. apply_rest s' txs)

  -- `txs[0]` is read without a check.
  pub apply_all : List Tx → Result (Unit {0}) Bool
  unfolding apply_rest
  apply_all [] = panic
  apply_all (tx ∷ txs) = ok (and_then (am.simulate tx) (λ s. apply_rest s txs))

abbrev pub after_txs : Verdict → Result (Unit {0}) Bool → Result (Unit {0}) Verdict
after_txs v panic = panic
after_txs v (err e) = err e
after_txs v (ok true) = ok v
after_txs v (ok false) = ok ignored

abbrev pub Outcome : Type 0
Outcome = Result (Unit {0}) (Option Bytes) × List (Bytes × Bytes)

abbrev or_empty : Result (Unit {0}) (Option Bytes) → Result (Unit {0}) Bytes
or_empty panic = panic
or_empty (err e) = err e
or_empty (ok none) = ok []
or_empty (ok (some h)) = ok h

module _ {Tx S : Type 0} (am : AppManager Tx S) (ann : Annotations) (cur_h cur_r : ℕ) where
  abbrev pub by_request : Verdict → Option (BlockDataRequest Tx) → Result (Unit {0}) Verdict
  by_request v none = panic
  by_request v (some req) =
      if req.ready then after_txs v (apply_all am req.transactions) else ok ignored

  abbrev pub by_pointer :
      RequestCache Tx → Verdict → Result (Unit {0}) (Option ℕ) → Result (Unit {0}) Verdict
  by_pointer cache v panic = panic
  by_pointer cache v (err e) = err e
  by_pointer cache v (ok none) = ok fetched
  by_pointer cache v (ok (some p)) = by_request v (lookup p cache.heap)

  abbrev pub time_verdict : Moment Tx → Verdict
  time_verdict m = not_future m.now (block_time ann m.header.header_annotation)

  abbrev pub by_id : Moment Tx → Result ParseError DataId → Result (Unit {0}) Verdict
  by_id m panic = ok ignored
  by_id m (err e) = ok ignored
  by_id m (ok d) =
      if not (nat_eq d.height cur_h)
      then ok ignored
      else if not (nat_eq d.round cur_r)
      then ok ignored
      else if is_zero d.n_txs
      then ok (time_verdict m)
      else by_pointer m.cache (time_verdict m) (get m.header.data_id m.cache)

  -- One round of the loop.
  unfoldable pub judge : Moment Tx → Result (Unit {0}) Verdict
  judge m =
      if not (nat_eq m.header.height cur_h)
      then ok ignored
      else if not (nat_eq m.header.round cur_r)
      then ok ignored
      else by_id m (parse_data_id m.header.data_id)

  -- What a verdict makes of the rest of the loop.
  abbrev pub continued : Moment Tx → Outcome → Result (Unit {0}) Verdict → Outcome
  continued m rest panic = (panic, [])
  continued m rest (err e) = (err e, [])
  continued m rest (ok ignored) = rest
  continued m rest (ok fetched) =
      (rest.0, (m.header.data_id, m.header.proposal_annotation) ∷ rest.1)
  continued m rest (ok accepted) = (ok (some m.header.hash), [])

  -- The first header that passes, or `none` for `ErrProposedBlockChoiceNotReady`, and the data IDs
  -- and annotations that `Retrieve` was called with on the way.
  unfoldable pub consider_proposed_blocks : List (Moment Tx) → Outcome
  consider_proposed_blocks [] = (ok none, [])
  consider_proposed_blocks (m ∷ ms) = continued m (consider_proposed_blocks ms) (judge m)

  unfoldable choose_proposed_block : List (Moment Tx) → Result (Unit {0}) Bytes
  choose_proposed_block ms = or_empty (consider_proposed_blocks ms).0
