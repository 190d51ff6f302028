-- ===== src/Consensus/Propose/Laws.antt =====
-- What is proposed, and when.
use gcosmos.Base.{
  ℕ, ◌<◌, ◌^◌, ◌≡◌, ◌∙◌, refl, true, List, ◌∷◌, Option, none, some, arith, Bytes, length,
  bytes_beq_iff, Result, ok, err, panic,
}
use gcosmos.Strconv.Integer.{pos}
use gcosmos.DataId.{DataId, txs_hash, data_id, parse_data_id}
use gcosmos.DataId.RoundTrip.{parse_data_id-data_id}
use gcosmos.Provider.{ProvideResult, ProvideError, Host, provide}
use gcosmos.Provider.RoundTrip.{provide_id}
use gcosmos.Requests.{BlockDataRequest, RequestCache, set_immediately_available, request_at}
use gcosmos.Requests.Laws.{IsSound, set_immediately_available_lem}
use gcosmos.Tx.{IsHash}
use gcosmos.Consensus.Propose.{
  Config, Strategy, RoundView, ProposalOut, Proposal, proposed, Entered, cached, annotated,
  provided, propose, enter_round,
}
use gcosmos.Consensus.Propose.Turn.{entered, selected-propose}

module _ {Tx : Type 0} (cfg : Config Tx) (s : Strategy Tx) (rv : RoundView) (out : ProposalOut)
    (now : ℕ) where
  -- What the cache and the ID are after a proposal with data.
  abbrev Offered : List Tx → Proposal → Result ProvideError ProvideResult → Entered Tx → Type 0
  Offered txs p x after =
      (r : ProvideResult) × (x ≡ ok r)
      × (p.data_id ≡ r.data_id)
      × (set_immediately_available r.data_id txs r.encoded s.cache ≡ ok after.1.cache)

  cached-Offered :
      (t : Strategy Tx) (txs : List Tx) (q p : Proposal) (r : ProvideResult)
      (y : Result (Unit {0}) (RequestCache Tx))
      → q.data_id ≡ r.data_id
      → set_immediately_available r.data_id txs r.encoded s.cache ≡ y
      → (cached t out q y).0 ≡ proposed p
      → Offered txs p (ok r) (cached t out q y)
  cached-Offered t txs q p r (ok c) same made e = (r, refl, ground arith, ground arith)
  cached-Offered t txs q p r (err x) same made e = cc
  cached-Offered t txs q p r panic same made e = cc

  annotated-Offered :
      (t : Strategy Tx) (txs : List Tx) (ba : Bytes) (p : Proposal) (r : ProvideResult)
      (o : Option Bytes)
      → t.cache ≡ s.cache
      → (annotated t out txs ba r o).0 ≡ proposed p
      → Offered txs p (ok r) (annotated t out txs ba r o)
  annotated-Offered t txs ba p r none same e = cc
  annotated-Offered t txs ba p r (some pda) same e = cached-Offered t txs _ p r _ refl (rw same) e

  provided-Offered :
      (txs : List Tx) (ba : Bytes) (p : Proposal) (x : Result ProvideError ProvideResult × Host)
      → (provided cfg (entered cfg s rv out now) out txs ba x).0 ≡ proposed p
      → Offered txs p x.0 (provided cfg (entered cfg s rv out now) out txs ba x)
  provided-Offered txs ba p (panic, h) e = cc
  provided-Offered txs ba p (err x, h) e = cc
  provided-Offered txs ba p (ok r, h) e =
      annotated-Offered (record (entered cfg s rv out now) { host = h }) txs ba p r
        (cfg.marshal_proposal_annotation r.addrs) refl e

  propose-Offered :
      (tx : Tx) (txs : List Tx) (o : Option Bytes) (p : Proposal)
      → (propose cfg (entered cfg s rv out now) out (tx ∷ txs) o).0 ≡ proposed p
      → Offered
          (tx ∷ txs)
          p
          (provide cfg.codecs cfg.api s.host rv.height rv.round (tx ∷ txs)).0
          (propose cfg (entered cfg s rv out now) out (tx ∷ txs) o)
  propose-Offered tx txs none p e = cc
  propose-Offered tx txs (some ba) p e = provided-Offered (tx ∷ txs) ba p _ e

  -- The cache and the ID behind a proposal with transactions.
  enter_round-Offered :
      (tx : Tx) (txs : List Tx) (p : Proposal)
      → (enter_round cfg s rv out (tx ∷ txs) now).0 ≡ proposed p
      → Offered
          (tx ∷ txs)
          p
          (provide cfg.codecs cfg.api s.host rv.height rv.round (tx ∷ txs)).0
          (enter_round cfg s rv out (tx ∷ txs) now)
  unfolding enter_round
  enter_round-Offered tx txs p e =
      let same =
        selected-propose cfg s rv out now (tx ∷ txs)
          (cfg.proposer_selection rv.height rv.round rv.validators) p e in
      rw same (propose-Offered tx txs (cfg.marshal_block_annotation now) p (rw same at e))

  -- The data ID of a proposal with transactions is made for them.
  pub enter_round_id :
      (tx : Tx) (txs : List Tx) (p : Proposal)
      → (enter_round cfg s rv out (tx ∷ txs) now).0 ≡ proposed p
      → (size : ℕ) × (size < 2 ^ 32)
        × (data_id cfg.api rv.height rv.round size (tx ∷ txs) ≡ ok p.data_id)
  enter_round_id tx txs p e =
      let (r, got, id, added) = enter_round-Offered tx txs p e in
      rw id (provide_id cfg.codecs cfg.api s.host rv.height rv.round (tx ∷ txs) r got)

  -- If a round with transactions pending is entered and a proposal sent, its data ID is parsed to
  -- the round that was entered and the number and hash of the transactions, and the cache holds
  -- them under that ID, ready. The cache was sound, the numbers fit their Go types, and the hash
  -- has 32 bytes.
  pub enter_round_data :
      (tx : Tx) (txs : List Tx) (p : Proposal)
      → IsHash cfg.api
      → IsSound s.cache
      → rv.height < 2 ^ 64
      → rv.round < 2 ^ 32
      → length (tx ∷ txs) < 2 ^ 31
      → (enter_round cfg s rv out (tx ∷ txs) now).0 ≡ proposed p
      → (d : DataId) × (req : BlockDataRequest Tx) × (parse_data_id p.data_id ≡ ok d)
        × (d.height ≡ rv.height)
        × (d.round ≡ rv.round)
        × (d.n_txs ≡ pos (length (tx ∷ txs)))
        × (d.txs_hash ≡ txs_hash cfg.api (tx ∷ txs))
        × (request_at (enter_round cfg s rv out (tx ∷ txs) now).1.cache p.data_id ≡ some req)
        × (req.ready ≡ true)
        × (req.transactions ≡ tx ∷ txs)
  enter_round_data tx txs p hash sound hh hr hn e =
      let all : List Tx = tx ∷ txs in
      let (r, got, id, added) = enter_round-Offered tx txs p e in
      let (size, fits, named) = enter_round_id tx txs p e in
      let (free, found, still_sound) =
        set_immediately_available_lem r.data_id p.data_id all r.encoded s.cache _ sound added in
      let d : DataId = record {
        height = rv.height;
        round = rv.round;
        n_txs = pos (length all);
        data_len = size;
        txs_hash = txs_hash cfg.api all;
      } in
      let req : BlockDataRequest Tx = record {
        ready = true;
        transactions = all;
        encoded_transactions = r.encoded;
      } in
      (
        d,
        req,
        parse_data_id-data_id cfg.api rv.height rv.round size tx txs p.data_id hash hh hr fits hn
            named,
        refl,
        refl,
        refl,
        refl,
        found ∙ ground (arith, bytes_beq_iff r.data_id p.data_id),
        refl,
        refl,
      )
