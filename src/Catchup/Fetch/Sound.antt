-- ===== src/Catchup/Fetch/Sound.antt =====
-- What a fetch that succeeds has checked.
use gcosmos.Base.{
  ℕ, ◌≡◌, ◌⊎◌, inl, inr, refl, sym, ap, true, false, List, [], ◌∷◌, Option, none, some, arith,
  Bytes, take, Result, ok, err, panic, bytes_key, Bool-cases,
}
use gcosmos.BlockData.Codecs.{Codecs}
use gcosmos.BlockData.Decoder.{BlockDataDecoder, DecodeError, new_block_data_decoder, decode}
use gcosmos.DataId.{ParseError, is_zero_tx_data_id}
use gcosmos.Requests.{RequestCache, set_immediately_available}
use gcosmos.Tx.{TxApi}
use gcosmos.Catchup.DataHost.{Headers, JsonResult, FullBlockResult}
use gcosmos.Catchup.Fetch.Laws.{IsBlock, without_data, with_data}
use gcosmos.Catchup.Fetch.{
  fetched, response_limit, Replay, cancelled, refused, applied, replayed, cached, decoded,
  with_decoder, with_header, with_block, no_error, with_result, do_fetch,
}

module _ (c : Codecs) {Tx H : Type 0} (api : TxApi Tx) (hs : Headers H) (engine : H → Replay) where
  -- What a successful fetch rests on, and what it does to the cache.
  pub record Succeeded (stream : Bytes) (cache cache' : RequestCache Tx) : Type 0 where
    pub header : H
    pub bd : Bytes
    pub txs : List Tx
    pub block : IsBlock c api hs engine stream header bd txs
    pub engine_applied : engine header ≡ applied
    pub cache_is :
        ((is_zero_tx_data_id (hs.data_id header) ≡ true) × (bd ≡ []) × (cache' ≡ cache))
        ⊎ ((is_zero_tx_data_id (hs.data_id header) ≡ false)
            × (set_immediately_available (hs.data_id header) txs bd cache ≡ ok cache'))

  replayed_lem :
      (cache cache' : RequestCache Tx) (r : Replay)
      → replayed c api hs engine cache r ≡ ok (fetched, cache')
      → (r ≡ applied) × (cache' ≡ cache)
  replayed_lem cache cache' cancelled e = cc
  replayed_lem cache cache' refused e = cc
  replayed_lem cache cache' applied e = (refl, cc)

  cached_lem :
      (h : H) (o : Result (Unit {0}) (RequestCache Tx)) (cache' : RequestCache Tx)
      → cached c api hs engine h o ≡ ok (fetched, cache')
      → (engine h ≡ applied) × (o ≡ ok cache')
  cached_lem h (ok cache) cache' e =
      let (is_applied, same) = replayed_lem cache cache' (engine h) e in
      (is_applied, ap ok (sym same))
  cached_lem h (err x) cache' e = cc
  cached_lem h panic cache' e = cc

  -- Every check of a fetch that succeeded has passed.
  module _ (stream : Bytes) (cache cache' : RequestCache Tx) (res : JsonResult)
      (fbr : FullBlockResult) (e₁ : hs.decode_result (take response_limit stream) ≡ some res)
      (e₂ : res.error ≡ []) (e₃ : hs.unmarshal_block res.result ≡ some fbr) where
    from_data :
        (h : H) (b : ℕ) (bd : Bytes) (dec : BlockDataDecoder) (o : Result DecodeError (List Tx))
        → hs.unmarshal fbr.header ≡ some h
        → fbr.block_data ≡ b ∷ bd
        → is_zero_tx_data_id (hs.data_id h) ≡ false
        → new_block_data_decoder (hs.data_id h) ≡ ok dec
        → decode c api dec (b ∷ bd) ≡ o
        → decoded c api hs engine h (b ∷ bd) cache o ≡ ok (fetched, cache')
        → Succeeded stream cache cache'
    from_data h b bd dec (ok txs) e₄ e₅ e₆ e₇ e₈ e =
        let (is_applied, added) =
          cached_lem h (set_immediately_available (hs.data_id h) txs (b ∷ bd) cache) cache' e in
        record {
          header = h;
          bd = b ∷ bd;
          txs = txs;
          block = with_data res fbr b bd txs dec e₁ e₂ e₃ e₄ e₅ e₆ e₇ e₈;
          engine_applied = is_applied;
          cache_is = inr (e₆, added);
        }
    from_data h b bd dec (err x) e₄ e₅ e₆ e₇ e₈ e = cc
    from_data h b bd dec panic e₄ e₅ e₆ e₇ e₈ e = cc

    from_decoder :
        (h : H) (b : ℕ) (bd : Bytes) (o : Result ParseError BlockDataDecoder)
        → hs.unmarshal fbr.header ≡ some h
        → fbr.block_data ≡ b ∷ bd
        → is_zero_tx_data_id (hs.data_id h) ≡ false
        → new_block_data_decoder (hs.data_id h) ≡ o
        → with_decoder c api hs engine h (b ∷ bd) cache o ≡ ok (fetched, cache')
        → Succeeded stream cache cache'
    from_decoder h b bd (ok dec) e₄ e₅ e₆ e₇ e =
        from_data h b bd dec (decode c api dec (b ∷ bd)) e₄ e₅ e₆ e₇ refl e
    from_decoder h b bd (err x) e₄ e₅ e₆ e₇ e = cc
    from_decoder h b bd panic e₄ e₅ e₆ e₇ e = cc

    from_header :
        (data_bytes : Bytes) (o : Option H)
        → hs.unmarshal fbr.header ≡ o
        → fbr.block_data ≡ data_bytes
        → with_header c api hs engine data_bytes cache o ≡ ok (fetched, cache')
        → Succeeded stream cache cache'
    from_header [] none e₄ e₅ e = cc
    from_header (b ∷ bd) none e₄ e₅ e = cc
    from_header [] (some h) e₄ e₅ e = elim (Bool-cases (is_zero_tx_data_id (hs.data_id h))) [
      | inl zero_id ↦
          let (is_applied, same) = replayed_lem cache cache' (engine h) (rw zero_id at e) in
          record {
            header = h;
            bd = [];
            txs = [];
            block = without_data res fbr e₁ e₂ e₃ e₄ e₅ zero_id;
            engine_applied = is_applied;
            cache_is = inl (zero_id, refl, same);
          }
      | inr other_id ↦ absurd (ground arith)
    ]
    from_header (b ∷ bd) (some h) e₄ e₅ e = elim (Bool-cases (is_zero_tx_data_id (hs.data_id h))) [
      | inl zero_id ↦ absurd (ground arith)
      | inr other_id ↦
          from_decoder h b bd (new_block_data_decoder (hs.data_id h)) e₄ e₅ other_id refl
            (rw other_id at e)
    ]

  from_block :
      (stream : Bytes) (cache cache' : RequestCache Tx) (res : JsonResult)
      (o : Option FullBlockResult)
      → hs.decode_result (take response_limit stream) ≡ some res
      → res.error ≡ []
      → hs.unmarshal_block res.result ≡ o
      → with_block c api hs engine cache o ≡ ok (fetched, cache')
      → Succeeded stream cache cache'
  from_block stream cache cache' res none e₁ e₂ e₃ e = cc
  from_block stream cache cache' res (some fbr) e₁ e₂ e₃ e =
      from_header stream cache cache' res fbr e₁ e₂ e₃ fbr.block_data (hs.unmarshal fbr.header) refl
        refl e

  from_error :
      (stream : Bytes) (cache cache' : RequestCache Tx) (res : JsonResult) (error : Bytes)
      → hs.decode_result (take response_limit stream) ≡ some res
      → res.error ≡ error
      → no_error c api hs engine cache res.result error ≡ ok (fetched, cache')
      → Succeeded stream cache cache'
  from_error stream cache cache' res [] e₁ e₂ e =
      from_block stream cache cache' res (hs.unmarshal_block res.result) e₁ e₂ refl e
  from_error stream cache cache' res (x ∷ error) e₁ e₂ e = cc

  from_result :
      (stream : Bytes) (cache cache' : RequestCache Tx) (o : Option JsonResult)
      → hs.decode_result (take response_limit stream) ≡ o
      → with_result c api hs engine cache o ≡ ok (fetched, cache')
      → Succeeded stream cache cache'
  from_result stream cache cache' none e₁ e = cc
  from_result stream cache cache' (some res) e₁ e =
      from_error stream cache cache' res res.error e₁ refl e

  -- A fetch succeeds only on a stream that was opened and carries a header which the engine applied; the
  -- data is empty and the cache untouched for the zero data ID, and otherwise decodes under the header's
  -- data ID and is in the cache for it.
  pub do_fetch-Succeeded :
      (stream : Option Bytes) (cache cache' : RequestCache Tx)
      → do_fetch c api hs engine stream cache ≡ ok (fetched, cache')
      → (s : Bytes) × (stream ≡ some s) × Succeeded s cache cache'
  unfolding do_fetch
  do_fetch-Succeeded none cache cache' e = cc
  do_fetch-Succeeded (some s) cache cache' e =
      (s, refl, from_result s cache cache' (hs.decode_result (take response_limit s)) refl e)
