-- ===== src/Catchup/Fetch/Laws.antt =====
-- What a fetch does to the cache, and which heights are fetched.
use gcosmos.Base.{
  ℕ, ◌≡◌, ap, ◌∙◌, true, false, List, [], ◌∷◌, some, Bytes, take, ok, panic, bytes_key,
}
use gcosmos.BlockData.Codecs.{Codecs}
use gcosmos.BlockData.Decoder.{BlockDataDecoder, new_block_data_decoder, decode}
use gcosmos.DataId.{is_zero_tx_data_id}
use gcosmos.Requests.{RequestCache, set_immediately_available}
use gcosmos.Requests.Laws.{set_immediately_available_twice}
use gcosmos.Tx.{TxApi}
use gcosmos.Catchup.DataHost.{Headers, JsonResult, FullBlockResult}
use gcosmos.Catchup.Fetch.{excluded, response_limit, Replay, refused, replayed, cached, do_fetch}

module _ (c : Codecs) {Tx H : Type 0} (api : TxApi Tx) (hs : Headers H) (engine : H → Replay) where
  -- What a peer sent, when all of it is well formed: a header, and the data that goes with it.
  pub data IsBlock (stream : Bytes) (h : H) : Bytes → List Tx → Type 0 where
    without_data :
        (res : JsonResult) (fbr : FullBlockResult)
        → hs.decode_result (take response_limit stream) ≡ some res
        → res.error ≡ []
        → hs.unmarshal_block res.result ≡ some fbr
        → hs.unmarshal fbr.header ≡ some h
        → fbr.block_data ≡ []
        → is_zero_tx_data_id (hs.data_id h) ≡ true
        → IsBlock stream h [] []
    with_data :
        (res : JsonResult) (fbr : FullBlockResult) (b : ℕ) (bd : Bytes) (txs : List Tx)
        (dec : BlockDataDecoder)
        → hs.decode_result (take response_limit stream) ≡ some res
        → res.error ≡ []
        → hs.unmarshal_block res.result ≡ some fbr
        → hs.unmarshal fbr.header ≡ some h
        → fbr.block_data ≡ b ∷ bd
        → is_zero_tx_data_id (hs.data_id h) ≡ false
        → new_block_data_decoder (hs.data_id h) ≡ ok dec
        → decode c api dec (b ∷ bd) ≡ ok txs
        → IsBlock stream h (b ∷ bd) txs

  -- A header with data makes the fetch add the request to the cache and replay the header.
  pub do_fetch-with_data :
      (stream : Bytes) (h : H) (b : ℕ) (bd : Bytes) (txs : List Tx) (cache : RequestCache Tx)
      → IsBlock stream h (b ∷ bd) txs
      → do_fetch c api hs engine (some stream) cache
        ≡ cached c api hs engine h (set_immediately_available (hs.data_id h) txs (b ∷ bd) cache)
  unfolding do_fetch
  do_fetch-with_data stream h b bd txs cache (with_data res fbr _ _ _ dec e₁ e₂ e₃ e₄ e₅ e₆ e₇ e₈) =
      rw (e₁, e₂, e₃, e₄, e₅, e₆, e₇, e₈)

  do_fetch-without_data :
      (stream : Bytes) (h : H) (txs : List Tx) (cache : RequestCache Tx)
      → IsBlock stream h [] txs
      → do_fetch c api hs engine (some stream) cache ≡ replayed c api hs engine cache (engine h)
  unfolding do_fetch
  do_fetch-without_data stream h txs cache (without_data res fbr e₁ e₂ e₃ e₄ e₅ e₆) =
      rw (e₁, e₂, e₃, e₄, e₅, e₆)

  -- If the engine refuses a header whose data was just added to the cache, the peer is excluded,
  -- and to fetch the same block again, from whatever peer, panics: the cache has the data ID.
  pub refetch_panics :
      (stream : Bytes) (h : H) (b : ℕ) (bd : Bytes) (txs : List Tx) (cache cache' : RequestCache Tx)
      → IsBlock stream h (b ∷ bd) txs
      → engine h ≡ refused
      → set_immediately_available (hs.data_id h) txs (b ∷ bd) cache ≡ ok cache'
      → (do_fetch c api hs engine (some stream) cache ≡ ok (excluded, cache'))
        × (do_fetch c api hs engine (some stream) cache' ≡ panic)
  refetch_panics stream h b bd txs cache cache' block refuses added = (
    do_fetch-with_data stream h b bd txs cache block ∙ (rw (added, refuses)),
    do_fetch-with_data stream h b bd txs cache' block
        ∙ ap (cached c api hs engine h) (
            set_immediately_available_twice (hs.data_id h) txs txs (b ∷ bd) (b ∷ bd) cache cache'
              added),
  )
