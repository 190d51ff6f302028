-- ===== src/Catchup/Fetch/Served.antt =====
-- A block that one node serves and another fetches.
use gcosmos.Base.{
  ℕ, zero, suc, ◌<◌, ◌≤◌, ◌^◌, ◌≡◌, refl, sym, ap, false, List, [], ◌∷◌, ◌++◌, none, some, arith,
  Bytes, take, length, bytes_beq_iff, ok,
}
use gcosmos.BlockData.Codecs.{Codecs}
use gcosmos.BlockData.Decoder.{BlockDataDecoder, new_block_data_decoder, decode}
use gcosmos.BlockStore.{BlockDataStore, load_block_data_by_height}
use gcosmos.DataId.{is_zero_tx_data_id}
use gcosmos.Requests.{RequestCache}
use gcosmos.Strconv.Integer.{format_uint}
use gcosmos.Strconv.Integer.RoundTrip.{parse_uint-format_uint}
use gcosmos.Strconv.Text.Laws.{cut_prefix-append}
use gcosmos.Tx.{TxApi}
use gcosmos.Catchup.DataHost.{
  Headers, JsonResult, FullBlockResult, full_block_v1_height_prefix, handle_full_block_stream,
}
use gcosmos.Catchup.Fetch.{Replay, response_limit, excluded, do_fetch}
use gcosmos.Catchup.Fetch.Laws.{IsBlock, with_data}

take-all {ℓ} : {A : Type ℓ} (n : ℕ) (xs : List A) → length xs ≤ n → take n xs ≡ xs
take-all zero [] h = refl
take-all zero (x ∷ xs) h = absurd (omega arith)
take-all (suc n) [] h = refl
take-all (suc n) (x ∷ xs) h = ap (◌∷◌ x) (take-all n xs (omega arith))

-- JSON that `json.Marshal` made is kept inside another value, a header inside a block is still that
-- header, and a JSON object is not one any more when it is cut before its last byte.
pub record IsJson {H : Type 0} (hs : Headers H) : Type 0 where
  pub result_back :
      (fbr : FullBlockResult) (j : Bytes)
      → hs.marshal_block fbr ≡ some j
      → hs.decode_result (hs.encode_result (record { result = j; error = [] }))
        ≡ some (record { result = j; error = [] })
  pub block_back :
      (h : H) (b bd j : Bytes)
      → hs.marshal h ≡ some b
      → hs.marshal_block (record { header = b; block_data = bd }) ≡ some j
      → (b' : Bytes) × (hs.unmarshal_block j ≡ some (record { header = b'; block_data = bd }))
        × (hs.unmarshal b' ≡ some h)
  pub truncated :
      (res : JsonResult) (n : ℕ)
      → suc n < length (hs.encode_result res)
      → hs.decode_result (take n (hs.encode_result res)) ≡ none

-- The server has the header and the data of the height, and the data is what the header names.
pub record Holds {Tx H : Type 0} (c : Codecs) (api : TxApi Tx) (hs : Headers H)
    (bds : BlockDataStore) (height : ℕ) (h : H) (byte : ℕ) (bd : Bytes) (txs : List Tx)
    (stream : Bytes) : Type 0 where
  pub fits : height < 2 ^ 64
  pub loaded : hs.load height ≡ ok h
  pub b : Bytes
  pub marshalled : hs.marshal h ≡ some b
  pub not_zero : is_zero_tx_data_id (hs.data_id h) ≡ false
  pub data_loaded : load_block_data_by_height bds height [] ≡ ok (hs.data_id h, byte ∷ bd)
  pub dec : BlockDataDecoder
  pub id_parsed : new_block_data_decoder (hs.data_id h) ≡ ok dec
  pub decodes : decode c api dec (byte ∷ bd) ≡ ok txs
  pub j : Bytes
  pub block_marshalled : hs.marshal_block (record { header = b; block_data = byte ∷ bd }) ≡ some j
  pub stream_is : stream ≡ hs.encode_result (record { result = j; error = [] })

module _ {Tx H : Type 0} (c : Codecs) (api : TxApi Tx) (hs : Headers H) (engine : H → Replay) where
  -- A server that holds the header and the data of a height writes the block when asked under the
  -- protocol with the height's decimal digits, and a client finds that header and that data in it,
  -- if the response is within the client's limit. The JSON keeps what was put into it.
  pub handle_full_block_stream-IsBlock :
      (bds : BlockDataStore) (height : ℕ) (h : H) (byte : ℕ) (bd : Bytes) (txs : List Tx)
      (stream : Bytes)
      → IsJson hs
      → Holds c api hs bds height h byte bd txs stream
      → length stream ≤ response_limit
      → (handle_full_block_stream hs bds (full_block_v1_height_prefix ++ format_uint 10 height)
          ≡ ok stream)
        × IsBlock c api hs engine stream h (byte ∷ bd) txs
  unfolding handle_full_block_stream
  handle_full_block_stream-IsBlock bds height h byte bd txs stream law holds small =
      let (b', unmarshalled, header_back) =
        law.block_back h holds.b (byte ∷ bd) holds.j holds.marshalled holds.block_marshalled in
      (
        rw
            (
              cut_prefix-append full_block_v1_height_prefix (format_uint 10 height),
              parse_uint-format_uint 10 64 height (omega arith) (omega arith) holds.fits,
              holds.loaded,
              holds.marshalled,
              holds.not_zero,
              holds.data_loaded,
              holds.block_marshalled,
              holds.stream_is,
            )
            (ground (arith, bytes_beq_iff (hs.data_id h) (hs.data_id h))),
        with_data (record { result = holds.j; error = [] })
            (record { header = b'; block_data = byte ∷ bd }) byte bd txs holds.dec
            (rw (take-all response_limit stream small, holds.stream_is)
              (law.result_back (record { header = holds.b; block_data = byte ∷ bd }) holds.j
                holds.block_marshalled))
            refl unmarshalled header_back refl holds.not_zero holds.id_parsed holds.decodes,
      )

  -- If the response for a block that a server holds is more than a byte longer than the client's
  -- limit, the client excludes the server, whatever the engine would have said. The JSON is not
  -- valid once it is cut before its last byte.
  pub large_block_excludes :
      (bds : BlockDataStore) (height : ℕ) (h : H) (byte : ℕ) (bd : Bytes) (txs : List Tx)
      (stream : Bytes) (cache : RequestCache Tx)
      → IsJson hs
      → Holds c api hs bds height h byte bd txs stream
      → suc response_limit < length stream
      → do_fetch c api hs engine (some stream) cache ≡ ok (excluded, cache)
  unfolding do_fetch
  large_block_excludes bds height h byte bd txs stream cache law holds large = rw (
    holds.stream_is,
    law.truncated (record { result = holds.j; error = [] }) response_limit
        (rw (sym holds.stream_is) large),
  )
