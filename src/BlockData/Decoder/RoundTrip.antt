-- ===== src/BlockData/Decoder/RoundTrip.antt =====
-- What the encoder writes is decoded under the ID that was made for it.
use gcosmos.Base.{
  ℕ, zero, suc, ◌≤◌, ◌<◌, ◌^◌, ◌≡◌, refl, List, [], ◌∷◌, ◌++◌, some, arith, Bytes, length, take,
  map, bytes_beq_iff, take-length_append, length-map, ok, append-nil,
}
use gcosmos.Strconv.Integer.{pos}
use gcosmos.BlockData.Varint.{append_varint, read_varint}
use gcosmos.BlockData.Varint.RoundTrip.{read_varint-append_varint}
use gcosmos.BlockData.Codecs.{Codecs, IsLawful}
use gcosmos.BlockData.Encoder.{compress_encoded_block_data, encode_block_data}
use gcosmos.BlockData.Decoder.{
  BlockDataDecoder, read_full, positive_size, decode_uncompressed, decode_snappy, decode_txs,
  decode_raw, decode, new_block_data_decoder,
}
use gcosmos.DataId.{txs_hash, data_id}
use gcosmos.DataId.RoundTrip.{parse_data_id-data_id}
use gcosmos.Tx.{TxApi, IsHash, IsCodec}

positive_size-pos : (n : ℕ) → 1 ≤ n → positive_size (pos n) ≡ ok n
positive_size-pos zero h = absurd (omega arith)
positive_size-pos (suc n) h = refl

read_full-length : (b : Bytes) → read_full (length b) b ≡ ok b
read_full-length b =
    let whole : take (length b) b ≡ b = rw append-nil at (take-length_append b []) in ground arith

framed : Bytes → Bytes
framed payload = append_varint [] (pos (length payload)) ++ payload

read_varint-framed :
    (payload : Bytes)
    → length payload < 2 ^ 63
    → read_varint (framed payload) ≡ some (pos (length payload), payload)
unfolding framed
read_varint-framed payload h = read_varint-append_varint (pos (length payload)) payload h

module _ (d : BlockDataDecoder) (payload : Bytes) (some_data : 1 ≤ length payload) where
  decode_uncompressed-framed :
      length payload < 2 ^ 63
      → d.data_len ≡ length payload
      → decode_uncompressed d (framed payload) ≡ ok payload
  unfolding decode_uncompressed
  decode_uncompressed-framed h same =
      rw (read_varint-framed payload h, positive_size-pos _ some_data, same)
        (ground (arith, read_full-length payload))

module _ (c : Codecs) (law : IsLawful c) (d : BlockDataDecoder) (j : Bytes) (m : ℕ) where
  decode_snappy-framed :
      length (c.snappy_encode j) < 2 ^ 63
      → d.data_len ≡ length j
      → c.snappy_max_encoded_len (length j) ≡ pos m
      → decode_snappy c d (framed (c.snappy_encode j)) ≡ ok j
  unfolding decode_snappy
  decode_snappy-framed h same bound =
      rw
        (
          read_varint-framed (c.snappy_encode j) h,
          positive_size-pos _ (law.encode_some j),
          same,
          bound,
        )
        (ground (
          arith,
          law.encode_within j m bound,
          read_full-length (c.snappy_encode j),
          law.decoded_len_encode j,
          law.decode_encode j,
        ))

module _ {Tx : Type 0} (api : TxApi Tx) (codec : IsCodec api) where
  decode_txs-map : (txs : List Tx) → decode_txs api (map api.bytes txs) ≡ ok txs
  unfolding decode_txs
  decode_txs-map [] = refl
  decode_txs-map (tx ∷ txs) = rw (codec.decode_bytes tx, decode_txs-map txs)

module _ (c : Codecs) (law : IsLawful c) {Tx : Type 0} (api : TxApi Tx) (codec : IsCodec api)
    (txs : List Tx) where
  abbrev made : ℕ → BlockDataDecoder
  made size = record { n_txs = pos (length txs); data_len = size; hash = txs_hash api txs }

  decode_raw-made :
      (size : ℕ) → decode_raw c api (made size) (c.json_marshal (map api.bytes txs)) ≡ ok txs
  unfolding decode_raw
  decode_raw-made size =
      rw
        (
          law.unmarshal_marshal (map api.bytes txs),
          length-map api.bytes txs,
          decode_txs-map api codec txs,
        )
        (ground (arith, bytes_beq_iff (txs_hash api txs) (txs_hash api txs)))

  decode-compress :
      (j : Bytes) (m : ℕ)
      → j ≡ c.json_marshal (map api.bytes txs)
      → length j < 2 ^ 32
      → c.snappy_max_encoded_len (length j) ≡ pos m
      → decode c api (made (length j)) (compress_encoded_block_data c j).0 ≡ ok txs
  unfolding decode compress_encoded_block_data framed
  decode-compress j m is_json fits bound = ground (
    arith,
    decode_uncompressed-framed (made (length j)) j,
    decode_snappy-framed c law (made (length j)) j m,
    decode_raw-made (length j),
    law.marshal_some (map api.bytes txs),
  )

module _ (c : Codecs) (law : IsLawful c) {Tx : Type 0} (api : TxApi Tx) (hash : IsHash api)
    (codec : IsCodec api) where
  -- Transactions that are encoded, and served under the ID made from them and the reported size,
  -- are what the decoder for that ID returns. The numbers fit their Go types, and Snappy accepts a
  -- block of that size.
  pub decode-encode_block_data :
      (height round size m : ℕ) (tx : Tx) (txs : List Tx) (written id : Bytes)
      → height < 2 ^ 64
      → round < 2 ^ 32
      → size < 2 ^ 32
      → length (tx ∷ txs) < 2 ^ 31
      → c.snappy_max_encoded_len size ≡ pos m
      → encode_block_data c api (tx ∷ txs) ≡ ok (written, size)
      → data_id api height round size (tx ∷ txs) ≡ ok id
      → (d : BlockDataDecoder) × (new_block_data_decoder id ≡ ok d)
        × (decode c api d written ≡ ok (tx ∷ txs))
  unfolding new_block_data_decoder encode_block_data
  decode-encode_block_data height round size m tx txs written id hh hr hs hn bound encoded named =
      let j : Bytes = c.json_marshal (map api.bytes (tx ∷ txs)) in
      let written_is : compress_encoded_block_data c j ≡ (written, size) = cc in
      let size_is : length j ≡ size = size_of j written_is in
      (
        made c law api codec (tx ∷ txs) size,
        rw (parse_data_id-data_id api height round size tx txs id hash hh hr hs hn named),
        ground (arith, decode-compress c law api codec (tx ∷ txs) j m refl, written_is, size_is),
      )
    where
      size_of : (j : Bytes) → compress_encoded_block_data c j ≡ (written, size) → length j ≡ size
      size_of j e = unfold compress_encoded_block_data in ground arith
