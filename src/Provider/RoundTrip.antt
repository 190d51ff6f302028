-- ===== src/Provider/RoundTrip.antt =====
-- Provide and retrieve, end to end.
use gcosmos.Base.{
  ℕ, ◌<◌, ◌%◌, ◌^◌, ◌≡◌, refl, List, ◌∷◌, ◌++◌, some, arith, Bytes, length, map, lookup, put,
  lookup-put, bytes_key, ==_refl, Result, ok, err, panic,
}
use native.Mathlib.Nat.{mod-eq_of_lt}
use gcosmos.Strconv.Integer.{pos}
use gcosmos.BlockData.Codecs.{Codecs, IsLawful}
use gcosmos.BlockData.Encoder.{encode_block_data, compress_encoded_block_data}
use gcosmos.BlockData.Decoder.{BlockDataDecoder, new_block_data_decoder, decode}
use gcosmos.BlockData.Decoder.RoundTrip.{decode-encode_block_data}
use gcosmos.DataId.{data_id}
use gcosmos.Tx.{TxApi, IsHash, IsCodec}
use gcosmos.Provider.{
  Host, ProvideResult, proposed_block_data_v1_prefix, provide, retrieve, locations, publish, named,
  provide_encoded,
}

module _ (c : Codecs) (law : IsLawful c) {Tx : Type 0} (api : TxApi Tx) (hash : IsHash api)
    (codec : IsCodec api) where
  -- The JSON text of the transactions' bytes.
  abbrev json_size : List Tx → ℕ
  json_size txs = length (c.json_marshal (map api.bytes txs))

  encoded : List Tx → Bytes
  encoded txs = (compress_encoded_block_data c (c.json_marshal (map api.bytes txs))).0

  encode_block_data-some :
      (tx : Tx) (txs : List Tx)
      → encode_block_data c api (tx ∷ txs) ≡ ok (encoded (tx ∷ txs), json_size (tx ∷ txs))
  unfolding encode_block_data encoded compress_encoded_block_data
  encode_block_data-some tx txs = ground arith

  data_id-some :
      (height round size : ℕ) (tx : Tx) (txs : List Tx)
      → (id : Bytes) × (data_id api height round size (tx ∷ txs) ≡ ok id)
  unfolding data_id
  data_id-some height round size tx txs = (_, refl)

  provide_lem :
      (h : Host) (height round : ℕ) (tx : Tx) (txs : List Tx) (jai id : Bytes)
      → json_size (tx ∷ txs) < 2 ^ 32
      → data_id api height round (json_size (tx ∷ txs)) (tx ∷ txs) ≡ ok id
      → h.marshalled_info ≡ some jai
      → provide c api h height round (tx ∷ txs) ≡ (
        ok (record { data_id = id; addrs = locations c api jai; encoded = encoded (tx ∷ txs) }),
        record h {
          handlers = put (proposed_block_data_v1_prefix ++ id) (encoded (tx ∷ txs)) h.handlers;
        },
      )
  unfolding provide
  provide_lem h height round tx txs jai id hs named info = rw (
    encode_block_data-some tx txs,
    mod-eq_of_lt {n = json_size (tx ∷ txs)} {m = 2 ^ 32} hs,
    named,
    info,
  )

  retrieve_lem :
      (h : Host) (d : BlockDataDecoder) (id stream : Bytes) (txs : List Tx)
      → new_block_data_decoder id ≡ ok d
      → lookup (proposed_block_data_v1_prefix ++ id) h.handlers ≡ some stream
      → decode c api d stream ≡ ok txs
      → retrieve c api (some h) id ≡ ok txs
  unfolding retrieve
  retrieve_lem h d id stream txs made found decoded = rw (made, found, decoded)

  -- Providing at least one transaction succeeds, if the host can marshal its address, and a client
  -- that reaches the host then retrieves those transactions under the ID in the result. The numbers
  -- fit their Go types, and Snappy accepts a block of that size.
  pub retrieve-provide :
      (h : Host) (height round m : ℕ) (tx : Tx) (txs : List Tx) (jai : Bytes)
      → height < 2 ^ 64
      → round < 2 ^ 32
      → json_size (tx ∷ txs) < 2 ^ 32
      → length (tx ∷ txs) < 2 ^ 31
      → c.snappy_max_encoded_len (json_size (tx ∷ txs)) ≡ pos m
      → h.marshalled_info ≡ some jai
      → (r : ProvideResult) × ((provide c api h height round (tx ∷ txs)).0 ≡ ok r)
        × (retrieve c api (some (provide c api h height round (tx ∷ txs)).1) r.data_id
            ≡ ok (tx ∷ txs))
  retrieve-provide h height round m tx txs jai hh hr hs hn bound info =
      let all : List Tx = tx ∷ txs in
      let size : ℕ = json_size all in
      let (id, named) = data_id-some height round size tx txs in
      let (d, made, decoded) =
        decode-encode_block_data c law api hash codec height round size m tx txs (encoded all) id hh
          hr hs hn bound (encode_block_data-some tx txs) named in
      let r : ProvideResult = record {
        data_id = id;
        addrs = locations c api jai;
        encoded = encoded all;
      } in
      let h' : Host = record h {
        handlers = put (proposed_block_data_v1_prefix ++ id) (encoded all) h.handlers;
      } in
      let provided : provide c api h height round all ≡ (ok r, h') =
        provide_lem h height round tx txs jai id hs named info in
      (
        r,
        rw provided,
        rw provided (retrieve_lem h' d id (encoded all) all made (found id h) decoded),
      )
    where
      found :
          (id : Bytes) (h : Host)
          → lookup
              (proposed_block_data_v1_prefix ++ id)
              (put (proposed_block_data_v1_prefix ++ id) (encoded (tx ∷ txs)) h.handlers)
            ≡ some (encoded (tx ∷ txs))
      found id h = rw (lookup-put, ==_refl (proposed_block_data_v1_prefix ++ id))

module _ (c : Codecs) {Tx : Type 0} (api : TxApi Tx) where
  publish_id :
      (h : Host) (id encoded : Bytes) (r : ProvideResult)
      → (publish c api h id encoded).0 ≡ ok r
      → r.data_id ≡ id
  publish_id h id encoded r e = ground arith

  named_id :
      (h : Host) (encoded : Bytes) (x : Result (Unit {0}) Bytes) (r : ProvideResult)
      → (named c api h encoded x).0 ≡ ok r
      → x ≡ ok r.data_id
  named_id h encoded (ok id) r e = rw (publish_id h id encoded r e)
  named_id h encoded (err x) r e = cc
  named_id h encoded panic r e = cc

  provide_encoded_id :
      (h : Host) (height round : ℕ) (txs : List Tx) (x : Result (Unit {0}) (Bytes × ℕ))
      (r : ProvideResult)
      → (provide_encoded c api h height round txs x).0 ≡ ok r
      → (size : ℕ) × (size < 2 ^ 32) × (data_id api height round size txs ≡ ok r.data_id)
  provide_encoded_id h height round txs (ok (encoded, size)) r e =
      (size % 2 ^ 32, omega arith, named_id h encoded _ r e)
  provide_encoded_id h height round txs (err x) r e = cc
  provide_encoded_id h height round txs panic r e = cc

  -- The ID in the result is one for the height, the round and the transactions that were provided.
  pub provide_id :
      (h : Host) (height round : ℕ) (txs : List Tx) (r : ProvideResult)
      → (provide c api h height round txs).0 ≡ ok r
      → (size : ℕ) × (size < 2 ^ 32) × (data_id api height round size txs ≡ ok r.data_id)
  unfolding provide
  provide_id h height round txs r e =
      provide_encoded_id h height round txs (encode_block_data c api txs) r e
