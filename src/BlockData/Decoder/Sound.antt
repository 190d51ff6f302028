-- ===== src/BlockData/Decoder/Sound.antt =====
-- What the decoder accepts is what the data ID names, whoever sent the bytes.
use gcosmos.Base.{
  ℕ, ◌≡◌, refl, true, List, [], ◌∷◌, Bytes, length, bytes_beq, bytes_beq_iff, arith, ok, or_fail,
  >>=-eq-ok, Bool, false,
}
use gcosmos.Strconv.Integer.{ℤ, pos, negsuc}
use gcosmos.BlockData.Codecs.{Codecs}
use gcosmos.BlockData.Decoder.{
  BlockDataDecoder, DecodeError, guard, same_count, decode_txs, decode_raw, decode_body, decode,
  new_block_data_decoder,
}
use gcosmos.DataId.{DataId, txs_hash, parse_data_id}
use gcosmos.Tx.{TxApi}

guard-eq-ok : (b : Bool) (e : DecodeError) {u : Unit {0}} → guard b e ≡ ok u → b ≡ true
guard-eq-ok true e h = refl
guard-eq-ok false e h = cc

same_count-pos : (z : ℤ) (n : ℕ) → same_count z n ≡ true → z ≡ pos n
same_count-pos (pos m) n h = ground arith
same_count-pos (negsuc m) n h = cc

module _ {Tx : Type 0} (api : TxApi Tx) where
  length-decode_txs :
      (items : List Bytes) (txs : List Tx)
      → decode_txs api items ≡ ok txs
      → length txs ≡ length items
  unfolding decode_txs
  length-decode_txs [] txs e = ground arith
  length-decode_txs (item ∷ items) txs e =
      let (tx, e₁, k₁) = >>=-eq-ok (or_fail (api.decode item) _) _ e in
      let (rest, e₂, k₂) = >>=-eq-ok (decode_txs api items) _ k₁ in
      ground (arith, length-decode_txs items rest e₂)

module _ (c : Codecs) {Tx : Type 0} (api : TxApi Tx) (d : BlockDataDecoder) where
  abbrev Named : List Tx → Type 0
  Named txs = (d.n_txs ≡ pos (length txs)) × (d.hash ≡ txs_hash api txs)

  decode_raw-Named :
      (encoded : Bytes) (txs : List Tx) → decode_raw c api d encoded ≡ ok txs → Named txs
  unfolding decode_raw
  decode_raw-Named encoded txs e =
      let (items, e₁, k₁) = >>=-eq-ok (or_fail (c.json_unmarshal encoded) _) _ e in
      let (u, e₂, k₂) = >>=-eq-ok (guard (same_count d.n_txs (length items)) _) _ k₁ in
      let (got, e₃, k₃) = >>=-eq-ok (decode_txs api items) _ k₂ in
      let (v, e₄, k₄) = >>=-eq-ok (guard (bytes_beq (txs_hash api got) d.hash) _) _ k₃ in
      ground (
        arith,
        same_count-pos d.n_txs (length items) (guard-eq-ok _ _ e₂),
        length-decode_txs api items got e₃,
        guard-eq-ok _ _ e₄,
        bytes_beq_iff (txs_hash api got) d.hash,
      )

  decode-Named : (stream : Bytes) (txs : List Tx) → decode c api d stream ≡ ok txs → Named txs
  unfolding decode
  decode-Named [] txs e = cc
  decode-Named (header ∷ r) txs e =
      let (encoded, e₁, k₁) = >>=-eq-ok (decode_body c d header r) (decode_raw c api d) e in
      decode_raw-Named encoded txs k₁

-- From any stream the decoder for an ID accepts only transactions that have the number and the
-- hash which the ID states.
pub decode_sound :
    (c : Codecs) {Tx : Type 0} (api : TxApi Tx)
    → (id stream : Bytes) (p : DataId) (d : BlockDataDecoder) (txs : List Tx)
    → parse_data_id id ≡ ok p
    → new_block_data_decoder id ≡ ok d
    → decode c api d stream ≡ ok txs
    → (p.n_txs ≡ pos (length txs)) × (p.txs_hash ≡ txs_hash api txs)
unfolding new_block_data_decoder
decode_sound c api id stream p d txs parsed made decoded =
    let named = decode-Named c api d stream txs decoded in ground (arith, named)
