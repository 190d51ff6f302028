-- ===== src/BlockData/Decoder.antt =====
-- gserver/internal/gsbd/decoder.go. A stream is the bytes that it will still deliver; what the
-- buffered reader of the size took too much is put back in front, so it reads as one stream.
pub mod RoundTrip
pub mod Sound
pub mod Total
use gcosmos.Base.{
  ℕ, zero, suc, ◌+◌, Bool, true, false, not, List, [], ◌∷◌, Option, none, some, Bytes, length, take,
  ltb, nat_eq, bytes_beq, if◌then◌else◌, Result, ok, err, panic, ◌>>=◌, ◌>>◌, or_fail,
}
use gcosmos.Strconv.Integer.{ℤ, pos, negsuc}
use gcosmos.BlockData.Varint.{read_varint}
use gcosmos.BlockData.Codecs.{Codecs, above}
use gcosmos.BlockData.Encoder.{uncompressed_header, snappy_header}
use gcosmos.DataId.{ParseError, txs_hash, parse_data_id}
use gcosmos.Tx.{TxApi}

pub record BlockDataDecoder : Type 0 where
  pub n_txs : ℤ
  pub data_len : ℕ
  pub hash : Bytes

unfoldable pub new_block_data_decoder : Bytes → Result ParseError BlockDataDecoder
new_block_data_decoder id = do
  d ← parse_data_id id
  ok (record { n_txs = d.n_txs; data_len = d.data_len; hash = d.txs_hash })

pub data DecodeError : Type 0 where
  no_header bad_header no_size size_not_positive size_mismatch size_too_large short_data :
      DecodeError
  bad_snappy_length snappy_length_mismatch bad_snappy bad_json wrong_count bad_tx : DecodeError
  hash_mismatch : DecodeError

abbrev pub guard : Bool → DecodeError → Result DecodeError (Unit {0})
guard true e = ok tt
guard false e = err e

-- `io.ReadFull` into a buffer of `n` bytes.
abbrev pub read_full : ℕ → Bytes → Result DecodeError Bytes
read_full n r = if ltb (length r) n then err short_data else ok (take n r)

-- A size that must be positive.
abbrev pub positive_size : ℤ → Result DecodeError ℕ
positive_size (pos zero) = err size_not_positive
positive_size (pos (suc n)) = ok (suc n)
positive_size (negsuc n) = err size_not_positive

abbrev pub same_count : ℤ → ℕ → Bool
same_count (pos n) m = nat_eq n m
same_count (negsuc n) m = false

unfoldable pub decode_uncompressed : BlockDataDecoder → Bytes → Result DecodeError Bytes
decode_uncompressed d r = do
  (z, rest) ← or_fail (read_varint r) no_size
  size ← positive_size z
  guard (nat_eq size d.data_len) size_mismatch
  read_full size rest

module _ (c : Codecs) where
  pub decode_snappy : BlockDataDecoder → Bytes → Result DecodeError Bytes
  decode_snappy d r = do
    (z, rest) ← or_fail (read_varint r) no_size
    size ← positive_size z
    guard (not (above size (c.snappy_max_encoded_len d.data_len))) size_too_large
    compressed ← read_full size rest
    decoded_len ← or_fail (c.snappy_decoded_len compressed) bad_snappy_length
    guard (nat_eq decoded_len d.data_len) snappy_length_mismatch
    u ← or_fail (c.snappy_decode compressed) bad_snappy
    guard (nat_eq (length u) d.data_len) snappy_length_mismatch
    ok u

  -- The header byte says how the rest is read.
  abbrev pub decode_body : BlockDataDecoder → ℕ → Bytes → Result DecodeError Bytes
  decode_body d header r =
      if nat_eq header uncompressed_header
      then decode_uncompressed d r
      else if nat_eq header snappy_header
      then decode_snappy d r
      else err bad_header

module _ {Tx : Type 0} (api : TxApi Tx) where
  unfoldable pub decode_txs : List Bytes → Result DecodeError (List Tx)
  decode_txs [] = ok []
  decode_txs (item ∷ items) = do
    tx ← or_fail (api.decode item) bad_tx
    txs ← decode_txs items
    ok (tx ∷ txs)

module _ (c : Codecs) {Tx : Type 0} (api : TxApi Tx) where
  unfoldable pub decode_raw : BlockDataDecoder → Bytes → Result DecodeError (List Tx)
  decode_raw d encoded = do
    items ← or_fail (c.json_unmarshal encoded) bad_json
    guard (same_count d.n_txs (length items)) wrong_count
    txs ← decode_txs api items
    guard (bytes_beq (txs_hash api txs) d.hash) hash_mismatch
    ok txs

  unfoldable pub decode : BlockDataDecoder → Bytes → Result DecodeError (List Tx)
  decode d [] = err no_header
  decode d (header ∷ r) = do encoded ← decode_body c d header r; decode_raw d encoded
