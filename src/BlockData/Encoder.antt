-- ===== src/BlockData/Encoder.antt =====
-- gserver/internal/gsbd/encoder.go, into a buffer that takes every write, as in `Provide`.
use gcosmos.Base.{ℕ, List, [], ◌∷◌, ◌++◌, Bytes, length, map, ltb, if◌then◌else◌, Result, ok, panic}
use gcosmos.Strconv.Integer.{pos}
use gcosmos.BlockData.Varint.{append_varint}
use gcosmos.BlockData.Codecs.{Codecs}
use gcosmos.Tx.{TxApi}

abbrev pub uncompressed_header : ℕ
uncompressed_header = 0

abbrev pub snappy_header : ℕ
snappy_header = 1

-- The header byte, the size as a varint and the data.
abbrev frame : ℕ → Bytes → Bytes
frame header payload = header ∷ (append_varint [] (pos (length payload)) ++ payload)

module _ (c : Codecs) where
  -- What is written, and the size of the JSON text.
  unfoldable pub compress_encoded_block_data : Bytes → Bytes × ℕ
  compress_encoded_block_data j =
      let s = c.snappy_encode j in
      if ltb (length s) (length j)
      then (frame snappy_header s, length j)
      else (frame uncompressed_header j, length j)

  unfoldable pub encode_block_data :
      {Tx : Type 0} → TxApi Tx → List Tx → Result (Unit {0}) (Bytes × ℕ)
  encode_block_data api [] = panic
  encode_block_data api (tx ∷ txs) =
      ok (compress_encoded_block_data (c.json_marshal (map api.bytes (tx ∷ txs))))
