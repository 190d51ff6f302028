-- ===== src/Tests/Blocks.antt =====
-- Data IDs and block data.
use gcosmos.Base.{◌≡◌, ◌↔◌, refl, ok, some, arith, [], ◌∷◌, ◌++◌, Bytes, codes, take, true}
use gcosmos.Tests.Fixtures.{api, api-IsHash, api-IsCodec, two_txs, two_id, zeros}
use gcosmos.Tests.Codec.{codec, codec-IsLawful}
use gcosmos.BlockData.Varint.{append_varint, append_uvarint, read_varint}
use gcosmos.BlockData.Varint.RoundTrip.{read_varint-append_varint}
use gcosmos.BlockData.Encoder.{encode_block_data, compress_encoded_block_data}
use gcosmos.BlockData.Decoder.{BlockDataDecoder, new_block_data_decoder, decode}
use gcosmos.BlockData.Decoder.RoundTrip.{decode-encode_block_data}
use gcosmos.BlockData.Decoder.Sound.{decode_sound}
use gcosmos.DataId.{
  data_id, DataId, parse_data_id, is_zero_tx_data_id, txs_hash, zero_hash, zero_hash_suffix,
}
use gcosmos.DataId.RoundTrip.{parse_data_id-data_id, parse_data_id-data_id_none}
use gcosmos.DataId.Zero.{is_zero_tx_data_id-data_id}
use gcosmos.DataId.Accepted.{IsInRange, parse_data_id-IsInRange}
use gcosmos.Provider.{ProvideResult, Host, provide, retrieve}
use gcosmos.Provider.RoundTrip.{retrieve-provide}
use gcosmos.Strconv.Integer.{pos, negsuc, format_uint, emit}
use gcosmos.Strconv.Text.{hex_encode}
use gcosmos.Tx.{TxApi}

abbrev two : DataId
two = record { height = 5; round = 1; n_txs = pos 2; data_len = 7; txs_hash = zeros 32 }

two_made : data_id api 5 1 7 two_txs ≡ ok two_id
unfolding data_id format_uint emit hex_encode txs_hash
two_made = refl

parse_data_id-data_id_example : parse_data_id two_id ≡ ok two
unfolding txs_hash
parse_data_id-data_id_example =
    parse_data_id-data_id api 5 1 7 (codes "ab") (codes "c" ∷ []) two_id api-IsHash (omega arith)
      (omega arith) (omega arith) (omega arith) two_made

abbrev pub two_written : Bytes
two_written = 0 ∷ 14 ∷ b'[' ∷ b']' ∷ 98 ∷ 99 ∷ 0 ∷ 100 ∷ 0 ∷ []

two_encoded : encode_block_data codec api two_txs ≡ ok (two_written, 7)
unfolding encode_block_data compress_encoded_block_data append_varint append_uvarint
two_encoded = refl

abbrev pub two_decoder : BlockDataDecoder
two_decoder = record { n_txs = pos 2; data_len = 7; hash = zeros 32 }

decode-encode_block_data_example :
    (d : BlockDataDecoder) × (new_block_data_decoder two_id ≡ ok d)
    × (decode codec api d two_written ≡ ok two_txs)
decode-encode_block_data_example =
    decode-encode_block_data codec codec-IsLawful api api-IsHash api-IsCodec 5 1 7 8 (codes "ab")
      (codes "c" ∷ []) two_written two_id (omega arith) (omega arith) (omega arith) (omega arith)
      refl two_encoded two_made

two_parsed : parse_data_id two_id ≡ ok two
unfolding txs_hash
two_parsed =
    parse_data_id-data_id api 5 1 7 (codes "ab") (codes "c" ∷ []) two_id api-IsHash (omega arith)
      (omega arith) (omega arith) (omega arith) two_made

pub two_decoder_made : new_block_data_decoder two_id ≡ ok two_decoder
unfolding new_block_data_decoder
two_decoder_made = rw two_parsed refl

pub two_decodes : decode codec api two_decoder two_written ≡ ok two_txs
unfolding decode gcosmos.BlockData.Decoder.decode_uncompressed gcosmos.BlockData.Decoder.decode_raw
    gcosmos.BlockData.Decoder.decode_txs read_varint gcosmos.BlockData.Varint.read_uvarint txs_hash
two_decodes = refl

decode_sound_example : (two.n_txs ≡ pos 2) × (two.txs_hash ≡ txs_hash api two_txs)
decode_sound_example =
    decode_sound codec api two_id two_written two two_decoder two_txs two_parsed two_decoder_made
      two_decodes

abbrev quiet_host : Host
quiet_host = record { handlers = []; marshalled_info = some (codes "here") }

retrieve-provide_example :
    (r : ProvideResult) × ((provide codec api quiet_host 5 1 two_txs).0 ≡ ok r)
    × (retrieve codec api (some (provide codec api quiet_host 5 1 two_txs).1) r.data_id
        ≡ ok two_txs)
retrieve-provide_example =
    retrieve-provide codec codec-IsLawful api api-IsHash api-IsCodec quiet_host 5 1 8 (codes "ab")
      (codes "c" ∷ []) (codes "here") (omega arith) (omega arith) (omega arith) (omega arith) refl
      refl

is_zero_tx_data_id-data_id_example : (is_zero_tx_data_id two_id ≡ true) ↔ (two_txs ≡ [])
is_zero_tx_data_id-data_id_example =
    is_zero_tx_data_id-data_id api 5 1 7 two_txs two_id (omega arith) two_made

parse_data_id-IsInRange_example : IsInRange two
parse_data_id-IsInRange_example = parse_data_id-IsInRange two_id two two_parsed

read_varint-append_varint_example :
    read_varint (append_varint [] (negsuc 300) ++ 7 ∷ []) ≡ some (negsuc 300, 7 ∷ [])
read_varint-append_varint_example = read_varint-append_varint (negsuc 300) (7 ∷ []) (omega arith)

-- The BLAKE2b of no input.
abbrev zero_sum : Bytes
zero_sum =
    14 ∷ 87 ∷ 81 ∷ 192 ∷ 38 ∷ 229 ∷ 67 ∷ 178 ∷ 232 ∷ 171 ∷ 46 ∷ 176 ∷ 96 ∷ 153 ∷ 218 ∷ 161 ∷ 209
    ∷ 229 ∷ 223 ∷ 71 ∷ 119 ∷ 143 ∷ 119 ∷ 135 ∷ 250 ∷ 171 ∷ 69 ∷ 205 ∷ 241 ∷ 47 ∷ 227 ∷ 168 ∷ []

abbrev zero_api : TxApi Bytes
zero_api = record {
  hash = λ tx. tx;
  bytes = λ tx. tx;
  decode = λ b. some b;
  blake2b = λ s. zero_sum;
}

abbrev no_txs_id : Bytes
no_txs_id = codes "5:1" ++ zero_hash_suffix

zero_constant : hex_encode (txs_hash zero_api []) ≡ zero_hash
unfolding hex_encode txs_hash
zero_constant = refl

no_txs_made : data_id zero_api 5 1 0 [] ≡ ok no_txs_id
unfolding data_id format_uint emit
no_txs_made = refl

abbrev no_txs : DataId
no_txs = record { height = 5; round = 1; n_txs = pos 0; data_len = 0; txs_hash = take 32 zero_hash }

no_txs_parsed : parse_data_id no_txs_id ≡ ok no_txs
no_txs_parsed =
    parse_data_id-data_id_none zero_api 5 1 0 no_txs_id (omega arith) (omega arith) no_txs_made
