-- ===== src/Catchup/DataHost.antt =====
-- gserver/internal/gp2papi/datahost.go: a node serves its committed headers and its block data, each
-- height on a stream protocol that is named after it.
use gcosmos.Base.{
  ℕ, Bool, true, false, ◌&&◌, [], ◌∷◌, Option, none, some, Bytes, codes, leb, bytes_beq,
  if◌then◌else◌, Result, ok, err, panic,
}
use gcosmos.Strconv.Integer.{parse_uint}
use gcosmos.Strconv.Text.{cut_prefix}
use gcosmos.BlockStore.{BlockDataStore, StoreError, load_block_data_by_height}
use gcosmos.DataId.{is_zero_tx_data_id}

abbrev header_v1_height_prefix : Bytes
header_v1_height_prefix = codes "/gcosmos/committed_headers/v1/height/"

abbrev pub full_block_v1_height_prefix : Bytes
full_block_v1_height_prefix = codes "/gcosmos/full_blocks/v1/height/"

-- `Err` is empty when there is a result.
pub record JsonResult : Type 0 where
  pub result : Bytes
  pub error : Bytes

pub record FullBlockResult : Type 0 where
  pub header : Bytes
  pub block_data : Bytes

-- Gordian's header store, its codec and `encoding/json`, over its committed headers `H`. A load answers
-- with the header or says whether the error was a `HeightUnknownError`.
pub record Headers (H : Type 0) : Type 0 where
  pub load : ℕ → Result Bool H
  pub data_id : H → Bytes
  pub marshal : H → Option Bytes
  pub unmarshal : Bytes → Option H
  pub encode_result : JsonResult → Bytes
  pub decode_result : Bytes → Option JsonResult
  pub marshal_block : FullBlockResult → Option Bytes
  pub unmarshal_block : Bytes → Option FullBlockResult

abbrev all_digits : Bytes → Bool
all_digits [] = true
all_digits (c ∷ s) = leb b'0' c && leb c b'9' && all_digits s

abbrev matches_rest : Option Bytes → Bool
matches_rest none = false
matches_rest (some []) = false
matches_rest (some (c ∷ s)) = all_digits (c ∷ s)

-- Whether the handler of the prefix takes the protocol.
unfoldable matches : Bytes → Bytes → Bool
matches prefix protocol = matches_rest (cut_prefix protocol prefix)

module _ {H : Type 0} (hs : Headers H) where
  abbrev pub failed : Bytes → Bytes
  failed msg = hs.encode_result (record { result = []; error = msg })

  abbrev load_error : Bool → Bytes
  load_error true = codes "height unknown"
  load_error false = codes "failed to load header at height"

  -- What both handlers do up to the header; `respond` is the rest, with the header and its encoding.
  abbrev with_encoded :
      (H → Bytes → Result (Unit {0}) Bytes) → H → Option Bytes → Result (Unit {0}) Bytes
  with_encoded respond h none = ok (failed (codes "internal serialization error"))
  with_encoded respond h (some b) = respond h b

  abbrev pub with_header :
      (H → Bytes → Result (Unit {0}) Bytes) → Result Bool H → Result (Unit {0}) Bytes
  with_header respond (ok h) = with_encoded respond h (hs.marshal h)
  with_header respond (err unknown) = ok (failed (load_error unknown))
  with_header respond panic = panic

  abbrev with_height :
      (ℕ → H → Bytes → Result (Unit {0}) Bytes) → Option ℕ → Result (Unit {0}) Bytes
  with_height respond none = ok (failed (codes "invalid height"))
  with_height respond (some height) = with_header (respond height) (hs.load height)

  abbrev with_height_text :
      (ℕ → H → Bytes → Result (Unit {0}) Bytes) → Option Bytes → Result (Unit {0}) Bytes
  with_height_text respond none = ok (failed (codes "invalid protocol"))
  with_height_text respond (some height_s) = with_height respond (parse_uint 10 64 height_s)

  unfoldable handle_committed_header_stream : Bytes → Result (Unit {0}) Bytes
  handle_committed_header_stream protocol =
      with_height_text (λ height h b. ok (hs.encode_result (record { result = b; error = [] })))
        (cut_prefix protocol header_v1_height_prefix)

  abbrev pub block_marshalled : Option Bytes → Bytes
  block_marshalled none = failed (codes "internal serialization error")
  block_marshalled (some j) = hs.encode_result (record { result = j; error = [] })

  abbrev block_loaded : H → Bytes → Result StoreError (Bytes × Bytes) → Result (Unit {0}) Bytes
  block_loaded h b (err e) = ok (failed (codes "failed to load block data at height"))
  block_loaded h b panic = panic
  block_loaded h b (ok (id, bd)) =
      if bytes_beq id (hs.data_id h)
      then ok (block_marshalled (hs.marshal_block (record { header = b; block_data = bd })))
      else panic

  -- A store that holds other data than the header names is corrupt: a panic.
  abbrev full_block : BlockDataStore → ℕ → H → Bytes → Result (Unit {0}) Bytes
  full_block bds height h b =
      if is_zero_tx_data_id (hs.data_id h)
      then ok (block_marshalled (hs.marshal_block (record { header = b; block_data = [] })))
      else block_loaded h b (load_block_data_by_height bds height [])

  unfoldable pub handle_full_block_stream : BlockDataStore → Bytes → Result (Unit {0}) Bytes
  handle_full_block_stream bds protocol =
      with_height_text (full_block bds) (cut_prefix protocol full_block_v1_height_prefix)
