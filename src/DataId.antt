-- ===== src/DataId.antt =====
-- gserver/internal/gsbd/dataid.go and dataid_zero.go: the block data ID.
pub mod RoundTrip
pub mod Zero
pub mod Accepted
use mathlib.Core.List.{flat_map}
use gcosmos.Base.{
  ℕ, zero, suc, ◌+◌, Bool, true, false, List, [], ◌∷◌, ◌++◌, Option, none, some, Bytes, codes,
  length, take, nat_eq, if◌then◌else◌, Result, ok, err, panic, ◌>>=◌, or_fail,
}
use gcosmos.Strconv.Integer.{ℤ, pos, format_uint, parse_uint, parse_int}
use gcosmos.Strconv.Text.{split_n, cut_suffix, has_suffix, hex_encode, hex_decode}
use gcosmos.Tx.{TxApi}

abbrev pub zero_hash : Bytes
zero_hash = codes "0e5751c026e543b2e8ab2eb06099daa1d1e5df47778f7787faab45cdf12fe3a8"

abbrev pub zero_hash_suffix : Bytes
zero_hash_suffix = codes ":0:0:" ++ zero_hash

abbrev txs_hash_size : ℕ
txs_hash_size = 32

abbrev pub colon : Bytes → Bytes
colon s = b':' ∷ s

module _ {Tx : Type 0} (api : TxApi Tx) where
  -- The hasher is fed the transactions' hashes in order.
  unfoldable pub txs_hash : List Tx → Bytes
  unfolding flat_map
  txs_hash txs = api.blake2b (flat_map api.hash txs)

  -- `%d:%d` of height and round, with the suffix; or `%d:%d:%d:%x:%x`. The panic is the code's own.
  unfoldable pub data_id : ℕ → ℕ → ℕ → List Tx → Result (Unit {0}) Bytes
  data_id height round data_len [] =
      if nat_eq data_len 0
      then ok (format_uint 10 height ++ colon (format_uint 10 round ++ zero_hash_suffix))
      else panic
  data_id height round data_len (tx ∷ txs) = ok (
      format_uint 10 height
      ++ colon (
          format_uint 10 round
          ++ colon (
              format_uint 10 (length (tx ∷ txs))
              ++ colon (format_uint 16 data_len ++ colon (hex_encode (txs_hash (tx ∷ txs)))))))

pub record DataId : Type 0 where
  pub height : ℕ
  pub round : ℕ
  pub n_txs : ℤ
  pub data_len : ℕ
  pub txs_hash : Bytes

pub data ParseError : Type 0 where
  invalid_format bad_height bad_round bad_n_txs bad_data_len hash_length bad_hash : ParseError

-- Height and round alone, from the part of an ID before the suffix.
-- The hash is the first 32 bytes of `zeroHash`, as `copy` leaves them.
unfoldable pub parse_zero : List Bytes → Result ParseError DataId
parse_zero (h ∷ r ∷ []) = do
  height ← or_fail (parse_uint 10 64 h) bad_height
  round ← or_fail (parse_uint 10 32 r) bad_round
  ok (record {
    height = height;
    round = round;
    n_txs = pos 0;
    data_len = 0;
    txs_hash = take txs_hash_size zero_hash;
  })
parse_zero parts = err invalid_format

abbrev check_length : Bytes → Result ParseError (Unit {0})
check_length s =
    if nat_eq (length s) (txs_hash_size + txs_hash_size) then ok tt else err hash_length

pub parse_parts : List Bytes → Result ParseError DataId
parse_parts (h ∷ r ∷ n ∷ l ∷ x ∷ []) = do
  height ← or_fail (parse_uint 10 64 h) bad_height
  round ← or_fail (parse_uint 10 32 r) bad_round
  n_txs ← or_fail (parse_int 10 32 n) bad_n_txs
  data_len ← or_fail (parse_uint 16 32 l) bad_data_len
  _ ← check_length x
  hash ← or_fail (hex_decode x) bad_hash
  ok (record {
    height = height;
    round = round;
    n_txs = n_txs;
    data_len = data_len;
    txs_hash = hash;
  })
parse_parts parts = err invalid_format

abbrev parse_cut : Bytes → Option Bytes → Result ParseError DataId
parse_cut id (some hr) = parse_zero (split_n b':' 3 hr)
parse_cut id none = parse_parts (split_n b':' 6 id)

unfoldable pub parse_data_id : Bytes → Result ParseError DataId
parse_data_id id = parse_cut id (cut_suffix id zero_hash_suffix)

unfoldable pub is_zero_tx_data_id : Bytes → Bool
is_zero_tx_data_id id = has_suffix id zero_hash_suffix
