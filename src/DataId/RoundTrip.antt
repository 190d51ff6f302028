-- ===== src/DataId/RoundTrip.antt =====
-- `ParseDataID` reads back what `DataID` wrote, and what it accepts is in range.
use gcosmos.Base.{ℕ, ◌<◌, ◌^◌, ◌≡◌, List, [], ◌∷◌, ◌++◌, arith, Bytes, length, take, ok}
use gcosmos.Strconv.Integer.{pos, format_uint}
use gcosmos.Strconv.Integer.RoundTrip.{
  Lacks, format_uint-Lacks, parse_uint-format_uint, parse_int-format_uint,
}
use gcosmos.Strconv.Text.{split_n, hex_encode}
use gcosmos.Strconv.Text.Laws.{
  cut_suffix-append, split_n-append, split_n-Lacks, hex_encode-Lacks, hex_decode-hex_encode,
  length-hex_encode,
}
use gcosmos.Tx.{TxApi, IsHash}
use gcosmos.DataId.{
  zero_hash, zero_hash_suffix, colon, txs_hash, data_id, parse_zero, parse_parts, parse_data_id,
}
use gcosmos.DataId.Zero.{data_id_of_none, cut_suffix-data_id, ok_injective}

split_two : (h r : Bytes) → Lacks b':' h → Lacks b':' r → split_n b':' 3 (h ++ colon r) ≡ h ∷ r ∷ []
split_two h r hh hr = rw (split_n-append b':' 1 h r hh, split_n-Lacks b':' 1 r hr)

split_five :
    (h r n l x : Bytes)
    → Lacks b':' h
    → Lacks b':' r
    → Lacks b':' n
    → Lacks b':' l
    → Lacks b':' x
    → split_n b':' 6 (h ++ colon (r ++ colon (n ++ colon (l ++ colon x)))) ≡ h ∷ r ∷ n ∷ l ∷ x ∷ []
split_five h r n l x hh hr hn hl hx = rw (
  split_n-append b':' 4 h _ hh,
  split_n-append b':' 3 r _ hr,
  split_n-append b':' 2 n _ hn,
  split_n-append b':' 1 l _ hl,
  split_n-Lacks b':' 1 x hx,
)

abbrev IsU64 : ℕ → Type 0
IsU64 n = n < 2 ^ 64

abbrev IsU32 : ℕ → Type 0
IsU32 n = n < 2 ^ 32

module _ {Tx : Type 0} (api : TxApi Tx) where
  -- The ID for no transactions is parsed to its height and round, no transactions and no data.
  pub parse_data_id-data_id_none :
      (height round data_len : ℕ) (id : Bytes)
      → height < 2 ^ 64
      → round < 2 ^ 32
      → data_id api height round data_len [] ≡ ok id
      → parse_data_id id
        ≡ ok (record {
          height = height;
          round = round;
          n_txs = pos 0;
          data_len = 0;
          txs_hash = take 32 zero_hash;
        })
  unfolding parse_data_id parse_zero
  parse_data_id-data_id_none height round data_len id hh hr e = rw (
    data_id_of_none api height round data_len id e,
    cut_suffix-append (format_uint 10 height ++ colon (format_uint 10 round)) zero_hash_suffix,
    split_two _ _ (format_uint-Lacks 10 height) (format_uint-Lacks 10 round),
    parse_uint-format_uint 10 64 height (omega arith) (omega arith) hh,
    parse_uint-format_uint 10 32 round (omega arith) (omega arith) hr,
  )

  -- The ID of at least one transaction is parsed to all that it was made from. The height, the
  -- round and the data length fit their Go types, there are fewer than 2^31 transactions, and the
  -- hash has 32 bytes.
  pub parse_data_id-data_id :
      (height round data_len : ℕ) (tx : Tx) (txs : List Tx) (id : Bytes)
      → IsHash api
      → height < 2 ^ 64
      → round < 2 ^ 32
      → data_len < 2 ^ 32
      → length (tx ∷ txs) < 2 ^ 31
      → data_id api height round data_len (tx ∷ txs) ≡ ok id
      → parse_data_id id
        ≡ ok (record {
          height = height;
          round = round;
          n_txs = pos (length (tx ∷ txs));
          data_len = data_len;
          txs_hash = txs_hash api (tx ∷ txs);
        })
  unfolding parse_data_id parse_parts data_id txs_hash
  parse_data_id-data_id height round data_len tx txs id hash hh hr hl hn e =
      let x : Bytes = hex_encode (txs_hash api (tx ∷ txs)) in
      let n : ℕ = length (tx ∷ txs) in
      rw (
        cut_suffix-data_id api height round data_len tx txs id hn e,
        ← (ok_injective e),
        split_five _ _ _ _ x (format_uint-Lacks 10 height) (format_uint-Lacks 10 round)
            (format_uint-Lacks 10 n) (format_uint-Lacks 16 data_len) (hex_encode-Lacks _),
        parse_uint-format_uint 10 64 height (omega arith) (omega arith) hh,
        parse_uint-format_uint 10 32 round (omega arith) (omega arith) hr,
        parse_int-format_uint n hn,
        parse_uint-format_uint 16 32 data_len (omega arith) (omega arith) hl,
        length-hex_encode,
        hash.sum_length _,
        hex_decode-hex_encode _ (hash.sum_bytes _),
      )
