-- ===== src/DataId/Accepted.antt =====
-- What holds of every ID that `ParseDataID` accepts, and of the hash that it returns for no
-- transactions.
use gcosmos.Base.{
  ℕ, ◌<◌, ◌^◌, ◌≡◌, ◌≢◌, List, [], ◌∷◌, arith, Bytes, length, take, ok, >>=-eq-ok, or_fail,
  or_fail-eq-ok, Option-cases, inl, inr,
}
use gcosmos.Strconv.Integer.{parse_int, parse_uint}
use gcosmos.Strconv.Integer.RoundTrip.{parse_uint-lt, parse_int-IsI32, IsI32}
use gcosmos.Strconv.Text.{cut_suffix, hex_encode, hex_decode}
use gcosmos.Strconv.Text.Laws.{length-hex_decode}
use gcosmos.Tx.{TxApi}
use gcosmos.DataId.{
  DataId, zero_hash, zero_hash_suffix, txs_hash, data_id, check_length, parse_zero, parse_parts,
  parse_data_id,
}
use gcosmos.DataId.RoundTrip.{parse_data_id-data_id_none}

-- The parts fit the Go types that hold them, and the hash has its 32 bytes.
pub record IsInRange (d : DataId) : Type 0 where
  pub height_fits : d.height < 2 ^ 64
  pub round_fits : d.round < 2 ^ 32
  pub n_txs_fits : IsI32 d.n_txs
  pub data_len_fits : d.data_len < 2 ^ 32
  pub hash_fits : length d.txs_hash ≡ 32

parse_zero-IsInRange : (parts : List Bytes) (d : DataId) → parse_zero parts ≡ ok d → IsInRange d
unfolding parse_zero
parse_zero-IsInRange (h ∷ r ∷ []) d e =
    let (height, e₁, k₁) = >>=-eq-ok (or_fail (parse_uint 10 64 h) _) _ e in
    let (round, e₂, k₂) = >>=-eq-ok (or_fail (parse_uint 10 32 r) _) _ k₁ in
    ground (
      arith,
      parse_uint-lt 10 64 h height (or_fail-eq-ok _ _ e₁),
      parse_uint-lt 10 32 r round (or_fail-eq-ok _ _ e₂),
    )
parse_zero-IsInRange [] d e = cc
parse_zero-IsInRange (h ∷ []) d e = cc
parse_zero-IsInRange (h ∷ r ∷ x ∷ rest) d e = cc

check_length_lem : (s : Bytes) → check_length s ≡ ok tt → length s ≡ 64
check_length_lem s e = ground arith

parse_parts-IsInRange : (parts : List Bytes) (d : DataId) → parse_parts parts ≡ ok d → IsInRange d
unfolding parse_parts
parse_parts-IsInRange (h ∷ r ∷ n ∷ l ∷ x ∷ []) d e =
    let (height, e₁, k₁) = >>=-eq-ok (or_fail (parse_uint 10 64 h) _) _ e in
    let (round, e₂, k₂) = >>=-eq-ok (or_fail (parse_uint 10 32 r) _) _ k₁ in
    let (n_txs, e₃, k₃) = >>=-eq-ok (or_fail (parse_int 10 32 n) _) _ k₂ in
    let (data_len, e₄, k₄) = >>=-eq-ok (or_fail (parse_uint 16 32 l) _) _ k₃ in
    let (u, e₅, k₅) = >>=-eq-ok (check_length x) _ k₄ in
    let (hash, e₆, k₆) = >>=-eq-ok (or_fail (hex_decode x) _) _ k₅ in
    ground (
      arith,
      parse_uint-lt 10 64 h height (or_fail-eq-ok _ _ e₁),
      parse_uint-lt 10 32 r round (or_fail-eq-ok _ _ e₂),
      parse_int-IsI32 10 n n_txs (or_fail-eq-ok _ _ e₃),
      parse_uint-lt 16 32 l data_len (or_fail-eq-ok _ _ e₄),
      check_length_lem x e₅,
      length-hex_decode x hash (or_fail-eq-ok _ _ e₆),
    )
parse_parts-IsInRange _ d e = cc

-- Whatever `ParseDataID` accepts has a height, a round, a count, a length and a hash in the range
-- of their Go types.
pub parse_data_id-IsInRange : (id : Bytes) (d : DataId) → parse_data_id id ≡ ok d → IsInRange d
unfolding parse_data_id
parse_data_id-IsInRange id d e = elim (Option-cases (cut_suffix id zero_hash_suffix)) [
  | inl none_left ↦ parse_parts-IsInRange _ d (rw (none_left, parse_data_id) at e)
  | inr (hr, cut) ↦ parse_zero-IsInRange _ d (rw (cut, parse_data_id) at e)
]

-- Two hexadecimal digits of the constant are taken for one byte.
hex_encode-take-zero_hash : hex_encode (take 32 zero_hash) ≢ zero_hash
unfolding hex_encode
hex_encode-take-zero_hash e = ground arith

module _ {Tx : Type 0} (api : TxApi Tx) where
  -- If `zeroHash` is the hash of no transactions in hexadecimal, the hash that `ParseDataID`
  -- returns for an ID of no transactions is not that hash. The height and the round fit their Go
  -- types.
  parse_data_id-zero_hash_differs :
      (height round : ℕ) (id : Bytes) (d : DataId)
      → height < 2 ^ 64
      → round < 2 ^ 32
      → hex_encode (txs_hash api []) ≡ zero_hash
      → data_id api height round 0 [] ≡ ok id
      → parse_data_id id ≡ ok d
      → d.txs_hash ≢ txs_hash api []
  parse_data_id-zero_hash_differs height round id d hh hr constant made parsed same =
      let expected = parse_data_id-data_id_none api height round 0 id hh hr made in
      let read : take 32 zero_hash ≡ txs_hash api [] = cc in
      hex_encode-take-zero_hash (rw (read, constant))
