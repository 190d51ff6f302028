-- ===== src/BlockData/Decoder/Total.antt =====
-- The decoder does not panic, whatever it reads.
use gcosmos.Base.{
  ℕ, zero, suc, Bool, true, false, not, List, [], ◌∷◌, Option, none, some, Bytes, length, ltb,
  nat_eq, bytes_beq, take, if◌then◌else◌, Result, ok, err, panic, ◌>>=◌, or_fail,
}
use gcosmos.Strconv.Integer.{ℤ, pos, negsuc}
use gcosmos.BlockData.Codecs.{Codecs, above}
use gcosmos.BlockData.Encoder.{uncompressed_header, snappy_header}
use gcosmos.BlockData.Varint.{read_varint}
use gcosmos.DataId.{txs_hash}
use gcosmos.Tx.{TxApi}
use gcosmos.BlockData.Decoder.{
  BlockDataDecoder, DecodeError, guard, read_full, positive_size, same_count, decode_uncompressed,
  decode_snappy, decode_body, decode_txs, decode_raw, decode, size_mismatch, size_too_large,
  no_size, bad_snappy_length, snappy_length_mismatch, bad_snappy, bad_json, wrong_count, bad_tx,
  hash_mismatch, short_data,
}

abbrev pub IsSafe : {E A : Type 0} → Result E A → Type 0
IsSafe (ok a) = Unit
IsSafe (err e) = Unit
IsSafe panic = ⊥

>>=-IsSafe :
    {E A B : Type 0} (m : Result E A) (f : A → Result E B)
    → IsSafe m
    → ((a : A) → IsSafe (f a))
    → IsSafe (m >>= f)
>>=-IsSafe (ok a) f h k = k a
>>=-IsSafe (err e) f h k = tt
>>=-IsSafe panic f h k = h

or_fail-IsSafe : {A : Type 0} (o : Option A) (e : DecodeError) → IsSafe (or_fail o e)
or_fail-IsSafe none e = tt
or_fail-IsSafe (some a) e = tt

guard-IsSafe : (b : Bool) (e : DecodeError) → IsSafe (guard b e)
guard-IsSafe true e = tt
guard-IsSafe false e = tt

positive_size-IsSafe : (z : ℤ) → IsSafe (positive_size z)
positive_size-IsSafe (pos zero) = tt
positive_size-IsSafe (pos (suc n)) = tt
positive_size-IsSafe (negsuc n) = tt

if-IsSafe :
    {A : Type 0} (b : Bool) (x y : Result DecodeError A)
    → IsSafe x
    → IsSafe y
    → IsSafe (if b then x else y)
if-IsSafe true x y h k = h
if-IsSafe false x y h k = k

read_full-IsSafe : (n : ℕ) (r : Bytes) → IsSafe (read_full n r)
read_full-IsSafe n r = if-IsSafe (ltb (length r) n) (err short_data) (ok (take n r)) tt tt

decode_uncompressed-IsSafe : (d : BlockDataDecoder) (r : Bytes) → IsSafe (decode_uncompressed d r)
unfolding decode_uncompressed
decode_uncompressed-IsSafe d r =
    >>=-IsSafe (or_fail (read_varint r) no_size) _ (or_fail-IsSafe _ _) (λ (z, rest).
      >>=-IsSafe (positive_size z) _ (positive_size-IsSafe z) (λ size.
        >>=-IsSafe (guard (nat_eq size d.data_len) size_mismatch) _ (guard-IsSafe _ _)
          (λ _. read_full-IsSafe size rest)))

module _ (c : Codecs) where
  decode_snappy-IsSafe : (d : BlockDataDecoder) (r : Bytes) → IsSafe (decode_snappy c d r)
  unfolding decode_snappy
  decode_snappy-IsSafe d r =
      >>=-IsSafe (or_fail (read_varint r) no_size) _ (or_fail-IsSafe _ _) (λ (z, rest).
        >>=-IsSafe (positive_size z) _ (positive_size-IsSafe z) (λ size.
          >>=-IsSafe (guard (not (above size (c.snappy_max_encoded_len d.data_len))) size_too_large)
            _ (guard-IsSafe _ _)
            (λ _. >>=-IsSafe (read_full size rest) _ (read_full-IsSafe size rest) (λ compressed.
              >>=-IsSafe (or_fail (c.snappy_decoded_len compressed) bad_snappy_length) _
                (or_fail-IsSafe _ _)
                (λ n.
                  >>=-IsSafe (guard (nat_eq n d.data_len) snappy_length_mismatch) _
                    (guard-IsSafe _ _)
                    (λ _.
                      >>=-IsSafe (or_fail (c.snappy_decode compressed) bad_snappy) _
                        (or_fail-IsSafe _ _)
                        (λ u.
                          >>=-IsSafe (guard (nat_eq (length u) d.data_len) snappy_length_mismatch) _
                            (guard-IsSafe _ _) (λ _. tt))))))))

module _ (c : Codecs) {Tx : Type 0} (api : TxApi Tx) where
  decode_txs-IsSafe : (items : List Bytes) → IsSafe (decode_txs api items)
  unfolding decode_txs
  decode_txs-IsSafe [] = tt
  decode_txs-IsSafe (item ∷ items) =
      >>=-IsSafe (or_fail (api.decode item) bad_tx) _ (or_fail-IsSafe _ _)
        (λ tx. >>=-IsSafe (decode_txs api items) _ (decode_txs-IsSafe items) (λ txs. tt))

  decode_raw-IsSafe : (d : BlockDataDecoder) (encoded : Bytes) → IsSafe (decode_raw c api d encoded)
  unfolding decode_raw
  decode_raw-IsSafe d encoded =
      >>=-IsSafe (or_fail (c.json_unmarshal encoded) bad_json) _ (or_fail-IsSafe _ _) (λ items.
        >>=-IsSafe (guard (same_count d.n_txs (length items)) wrong_count) _ (guard-IsSafe _ _)
          (λ _. >>=-IsSafe (decode_txs api items) _ (decode_txs-IsSafe items) (λ txs.
            >>=-IsSafe (guard (bytes_beq (txs_hash api txs) d.hash) hash_mismatch) _
              (guard-IsSafe _ _) (λ _. tt))))

  pub decode-IsSafe : (d : BlockDataDecoder) (r : Bytes) → IsSafe (decode c api d r)
  unfolding decode
  decode-IsSafe d [] = tt
  decode-IsSafe d (header ∷ r) =
      >>=-IsSafe (decode_body c d header r) _
        (if-IsSafe (nat_eq header uncompressed_header) _ _ (decode_uncompressed-IsSafe d r)
          (if-IsSafe (nat_eq header snappy_header) _ _ (decode_snappy-IsSafe c d r) tt))
        (λ encoded. decode_raw-IsSafe d encoded)
