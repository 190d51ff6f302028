-- ===== src/DataId/Zero.antt =====
-- Which IDs end in the suffix for no transactions.
use gcosmos.Base.{
  ℕ, ◌<◌, ◌^◌, ◌≡◌, ◌≢◌, ◌↔◌, refl, true, none, some, List, [], ◌∷◌, ◌++◌, arith, Bytes, length,
  append_assoc, Result, ok, Option-cases, inl, inr,
}
use gcosmos.Strconv.Integer.{format_uint, parse_uint}
use gcosmos.Strconv.Integer.RoundTrip.{Lacks, format_uint-Lacks, parse_uint-format_uint}
use gcosmos.Strconv.Text.{cut_suffix, has_suffix}
use gcosmos.Strconv.Text.Laws.{cut_suffix-append, cut_suffix-eq-some, hex_encode-Lacks}
use gcosmos.Tx.{TxApi}
use gcosmos.DataId.{zero_hash, zero_hash_suffix, colon, data_id, is_zero_tx_data_id}

Lacks-append-colon : (b y : Bytes) → ¬ Lacks b':' (b ++ colon y)
Lacks-append-colon [] y h = h.0 refl
Lacks-append-colon (c ∷ b) y h = Lacks-append-colon b y h.1

-- A text splits at its last colon in one way.
last_colon_unique :
    (a b x y : Bytes)
    → Lacks b':' x
    → Lacks b':' y
    → a ++ colon x ≡ b ++ colon y
    → (a ≡ b) × (x ≡ y)
last_colon_unique [] [] x y hx hy e = ground arith
last_colon_unique [] (c ∷ b) x y hx hy e =
    let tail : x ≡ b ++ colon y = cc in absurd (Lacks-append-colon b y (rw tail at hx))
last_colon_unique (c ∷ a) [] x y hx hy e =
    let tail : y ≡ a ++ colon x = cc in absurd (Lacks-append-colon a x (rw tail at hy))
last_colon_unique (c ∷ a) (d ∷ b) x y hx hy e = ground (arith, last_colon_unique a b x y hx hy)

zero_hash-Lacks : Lacks b':' zero_hash
zero_hash-Lacks = omega arith

-- The number of transactions is not printed as 0.
format_uint-ne-zero : (n : ℕ) → 0 < n → n < 2 ^ 31 → format_uint 10 n ≢ b'0' ∷ []
unfolding parse_uint
format_uint-ne-zero n pos fits e =
    let printed : parse_uint 10 31 (format_uint 10 n) ≡ some n =
      parse_uint-format_uint 10 31 n (omega arith) (omega arith) fits in
    let read : parse_uint 10 31 (b'0' ∷ []) ≡ some n = rw e at printed in ground arith

third_is_zero :
    (h r n l x p : Bytes)
    → Lacks b':' n
    → Lacks b':' l
    → Lacks b':' x
    → h ++ colon (r ++ colon (n ++ colon (l ++ colon x))) ≡ p ++ zero_hash_suffix
    → n ≡ b'0' ∷ []
third_is_zero h r n l x p hn hl hx e =
    let front : Bytes = h ++ colon r in
    let zeros : Bytes = b'0' ∷ [] in
    let e₁ : ((front ++ colon n) ++ colon l) ++ colon x
        ≡ ((p ++ colon zeros) ++ colon zeros) ++ colon zero_hash =
      simp append_assoc e in
    let e₂ : (front ++ colon n) ++ colon l ≡ (p ++ colon zeros) ++ colon zeros =
      (last_colon_unique _ _ x zero_hash hx zero_hash-Lacks e₁).0 in
    let e₃ : front ++ colon n ≡ p ++ colon zeros =
      (last_colon_unique _ _ l zeros hl (omega arith) e₂).0 in
    (last_colon_unique front p n zeros hn (omega arith) e₃).1

pub ok_injective : {a b : Bytes} → ◌≡◌ {A = Result (Unit {0}) Bytes} (ok a) (ok b) → a ≡ b
ok_injective e = cc

-- Five parts do not end in the suffix, unless the third is a 0.
five_parts_no_suffix :
    (h r n l x : Bytes)
    → Lacks b':' n
    → Lacks b':' l
    → Lacks b':' x
    → n ≢ b'0' ∷ []
    → cut_suffix (h ++ colon (r ++ colon (n ++ colon (l ++ colon x)))) zero_hash_suffix ≡ none
five_parts_no_suffix h r n l x hn hl hx third =
    elim (Option-cases
      (cut_suffix (h ++ colon (r ++ colon (n ++ colon (l ++ colon x)))) zero_hash_suffix)) [
        | inl e ↦ e
        | inr (p, e) ↦
            absurd (
              third
                (third_is_zero h r n l x p hn hl hx (cut_suffix-eq-some _ zero_hash_suffix p e)))
      ]

module _ {Tx : Type 0} (api : TxApi Tx) where
  pub data_id_of_none :
      (height round data_len : ℕ) (id : Bytes)
      → data_id api height round data_len [] ≡ ok id
      → id ≡ (format_uint 10 height ++ colon (format_uint 10 round)) ++ zero_hash_suffix
  unfolding data_id
  data_id_of_none height round data_len id e =
      ground (
        arith,
        append_assoc (format_uint 10 height) (colon (format_uint 10 round)) zero_hash_suffix,
      )

  -- An ID made for transactions has no zero suffix; one made for none has it.
  pub cut_suffix-data_id :
      (height round data_len : ℕ) (tx : Tx) (txs : List Tx) (id : Bytes)
      → length (tx ∷ txs) < 2 ^ 31
      → data_id api height round data_len (tx ∷ txs) ≡ ok id
      → cut_suffix id zero_hash_suffix ≡ none
  unfolding data_id
  cut_suffix-data_id height round data_len tx txs id fits e = rw (← (ok_injective e)) (
      five_parts_no_suffix _ _ _ _ _ (format_uint-Lacks 10 (length (tx ∷ txs)))
        (format_uint-Lacks 16 data_len) (hex_encode-Lacks _)
        (format_uint-ne-zero (length (tx ∷ txs)) (omega arith) fits))

  -- `IsZeroTxDataID` tells apart the IDs that `DataID` makes: it holds of those made for no
  -- transactions and of no other, as long as there are fewer than 2^31 transactions.
  pub is_zero_tx_data_id-data_id :
      (height round data_len : ℕ) (txs : List Tx) (id : Bytes)
      → length txs < 2 ^ 31
      → data_id api height round data_len txs ≡ ok id
      → (is_zero_tx_data_id id ≡ true) ↔ (txs ≡ [])
  unfolding is_zero_tx_data_id has_suffix data_id
  is_zero_tx_data_id-data_id height round data_len [] id fits e = (
    λ _. refl,
    λ _. rw (
      data_id_of_none height round data_len id e,
      cut_suffix-append (format_uint 10 height ++ colon (format_uint 10 round)) zero_hash_suffix,
    ),
  )
  is_zero_tx_data_id-data_id height round data_len (tx ∷ txs) id fits e =
      ground (arith, cut_suffix-data_id height round data_len tx txs id fits e)
