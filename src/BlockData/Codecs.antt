-- ===== src/BlockData/Codecs.antt =====
-- Snappy, which the module imports, and `encoding/json` on a slice of byte slices, as operations
-- of an interface with the facts that are documented of them.
use gcosmos.Base.{ℕ, ◌≤◌, ◌≡◌, Bool, true, Option, some, List, Bytes, length, ltb}
use gcosmos.Strconv.Integer.{ℤ, pos, negsuc}

pub record Codecs : Type 0 where
  pub snappy_encode : Bytes → Bytes
  pub snappy_decode : Bytes → Option Bytes
  pub snappy_decoded_len : Bytes → Option ℕ
  pub snappy_max_encoded_len : ℕ → ℤ
  pub json_marshal : List Bytes → Bytes
  pub json_unmarshal : Bytes → Option (List Bytes)

-- `n > z` for an int `n` that is not negative.
abbrev pub above : ℕ → ℤ → Bool
above n (pos m) = ltb m n
above n (negsuc m) = true

-- A JSON array is not empty text; Snappy's bound holds of blocks it accepts.
pub record IsLawful (c : Codecs) : Type 0 where
  pub decode_encode : (b : Bytes) → c.snappy_decode (c.snappy_encode b) ≡ some b
  pub decoded_len_encode : (b : Bytes) → c.snappy_decoded_len (c.snappy_encode b) ≡ some (length b)
  pub encode_within :
      (b : Bytes) (m : ℕ)
      → c.snappy_max_encoded_len (length b) ≡ pos m
      → length (c.snappy_encode b) ≤ m
  pub encode_some : (b : Bytes) → 1 ≤ length (c.snappy_encode b)
  pub unmarshal_marshal :
      (items : List Bytes) → c.json_unmarshal (c.json_marshal items) ≡ some items
  pub marshal_some : (items : List Bytes) → 2 ≤ length (c.json_marshal items)
