-- ===== src/BlockData/Varint.antt =====
-- `binary.AppendVarint` and `binary.ReadVarint`: zigzag numbers in groups of seven bits.
pub mod RoundTrip
use gcosmos.Base.{
  ℕ, zero, suc, ◌+◌, ◌*◌, ◌/◌, ◌%◌, Option, none, some, [], ◌∷◌, ◌++◌, Bytes, ltb, nat_eq,
  if◌then◌else◌, ◌&&◌,
}
use gcosmos.Strconv.Integer.{ℤ, pos, negsuc}

-- A round for each group above the lowest; a uint64 has ten groups at most.
unfoldable pub append_uvarint : ℕ → ℕ → Bytes
append_uvarint zero x = x ∷ []
append_uvarint (suc rounds) x =
    let rest = append_uvarint rounds (x / 128) in
    if ltb x 128 then x ∷ [] else (x % 128 + 128) ∷ rest

-- The zigzag form of an int64.
abbrev zigzag : ℤ → ℕ
zigzag (pos n) = 2 * n
zigzag (negsuc n) = 2 * n + 1

unfoldable pub append_varint : Bytes → ℤ → Bytes
append_varint buf z = buf ++ append_uvarint 9 (zigzag z)

-- `scale` is 2^s for the shift `s`, and `rounds` counts down from the tenth byte, of which only the
-- lowest bit fits. A read of nothing is an error.
unfoldable pub read_uvarint : ℕ → ℕ → ℕ → Bytes → Option (ℕ × Bytes)
read_uvarint rounds x scale [] = none
read_uvarint zero x scale (b ∷ r) = if ltb b 2 then some (x + b * scale, r) else none
read_uvarint (suc rounds) x scale (b ∷ r) =
    let more = read_uvarint rounds (x + b % 128 * scale) (scale * 128) r in
    if ltb b 128 then some (x + b * scale, r) else more

abbrev unzigzag : ℕ → ℤ
unzigzag u = if nat_eq (u % 2) 0 then pos (u / 2) else negsuc (u / 2)

abbrev unzigzag_first : Option (ℕ × Bytes) → Option (ℤ × Bytes)
unzigzag_first none = none
unzigzag_first (some (u, r)) = some (unzigzag u, r)

unfoldable pub read_varint : Bytes → Option (ℤ × Bytes)
read_varint r = unzigzag_first (read_uvarint 9 0 1 r)
