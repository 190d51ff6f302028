-- ===== src/BlockData/Varint/RoundTrip.antt =====
-- A size is read back from what was appended for it.
use native.Mathlib.Nat.{div-add-mod}
use gcosmos.Base.{ℕ, zero, suc, ◌+◌, ◌*◌, ◌/◌, ◌%◌, ◌^◌, ◌<◌, ◌≡◌, ap, some, [], ◌++◌, arith, Bytes}
use gcosmos.Strconv.Integer.{ℤ, pos, negsuc}
use gcosmos.BlockData.Varint.{append_uvarint, append_varint, read_uvarint, read_varint}

-- The lowest group and the rest, both scaled.
split_group : (w scale : ℕ) → w % 128 * scale + w / 128 * (scale * 128) ≡ w * scale
split_group w scale = omega (arith, ap (λ (t : ℕ). t * scale) (div-add-mod w 128))

read_uvarint-append :
    (k w x scale : ℕ) (rest : Bytes)
    → w < 2 * 128 ^ k
    → read_uvarint k x scale (append_uvarint k w ++ rest) ≡ some (x + w * scale, rest)
unfolding read_uvarint append_uvarint
read_uvarint-append zero w x scale rest h = ground arith
read_uvarint-append (suc k) w x scale rest h = ground (
  arith,
  split_group w scale,
  read_uvarint-append k (w / 128) (x + w % 128 * scale) (scale * 128) rest (omega arith),
)

-- An int64 as `binary` reads and writes it.
abbrev IsI64 : ℤ → Type 0
IsI64 (pos n) = n < 2 ^ 63
IsI64 (negsuc n) = n < 2 ^ 63

-- `ReadVarint` returns the number that `AppendVarint` wrote, and leaves what follows it.
pub read_varint-append_varint :
    (z : ℤ) (rest : Bytes) → IsI64 z → read_varint (append_varint [] z ++ rest) ≡ some (z, rest)
unfolding read_varint append_varint
read_varint-append_varint (pos n) rest h =
    rw (read_uvarint-append 9 (2 * n) 0 1 rest (omega arith)) (ground arith)
read_varint-append_varint (negsuc n) rest h =
    rw (read_uvarint-append 9 (2 * n + 1) 0 1 rest (omega arith)) (ground arith)
