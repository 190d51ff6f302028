-- ===== src/Tx.antt =====
-- Transactions and hashing as the code under gserver/ meets them: `transaction.Tx`, the
-- transaction codec and BLAKE2b are other modules' code, so they are operations of an interface.
use gcosmos.Base.{◌≡◌, Option, some, Bytes, IsByte, All, length}

-- `Tx.Hash`, `Tx.Bytes`, `Codec.Decode` and the 32-byte BLAKE2b of all that was written.
pub record TxApi (Tx : Type 0) : Type 0 where
  pub hash : Tx → Bytes
  pub bytes : Tx → Bytes
  pub decode : Bytes → Option Tx
  pub blake2b : Bytes → Bytes

-- A BLAKE2b sum of size 32 has 32 bytes.
pub record IsHash {Tx : Type 0} (api : TxApi Tx) : Type 0 where
  pub sum_length : (s : Bytes) → length (api.blake2b s) ≡ 32
  pub sum_bytes : (s : Bytes) → All IsByte (api.blake2b s)

-- The codec reads back what `Bytes` wrote.
pub record IsCodec {Tx : Type 0} (api : TxApi Tx) : Type 0 where
  pub decode_bytes : (tx : Tx) → api.decode (api.bytes tx) ≡ some tx
