-- ===== src/Tests/Fixtures.antt =====
-- Transactions that are their own bytes, and a hash of 32 zeros.
use gcosmos.Base.{
  ℕ, zero, suc, refl, arith, List, [], ◌∷◌, some, Bytes, codes, All, IsByte, Option, none, false,
}
use gcosmos.Tx.{TxApi, IsHash, IsCodec}
use gcosmos.Consensus.Consider.{Annotations, AppManager}

abbrev pub zeros : ℕ → Bytes
zeros zero = []
zeros (suc n) = 0 ∷ zeros n

zeros-All : (n : ℕ) → All IsByte (zeros n)
zeros-All zero = tt
zeros-All (suc n) = (omega arith, zeros-All n)

abbrev pub api : TxApi Bytes
api = record { hash = λ tx. tx; bytes = λ tx. tx; decode = λ b. some b; blake2b = λ s. zeros 32 }

pub api-IsHash : IsHash api
api-IsHash = record { sum_length = λ s. refl; sum_bytes = λ s. zeros-All 32 }

pub api-IsCodec : IsCodec api
api-IsCodec = record { decode_bytes = λ tx. refl }

abbrev pub two_txs : List Bytes
two_txs = codes "ab" ∷ codes "c" ∷ []

abbrev pub two_id : Bytes
two_id = codes "5:1:2:7:0000000000000000000000000000000000000000000000000000000000000000"

-- An annotation is its own text, and its first byte the time.
abbrev first_byte : Bytes → Option ℕ
first_byte [] = none
first_byte (c ∷ s) = some c

abbrev pub ann : Annotations
ann = record { unmarshal_block_annotation = λ a. some a; parse_time = first_byte }

-- Every transaction runs, and the state counts them.
abbrev pub am : AppManager Bytes ℕ
am = record { simulate = λ tx. some (false, 1); simulate_with_state = λ s tx. some (false, suc s) }
