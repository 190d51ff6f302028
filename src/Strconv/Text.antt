-- ===== src/Strconv/Text.antt =====
-- `strings.SplitN`, `CutPrefix`, `CutSuffix` and `encoding/hex`, over byte strings.
pub mod Laws
use gcosmos.Base.{
  ℕ, zero, suc, ◌+◌, ◌*◌, ◌/◌, ◌%◌, Bool, true, false, ◌||◌, Option, none, some, List, [], ◌∷◌,
  Bytes, leb, nat_eq, bytes_beq, if◌then◌else◌,
}
use gcosmos.Strconv.Integer.{digit, digit_value}

-- Puts a byte in front of the first part.
abbrev prepend : ℕ → Option (Bytes × Bytes) → Option (Bytes × Bytes)
prepend c none = none
prepend c (some (a, b)) = some (c ∷ a, b)

-- The text before the first separator and the text behind it.
unfoldable pub cut : ℕ → Bytes → Option (Bytes × Bytes)
cut sep [] = none
cut sep (c ∷ s) = if nat_eq c sep then some ([], s) else prepend c (cut sep s)

-- At most `n` parts, the last of which is not split.
unfoldable pub split_n : ℕ → ℕ → Bytes → List Bytes
split_n sep zero s = []
split_n sep (suc zero) s = s ∷ []
split_n sep (suc (suc n)) s = elim (cut sep s) [
  | none ↦ s ∷ []
  | some (a, b) ↦ a ∷ split_n sep (suc n) b
]

abbrev pub cons_some : ℕ → Option Bytes → Option Bytes
cons_some c none = none
cons_some c (some s) = some (c ∷ s)

unfoldable pub cut_suffix : Bytes → Bytes → Option Bytes
cut_suffix [] suffix = if bytes_beq [] suffix then some [] else none
cut_suffix (c ∷ s) suffix =
    if bytes_beq (c ∷ s) suffix then some [] else cons_some c (cut_suffix s suffix)

pub cut_prefix : Bytes → Bytes → Option Bytes
cut_prefix s [] = some s
cut_prefix [] (p ∷ prefix) = none
cut_prefix (c ∷ s) (p ∷ prefix) = if nat_eq c p then cut_prefix s prefix else none

abbrev is_some {ℓ} : {A : Type ℓ} → Option A → Bool
is_some none = false
is_some (some a) = true

unfoldable pub has_suffix : Bytes → Bytes → Bool
has_suffix s suffix = is_some (cut_suffix s suffix)

-- `%x` of a byte slice, `hex.EncodeToString`.
unfoldable pub hex_encode : Bytes → Bytes
hex_encode [] = []
hex_encode (b ∷ bs) = digit (b / 16) ∷ digit (b % 16) ∷ hex_encode bs

pub hex_decode : Bytes → Option Bytes
hex_decode [] = some []
hex_decode (a ∷ []) = none
hex_decode (a ∷ b ∷ s) =
    if leb 16 (digit_value a) || leb 16 (digit_value b)
    then none
    else cons_some (digit_value a * 16 + digit_value b) (hex_decode s)
