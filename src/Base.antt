-- ===== src/Base.antt =====
-- The names that the other modules share: the libraries', passed on, and those of the children.
mod Tests
mod Lists
mod Keys
mod GoMap
mod Outcome
pub use Tests.*
pub use Lists.*
pub use Keys.{
  Eq, ◌==◌, ==_iff, ==_refl, list_beq_iff, pair_beq_iff, bytes_beq, bytes_beq_iff, nat_key,
  bytes_key, pair_key, list_beq, pair_beq,
}
unfoldable pub use GoMap.{Map, lookup, remove, put}
pub use Outcome.{
  Result, ok, err, panic, ◌>>=◌, ◌>>◌, or_fail, >>=-eq-ok, or_fail-eq-ok, Result-cases,
}
pub use GoMap.{lookup-remove, lookup-put, map_laws}
pub use Prim.Native.Nat.{ℕ, zero, suc, ◌+◌, ◌-◌, ◌*◌, ◌/◌, ◌%◌, ◌^◌, ◌≤◌, ◌<◌}
pub use mathlib.Core.Path.{◌≡◌, refl, sym, ap, ◌∙◌}
pub use mathlib.Core.Logic.{◌≢◌, ◌↔◌, ◌⊎◌, inl, inr}
pub use mathlib.Core.Bool.{Bool, true, false, not, ◌&&◌, ◌||◌}
pub use mathlib.Core.Option.{Option, none, some}
pub use mathlib.Core.List.{List, [], ◌∷◌, ◌++◌, map, append-nil, append_assoc}
pub use native.Mathlib.Omega.{arith}
use Prim.Native.Char.{code}
use Prim.Native.String.{String}

-- A Go string or byte slice, byte by byte.
abbrev pub Bytes : Type 0
Bytes = List ℕ

-- The bytes of an ASCII literal.
abbrev pub codes : String → Bytes
codes String.[] = []
codes (String.◌∷◌ c s) = code c ∷ codes s

abbrev pub IsByte : ℕ → Type 0
IsByte b = b < 256
