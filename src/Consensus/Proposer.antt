-- ===== src/Consensus/Proposer.antt =====
-- `DefaultProposerSelection` and `DecidePrecommit`.
use native.Mathlib.Nat.{mod-eq_of_lt, mod-lt, div-add-mod, add-mod-mod, add-mul-mod_self_left}
use gcosmos.Base.{
  ℕ, zero, suc, ◌+◌, ◌-◌, ◌*◌, ◌/◌, ◌%◌, ◌^◌, ◌<◌, ◌≡◌, ◌≢◌, List, [], ◌∷◌, Option, none, some,
  arith, Bytes, length, get_elem?, ltb, leb, nat_eq, if◌then◌else◌, Map, lookup, bytes_key, Result,
  ok, panic,
}

pub record Validator : Type 0 where
  pub pub_key : Bytes
  pub power : ℕ

abbrev at_index : Option Validator → Result (Unit {0}) Validator
at_index none = panic
at_index (some v) = ok v

-- Go's `%` on ints keeps the sign of the first operand: `sum` is the bit pattern of the sum of the
-- two ints, and stands for a negative number from 2^63 on.
abbrev index_of : ℕ → ℕ → List Validator → Result (Unit {0}) Validator
index_of sum n vals =
    if nat_eq n 0
    then panic
    else if ltb sum (2 ^ 63)
    then at_index (get_elem? vals (sum % n))
    else if nat_eq ((2 ^ 64 - sum) % n) 0
    then at_index (get_elem? vals 0)
    else panic

unfoldable pub default_proposer_selection : ℕ → ℕ → List Validator → Result (Unit {0}) Validator
default_proposer_selection h r vals = index_of ((h + r) % 2 ^ 64) (length vals) vals

lt-get_elem? {ℓ} :
    {A : Type ℓ} (xs : List A) (i : ℕ) {x : A} → get_elem? xs i ≡ some x → i < length xs
lt-get_elem? [] i e = cc
lt-get_elem? (x ∷ xs) zero e = omega arith
lt-get_elem? (x ∷ xs) (suc i) e = omega (arith, lt-get_elem? xs i e)

selection_lem :
    (h r : ℕ) (vals : List Validator)
    → h + r < 2 ^ 63
    → 0 < length vals
    → default_proposer_selection h r vals ≡ at_index (get_elem? vals ((h + r) % length vals))
unfolding default_proposer_selection
selection_lem h r vals fits some_vals =
    rw (mod-eq_of_lt {n = h + r} {m = 2 ^ 64} (omega arith)) (ground arith)

-- The round, counted from `r`, in which the validator at index `i` has its turn.
abbrev turn : ℕ → ℕ → ℕ → ℕ
turn n s i = (i + (n - s % n)) % n

turn_lem : (n s i : ℕ) → i < n → (s + turn n s i) % n ≡ i
turn_lem n s i h =
    let whole : s + (i + (n - s % n)) ≡ i + n * (s / n + 1) =
      omega (arith, div-add-mod s n, mod-lt s {m = n} (omega arith)) in
    rw (
      add-mod-mod s (i + (n - s % n)) n,
      whole,
      add-mul-mod_self_left i n (s / n + 1),
      mod-eq_of_lt {n = i} {m = n} h,
    )

-- Among any `n` rounds in a row, each of the `n` validators is chosen in one, as long as the
-- height, the first round and `n` add up to less than 2^63.
pub every_validator_proposes :
    (h r i : ℕ) (vals : List Validator) (v : Validator)
    → h + r + length vals < 2 ^ 63
    → get_elem? vals i ≡ some v
    → (k : ℕ) × (k < length vals) × (default_proposer_selection h (r + k) vals ≡ ok v)
every_validator_proposes h r i vals v fits at =
    let n : ℕ = length vals in
    let some_vals : i < n = lt-get_elem? vals i at in
    let k : ℕ = turn n (h + r) i in
    let small : k < n = mod-lt (i + (n - (h + r) % n)) {m = n} (omega arith) in
    let same : h + (r + k) ≡ h + r + k = omega arith in
    (
      k,
      small,
      rw (
        selection_lem h (r + k) vals (omega arith) (omega arith),
        same,
        turn_lem n (h + r) i some_vals,
        at,
      ),
    )

pub record VoteSummary : Type 0 where
  pub available_power : ℕ
  pub prevote_block_power : Map Bytes ℕ
  pub most_voted_prevote_hash : Bytes

abbrev pub or_zero : Option ℕ → ℕ
or_zero none = 0
or_zero (some n) = n

module _ (byzantine_majority : ℕ → ℕ) where
  -- The empty hash stands for a precommit of nil.
  unfoldable pub decide_precommit : VoteSummary → Bytes
  decide_precommit vs =
      let maj = byzantine_majority vs.available_power in
      let pow = or_zero (lookup vs.most_voted_prevote_hash vs.prevote_block_power) in
      if leb maj pow then vs.most_voted_prevote_hash else []

  -- A block is precommitted only if its prevotes have more than two thirds of the available power,
  -- for a Byzantine majority that is more than two thirds.
  decide_precommit_two_thirds :
      (vs : VoteSummary)
      → ((n : ℕ) → 2 * n < 3 * byzantine_majority n)
      → decide_precommit vs ≢ []
      → 2 * vs.available_power < 3 * or_zero (lookup (decide_precommit vs) vs.prevote_block_power)
  unfolding decide_precommit
  decide_precommit_two_thirds vs big chosen = ground (arith, big vs.available_power)
