-- ===== src/Driver/Validators/Powers.antt =====
-- The updated validators against a description of the power of each key.
use gcosmos.Base.{
  ℕ, ◌≡◌, ◌∙◌, refl, Bool, true, false, ◌||◌, ◌&&◌, List, [], ◌∷◌, ◌++◌, Option, none, some, arith,
  Bytes, Map, lookup, put, lookup-put, bytes_key, bytes_beq, nat_eq, if◌then◌else◌,
}
use gcosmos.Consensus.Proposer.{Validator}
use gcosmos.Driver.Validators.{
  ValidatorUpdate, to_uint64, is_zero_power, collect, assign, delete_zero, sorted_keys,
  new_validators, update_validators,
}
use gcosmos.Driver.Validators.Loop.{
  power_of, Distinct, or_else, power_of-assign, assign-Distinct, power_of-delete_zero,
  power_of-append, power_of-new_validators,
}

-- The power that the last update of a key gives it.
abbrev last_update : Bytes → List ValidatorUpdate → Option ℕ
last_update k [] = none
last_update k (u ∷ us) =
    or_else (last_update k us) (if bytes_beq u.pub_key k then some (to_uint64 u.power) else none)

abbrev pub any_zero : List ValidatorUpdate → Bool
any_zero [] = false
any_zero (u ∷ us) = is_zero_power u.power || any_zero us

lookup-collect :
    (m : Map Bytes ℕ) (b : Bool) (us : List ValidatorUpdate) (k : Bytes)
    → lookup k (collect m b us).0 ≡ or_else (last_update k us) (lookup k m)
unfolding collect
lookup-collect m b [] k = refl
lookup-collect m b (u ∷ us) k = ground (
  arith,
  lookup-collect (put u.pub_key (to_uint64 u.power) m) (b || is_zero_power u.power) us k,
  lookup-put u.pub_key k (to_uint64 u.power) m,
)

or_else-lookup_nil : (o : Option ℕ) (k : Bytes) → or_else o (lookup k []) ≡ o
unfolding lookup
or_else-lookup_nil none k = refl
or_else-lookup_nil (some p) k = refl

collect-any_zero :
    (m : Map Bytes ℕ) (b : Bool) (us : List ValidatorUpdate)
    → (collect m b us).1 ≡ (b || any_zero us)
unfolding collect
collect-any_zero m b [] = ground arith
collect-any_zero m b (u ∷ us) =
    ground (
      arith,
      collect-any_zero (put u.pub_key (to_uint64 u.power) m) (b || is_zero_power u.power) us,
    )

-- The power of a key after a block: that of its last update, or its old one. A validator of the old
-- set goes if that is 0 and the block has an update to 0; a key that is new stays if it is valid.
abbrev pub expected : Bool → Bool → Option ℕ → Option ℕ → Option ℕ
expected deletes valid (some p) none = if deletes && nat_eq p 0 then none else some p
expected deletes valid (some p) (some q) = if deletes && nat_eq q 0 then none else some q
expected deletes valid none (some q) = if valid then some q else none
expected deletes valid none none = none

module _ (is_valid : Bytes → Bool) (vals : List Validator) (k : Bytes)
    (distinct : Distinct vals) where
  combined :
      (m : Map Bytes ℕ) (deletes : Bool)
      → let (assigned, left) = assign vals m in
        power_of k (
          (if deletes then delete_zero assigned else assigned)
          ++ new_validators is_valid left (sorted_keys left))
        ≡ expected deletes (is_valid k) (power_of k vals) (lookup k m)
  combined m true = ground (
    arith,
    power_of-append (delete_zero (assign vals m).0)
        (new_validators is_valid (assign vals m).1 (sorted_keys (assign vals m).1)) k,
    power_of-delete_zero (assign vals m).0 k (assign-Distinct vals m distinct),
    power_of-assign vals m k distinct,
    power_of-new_validators is_valid (assign vals m).1 k,
  )
  combined m false = ground (
    arith,
    power_of-append (assign vals m).0
        (new_validators is_valid (assign vals m).1 (sorted_keys (assign vals m).1)) k,
    power_of-assign vals m k distinct,
    power_of-new_validators is_valid (assign vals m).1 k,
  )

  -- After a block, each key has the power of its last update, or its old one if it has none. A key
  -- of the old set is gone if that power is 0 and some update of the block is to 0; a new key
  -- stays out if it is not valid. No key stands twice in the old set.
  pub power_of-update_validators :
      (us : List ValidatorUpdate)
      → power_of k (update_validators is_valid vals us)
        ≡ expected (any_zero us) (is_valid k) (power_of k vals) (last_update k us)
  unfolding update_validators
  power_of-update_validators [] = ground arith
  power_of-update_validators (u ∷ us) =
      combined (collect [] false (u ∷ us)).0 (collect [] false (u ∷ us)).1
      ∙ rw (
        lookup-collect [] false (u ∷ us) k,
        collect-any_zero [] false (u ∷ us),
        or_else-lookup_nil,
      )
