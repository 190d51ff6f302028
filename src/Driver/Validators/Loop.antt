-- ===== src/Driver/Validators/Loop.antt =====
-- What each loop does to the power that is found under a key.
use gcosmos.Base.{
  ℕ, ◌≡◌, refl, Bool, true, false, List, [], ◌∷◌, ◌++◌, Option, none, some, arith, Bytes, Map,
  lookup, remove, lookup-remove, bytes_key, bytes_beq, bytes_beq_iff, nat_eq, if◌then◌else◌,
  Option-cases, inl, inr,
}
use gcosmos.Consensus.Proposer.{Validator}
use gcosmos.Driver.Validators.{
  is_empty, assign, delete_zero, insert_sorted, sorted_keys, new_validators,
}

-- The power of the first validator with the key.
abbrev pub power_of : Bytes → List Validator → Option ℕ
power_of k [] = none
power_of k (v ∷ vs) = if bytes_beq v.pub_key k then some v.power else power_of k vs

-- No two validators have one key.
abbrev pub Distinct : List Validator → Type 0
Distinct [] = Unit
Distinct (v ∷ vs) = (power_of v.pub_key vs ≡ none) × Distinct vs

-- The power of a validator that is in the set, after an update of it if there is one.
abbrev pub updated : Option ℕ → Option ℕ → Option ℕ
updated none u = none
updated (some p) none = some p
updated (some p) (some q) = some q

abbrev unless_known : Option ℕ → Option ℕ → Option ℕ
unless_known none u = u
unless_known (some p) u = none

lookup-nil : (m : Map Bytes ℕ) (k : Bytes) → is_empty m ≡ true → lookup k m ≡ none
unfolding lookup
lookup-nil [] k e = refl
lookup-nil (x ∷ m) k e = cc

pub power_of-assign :
    (vals : List Validator) (m : Map Bytes ℕ) (k : Bytes)
    → Distinct vals
    → (power_of k (assign vals m).0 ≡ updated (power_of k vals) (lookup k m))
      × (lookup k (assign vals m).1 ≡ unless_known (power_of k vals) (lookup k m))
unfolding assign
power_of-assign [] m k d = (refl, refl)
power_of-assign (v ∷ vs) m k d = ground (
  arith,
  power_of-assign vs m k d.1,
  power_of-assign vs (remove v.pub_key m) k d.1,
  lookup-remove v.pub_key k m,
  lookup-nil (remove v.pub_key m) k,
  bytes_beq_iff v.pub_key k,
)

-- The keys stay where they are.
assign-none :
    (vals : List Validator) (m : Map Bytes ℕ) (k : Bytes)
    → power_of k vals ≡ none
    → power_of k (assign vals m).0 ≡ none
unfolding assign
assign-none [] m k e = refl
assign-none (v ∷ vs) m k e =
    ground (arith, assign-none vs m k, assign-none vs (remove v.pub_key m) k)

pub assign-Distinct :
    (vals : List Validator) (m : Map Bytes ℕ) → Distinct vals → Distinct (assign vals m).0
unfolding assign
assign-Distinct [] m d = tt
assign-Distinct (v ∷ vs) m d = ground (
  arith,
  assign-Distinct vs m d.1,
  assign-Distinct vs (remove v.pub_key m) d.1,
  assign-none vs m v.pub_key d.0,
  assign-none vs (remove v.pub_key m) v.pub_key d.0,
)

abbrev nonzero : Option ℕ → Option ℕ
nonzero none = none
nonzero (some p) = if nat_eq p 0 then none else some p

pub power_of-delete_zero :
    (vals : List Validator) (k : Bytes)
    → Distinct vals
    → power_of k (delete_zero vals) ≡ nonzero (power_of k vals)
unfolding delete_zero
power_of-delete_zero [] k d = refl
power_of-delete_zero (v ∷ vs) k d =
    ground (arith, power_of-delete_zero vs k d.1, bytes_beq_iff v.pub_key k)

abbrev pub or_else : Option ℕ → Option ℕ → Option ℕ
or_else none b = b
or_else (some a) b = some a

pub power_of-append :
    (vs ws : List Validator) (k : Bytes)
    → power_of k (vs ++ ws) ≡ or_else (power_of k vs) (power_of k ws)
power_of-append [] ws k = refl
power_of-append (v ∷ vs) ws k = ground (arith, power_of-append vs ws k)

abbrev has : Bytes → List Bytes → Bool
has k [] = false
has k (j ∷ ks) = if bytes_beq j k then true else has k ks

has-insert_sorted :
    (j k : Bytes) (ks : List Bytes)
    → has k (insert_sorted j ks) ≡ (if bytes_beq j k then true else has k ks)
unfolding insert_sorted
has-insert_sorted j k [] = refl
has-insert_sorted j k (i ∷ ks) = ground (arith, has-insert_sorted j k ks)

abbrev is_some : Option ℕ → Bool
is_some none = false
is_some (some p) = true

has-sorted_keys : (m : Map Bytes ℕ) (k : Bytes) → has k (sorted_keys m) ≡ is_some (lookup k m)
unfolding sorted_keys lookup
has-sorted_keys [] k = refl
has-sorted_keys ((j, p) ∷ m) k =
    ground (arith, has-insert_sorted j k (sorted_keys m), has-sorted_keys m k)

module _ (is_valid : Bytes → Bool) where
  abbrev if_valid : Bytes → Option ℕ → Option ℕ
  if_valid k o = if is_valid k then o else none

  power_of-new_validators_keys :
      (m : Map Bytes ℕ) (ks : List Bytes) (k : Bytes) (p : ℕ)
      → lookup k m ≡ some p
      → power_of k (new_validators is_valid m ks) ≡ (if has k ks then if_valid k (some p) else none)
  unfolding new_validators
  power_of-new_validators_keys m [] k p e = refl
  power_of-new_validators_keys m (j ∷ ks) k p e =
      ground (arith, power_of-new_validators_keys m ks k p e, bytes_beq_iff j k)

  power_of-new_validators-none :
      (m : Map Bytes ℕ) (ks : List Bytes) (k : Bytes)
      → has k ks ≡ false
      → power_of k (new_validators is_valid m ks) ≡ none
  unfolding new_validators
  power_of-new_validators-none m [] k e = refl
  power_of-new_validators-none m (j ∷ ks) k e = ground (arith, power_of-new_validators-none m ks k)

  pub power_of-new_validators :
      (m : Map Bytes ℕ) (k : Bytes)
      → power_of k (new_validators is_valid m (sorted_keys m)) ≡ if_valid k (lookup k m)
  power_of-new_validators m k = elim (Option-cases (lookup k m)) [
    | inl e ↦ ground (arith, has-sorted_keys m k, power_of-new_validators-none m (sorted_keys m) k)
    | inr (p, e) ↦
        ground (arith, has-sorted_keys m k, power_of-new_validators_keys m (sorted_keys m) k p e)
  ]
