-- ===== src/Driver/Validators.antt =====
-- The update of the validators in `handleFinalization`.
pub mod Loop
pub mod Powers
use gcosmos.Base.{
  ℕ, ◌-◌, ◌%◌, ◌^◌, Bool, true, false, ◌||◌, List, [], ◌∷◌, ◌++◌, Option, none, some, Bytes, Map,
  lookup, put, remove, bytes_key, bytes_beq, nat_eq, ltb, if◌then◌else◌,
}
use gcosmos.Strconv.Integer.{ℤ, pos, negsuc}
use gcosmos.Consensus.Proposer.{Validator}

-- `power` is an int64.
pub record ValidatorUpdate : Type 0 where
  pub pub_key : Bytes
  pub power : ℤ

-- `uint64(p)`: a negative power wraps around.
abbrev pub to_uint64 : ℤ → ℕ
to_uint64 (pos n) = n % 2 ^ 64
to_uint64 (negsuc n) = 2 ^ 64 - 1 - n % 2 ^ 64

abbrev pub is_zero_power : ℤ → Bool
is_zero_power (pos n) = nat_eq n 0
is_zero_power (negsuc n) = false

-- The map of the new powers, where a later update of a key wins, and whether any power is 0.
unfoldable pub collect : Map Bytes ℕ → Bool → List ValidatorUpdate → Map Bytes ℕ × Bool
collect m has_delete [] = (m, has_delete)
collect m has_delete (u ∷ us) =
    collect (put u.pub_key (to_uint64 u.power) m) (has_delete || is_zero_power u.power) us

abbrev pub is_empty {ℓ} : {A : Type ℓ} → List A → Bool
is_empty [] = true
is_empty (x ∷ xs) = false

-- The loop that assigns powers to the validators there are, and drops the entries it used. It stops
-- once no entry is left.
unfoldable pub assign : List Validator → Map Bytes ℕ → List Validator × Map Bytes ℕ
assign [] m = ([], m)
assign (v ∷ vs) m = elim (lookup v.pub_key m) [
  | none ↦ let (rest, left) = assign vs m in (v ∷ rest, left)
  | some p ↦
      let v' : Validator = record v { power = p } in
      let m' = remove v.pub_key m in
      let (rest, left) = assign vs m' in if is_empty m' then (v' ∷ vs, m') else (v' ∷ rest, left)
]

-- `slices.DeleteFunc` of the validators of power 0.
unfoldable pub delete_zero : List Validator → List Validator
delete_zero [] = []
delete_zero (v ∷ vs) = if nat_eq v.power 0 then delete_zero vs else v ∷ delete_zero vs

-- The order of Go strings.
unfoldable pub bytes_less : Bytes → Bytes → Bool
bytes_less [] [] = false
bytes_less [] (b ∷ t) = true
bytes_less (a ∷ s) [] = false
bytes_less (a ∷ s) (b ∷ t) = if ltb a b then true else if ltb b a then false else bytes_less s t

pub insert_sorted : Bytes → List Bytes → List Bytes
insert_sorted k [] = k ∷ []
insert_sorted k (j ∷ ks) = if bytes_less j k then j ∷ insert_sorted k ks else k ∷ j ∷ ks

-- `slices.Sorted(maps.Keys(m))`
unfoldable pub sorted_keys : Map Bytes ℕ → List Bytes
unfolding insert_sorted
sorted_keys [] = []
sorted_keys ((k, p) ∷ m) = insert_sorted k (sorted_keys m)

abbrev or_zero : Option ℕ → ℕ
or_zero none = 0
or_zero (some p) = p

-- `is_valid` says that `NewEd25519PubKey` takes the bytes; a key that it refuses is skipped.
module _ (is_valid : Bytes → Bool) where
  unfoldable pub new_validators : Map Bytes ℕ → List Bytes → List Validator
  new_validators m [] = []
  new_validators m (k ∷ ks) =
      if is_valid k
      then record { pub_key = k; power = or_zero (lookup k m) } ∷ new_validators m ks
      else new_validators m ks

  -- The validators after the updates of a block.
  unfoldable pub update_validators : List Validator → List ValidatorUpdate → List Validator
  update_validators vals [] = vals
  update_validators vals (u ∷ us) =
      let (m, has_delete) = collect [] false (u ∷ us) in
      let (assigned, left) = assign vals m in
      let kept = if has_delete then delete_zero assigned else assigned in
      kept ++ new_validators left (sorted_keys left)
