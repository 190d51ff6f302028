-- ===== src/Tests/Powers.antt =====
-- The validators after a block.
use gcosmos.Base.{◌≡◌, refl, some, List, [], ◌∷◌, Bytes, codes, Bool, true}
use gcosmos.Consensus.Proposer.{Validator}
use gcosmos.Driver.Validators.{ValidatorUpdate, update_validators}
use gcosmos.Driver.Validators.Loop.{Distinct, power_of}
use gcosmos.Driver.Validators.Powers.{expected, any_zero, power_of-update_validators}
use gcosmos.Strconv.Integer.{pos}

abbrev alice : Validator
alice = record { pub_key = codes "a"; power = 10 }

abbrev bob : Validator
bob = record { pub_key = codes "b"; power = 20 }

abbrev any_key : Bytes → Bool
any_key k = true

abbrev updates : List ValidatorUpdate
updates =
    record { pub_key = codes "c"; power = pos 0 }
    ∷ record { pub_key = codes "a"; power = pos 3 }
    ∷ []

both-Distinct : Distinct (alice ∷ bob ∷ [])
both-Distinct = (refl, (refl, tt))

power_of-update_validators_example :
    power_of (codes "a") (update_validators any_key (alice ∷ bob ∷ []) updates)
    ≡ expected (any_zero updates) true (some 10) (some 3)
power_of-update_validators_example =
    power_of-update_validators any_key (alice ∷ bob ∷ []) (codes "a") both-Distinct updates

-- An update to power 0 for a key that is not in the set adds a validator.
zero_joins : power_of (codes "c") (update_validators any_key (alice ∷ bob ∷ []) updates) ≡ some 0
zero_joins = power_of-update_validators any_key (alice ∷ bob ∷ []) (codes "c") both-Distinct updates
