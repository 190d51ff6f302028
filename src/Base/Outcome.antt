-- ===== src/Base/Outcome.antt =====
-- What a Go call ends in: a value, an error value, or a panic.
use mathlib.Core.Path.{◌≡◌, refl}
use mathlib.Core.Logic.{◌⊎◌, inl, inr}
use mathlib.Core.Option.{Option, none, some}

pub data Result {ℓ} (E : Type 0) (A : Type ℓ) : Type ℓ where
  ok : A → Result E A
  err : E → Result E A
  panic : Result E A

module _ {κ ℓ} {Err : Type 0} {A : Type κ} {B : Type ℓ} where
  infixl 5 ◌>>=◌
  abbrev pub ◌>>=◌ : Result Err A → (A → Result Err B) → Result Err B
  panic >>= next = panic
  err x >>= next = err x
  ok value >>= next = next value

module _ {ℓ} {Err : Type 0} {B : Type ℓ} where
  infixl 5 ◌>>◌
  abbrev pub ◌>>◌ : Result Err (Unit {0}) → Result Err B → Result Err B
  first >> second = first >>= λ _. second

-- `if cond { return err }`
abbrev pub or_fail {ℓ} : {E : Type 0} {A : Type ℓ} → Option A → E → Result E A
or_fail none e = err e
or_fail (some a) e = ok a

pub >>=-eq-ok {κ ℓ} :
    {Err : Type 0} {A : Type κ} {B : Type ℓ} (first : Result Err A) (next : A → Result Err B)
    {out : B}
    → (first >>= next) ≡ ok out
    → (value : A) × (first ≡ ok value) × (next value ≡ ok out)
>>=-eq-ok panic next done = cc
>>=-eq-ok (err x) next done = cc
>>=-eq-ok (ok value) next done = (value, refl, done)

pub or_fail-eq-ok {ℓ} :
    {E : Type 0} {A : Type ℓ} (o : Option A) (e : E) {a : A} → or_fail o e ≡ ok a → o ≡ some a
or_fail-eq-ok none e h = cc
or_fail-eq-ok (some a) e h = cc

-- To split on a computed result and keep the equation.
pub Result-cases {ℓ} :
    {E : Type 0} {A : Type ℓ} (m : Result E A)
    → ((a : A) × (m ≡ ok a)) ⊎ ((e : E) × (m ≡ err e)) ⊎ (m ≡ panic)
Result-cases (ok a) = inl (a, refl)
Result-cases (err e) = inr (inl (e, refl))
Result-cases panic = inr (inr refl)
