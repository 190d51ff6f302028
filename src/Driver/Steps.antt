-- ===== src/Driver/Steps.antt =====
-- A handler of the driver: it goes on with a value, returns false, or panics, and what it changed
-- before that stays changed.
use gcosmos.Base.{◌≡◌, refl, ap, ◌∙◌, Option, none, some}

pub data Step {ℓ} (A : Type ℓ) : Type ℓ where
  go : A → Step A
  halt : Step A
  crash : Step A

abbrev pub Handler {ℓ} : Type ℓ → Type ℓ → Type ℓ
Handler D A = D → Step A × D

module _ {ℓ} {D A B : Type ℓ} where
  abbrev pub continue : Step A × D → (A → Handler D B) → Step B × D
  continue (go a, d) f = f a d
  continue (halt, d) f = (halt, d)
  continue (crash, d) f = (crash, d)

  infixl 5 ◌>>=◌ ◌>>◌
  abbrev pub ◌>>=◌ : Handler D A → (A → Handler D B) → Handler D B
  ◌>>=◌ m f d = continue (m d) f

  abbrev pub ◌>>◌ : Handler D A → Handler D B → Handler D B
  m >> n = m >>= λ _. n

  continue-eq-go :
      (p : Step A × D) (f : A → Handler D B) {b : B} {d' : D}
      → continue p f ≡ (go b, d')
      → (a : A) × (d : D) × (p ≡ (go a, d)) × (f a d ≡ (go b, d'))
  continue-eq-go (go a, d) f e = (a, d, refl, e)
  continue-eq-go (halt, d) f e = cc
  continue-eq-go (crash, d) f e = cc

  -- A sequence goes on only if its first part did.
  pub >>=-eq-go :
      (m : Handler D A) (f : A → Handler D B) (d : D) {b : B} {d' : D}
      → (m >>= f) d ≡ (go b, d')
      → (a : A) × (d₁ : D) × (m d ≡ (go a, d₁)) × (f a d₁ ≡ (go b, d'))
  >>=-eq-go m f d e = continue-eq-go (m d) f e

  -- A sequence whose first part goes on ends as its second part does.
  pub >>=-go :
      (m : Handler D A) (f : A → Handler D B) (d : D) {a : A} {d₁ : D} {x : Step B × D}
      → m d ≡ (go a, d₁)
      → f a d₁ ≡ x
      → (m >>= f) d ≡ x
  >>=-go m f d e k = ap (λ p. continue p f) e ∙ k

module _ {ℓ} {D A : Type ℓ} where
  abbrev pub pure : A → Handler D A
  pure a d = (go a, d)

  -- `if err != nil { return false }`
  abbrev pub need : Option A → Handler D A
  need none d = (halt, d)
  need (some a) d = (go a, d)

  abbrev pub ask : (D → Option A) → Handler D A
  ask f d = need (f d) d

  pub need-eq-go :
      (o : Option A) (d : D) {a : A} {d' : D} → need o d ≡ (go a, d') → (o ≡ some a) × (d ≡ d')
  need-eq-go none d e = cc
  need-eq-go (some b) d e = (cc, cc)

module _ {ℓ κ} {D A B : Type ℓ} (Q : D → Type κ) where
  -- A property of the state that is left holds after a sequence, if it holds of the state in which
  -- the first part stops and of that in which the rest does.
  pub >>=-post :
      (m : Handler D A) (f : A → Handler D B) (d : D)
      → Q (m d).1
      → ((a : A) (d₁ : D) → m d ≡ (go a, d₁) → Q (f a d₁).1)
      → Q ((m >>= f) d).1
  >>=-post m f d first rest = after (m d) refl first
    where
      after : (p : Step A × D) → m d ≡ p → Q p.1 → Q (continue p f).1
      after (go a, d₁) e q = rest a d₁ e
      after (halt, d₁) e q = q
      after (crash, d₁) e q = q
