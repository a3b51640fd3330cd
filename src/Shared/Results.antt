-- ===== src/Shared/Results.antt =====
-- Code that returns or throws.
use mathlib.Core.Path.{◌≡◌, refl}
use mathlib.Core.Logic.{◌⊎◌, inl, inr}
use mathlib.Core.Bool.{Bool, true, false}

pub data Outcome {ℓ κ} (E : Type ℓ) (A : Type κ) : Type (ℓ ⊔ κ) where
  returns : A → Outcome E A
  throws : E → Outcome E A

infixl 5 ◌>>=◌ ◌>>◌
abbrev pub ◌>>=◌ {ℓ κ} : {E A : Type ℓ} {B : Type κ} → Outcome E A → (A → Outcome E B) → Outcome E B
returns a >>= f = f a
throws e >>= f = throws e

abbrev pub ◌>>◌ {ℓ κ} : {E : Type ℓ} {B : Type κ} → Outcome E (Unit {0}) → Outcome E B → Outcome E B
returns u >> k = k
throws e >> k = throws e

-- `if (test) throw error`.
abbrev pub throw_if {ℓ} : {E : Type ℓ} → Bool → E → Outcome E (Unit {0})
throw_if true e = throws e
throw_if false e = returns tt

-- To split on a computed result and keep the equation.
pub Outcome-cases {ℓ κ} :
    {E : Type ℓ} {A : Type κ} (m : Outcome E A)
    → ((a : A) × (m ≡ returns a)) ⊎ ((e : E) × (m ≡ throws e))
Outcome-cases (returns a) = inl (a, refl)
Outcome-cases (throws e) = inr (e, refl)

module _ {ℓ κ} {E : Type ℓ} {B : Type κ} where
  -- What a chain that returns has come through.
  pub >>-returns :
      (m : Outcome E (Unit {0})) (k : Outcome E B) (b : B) → (m >> k) ≡ returns b → k ≡ returns b
  >>-returns (returns u) k b h = h
  >>-returns (throws e) k b h = absurd (cc)

  pub >>=-returns :
      {A : Type ℓ} (m : Outcome E A) (f : A → Outcome E B) (b : B)
      → (m >>= f) ≡ returns b
      → (a : A) × (m ≡ returns a) × (f a ≡ returns b)
  >>=-returns (returns a) f b h = (a, refl, h)
  >>=-returns (throws e) f b h = absurd (cc)
