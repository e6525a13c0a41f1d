-- ===== src/Prelude/Options.antt =====
-- Chains of code that may give nothing, or throw: `none` ends the chain.
use mathlib.Core.Path.{◌≡◌, refl}
use mathlib.Core.Option.{Option, none, some}

module _ {ℓ κ} {A : Type ℓ} {B : Type κ} where
  infixl 5 ◌>>=◌
  abbrev pub ◌>>=◌ : Option A → (A → Option B) → Option B
  none >>= next = none
  some a >>= next = next a

  -- A chain that gives a value got one from its first part.
  pub >>=-eq-some :
      (o : Option A) (next : A → Option B) {y : B}
      → (o >>= next) ≡ some y
      → (x : A) × (o ≡ some x) × (next x ≡ some y)
  >>=-eq-some none next e = absurd (cc e)
  >>=-eq-some (some x) next e = (x, refl, e)
