-- ===== src/Prelude/Fallible.antt =====
-- What a run of the program gives: a value, undefined behaviour, or no answer within the fuel.
use mathlib.Core.Path.{◌≡◌, refl}

-- Why a run is undefined: a null `Order*` is dereferenced, `front` or `pop_front` meets an empty
-- deque, or an index is not below the size of its vector.
pub data Fault : Type 0 where
  null_order empty_deque out_of_range : Fault

pub data Run {ℓ} (A : Type ℓ) : Type ℓ where
  out_of_fuel : Run A
  fault : Fault → Run A
  ok : A → Run A

module _ {ℓ κ} {A : Type ℓ} {B : Type κ} where
  infixl 5 ◌>>=◌
  abbrev pub ◌>>=◌ : Run A → (A → Run B) → Run B
  out_of_fuel >>= next = out_of_fuel
  fault why >>= next = fault why
  ok x >>= next = next x

  -- A chain that gives a value got one from its first run.
  pub >>=-eq-ok :
      (run : Run A) (next : A → Run B) {y : B}
      → (run >>= next) ≡ ok y
      → (x : A) × (run ≡ ok x) × (next x ≡ ok y)
  >>=-eq-ok out_of_fuel next e = cc
  >>=-eq-ok (fault why) next e = cc
  >>=-eq-ok (ok x) next e = (x, refl, e)
