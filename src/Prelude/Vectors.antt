-- ===== src/Prelude/Vectors.antt =====
-- std::vector as a list: reading and writing at an index, and the last element.
use Prim.Native.Nat.{ℕ, zero, suc, ◌+◌, ◌<◌}
use mathlib.Core.Path.{◌≡◌, refl}
use mathlib.Core.Option.{Option, none, some}
use mathlib.Core.List.{List, [], ◌∷◌, ◌++◌}
use native.Mathlib.Omega.{arith}
use lob_engine.Prelude.Tests.{◌==◌, if◌then◌else◌}
use lob_engine.Prelude.Lists.{length}

module _ {ℓ} {A : Type ℓ} where
  abbrev pub get_elem? : List A → ℕ → Option A
  get_elem? [] i = none
  get_elem? (x ∷ xs) zero = some x
  get_elem? (x ∷ xs) (suc i) = get_elem? xs i

  -- A write out of bounds changes nothing.
  abbrev pub set : List A → ℕ → A → List A
  set [] i v = []
  set (x ∷ xs) zero v = v ∷ xs
  set (x ∷ xs) (suc i) v = x ∷ set xs i v

  -- `back()`
  abbrev pub back : List A → Option A
  back [] = none
  back (x ∷ []) = some x
  back (x ∷ y ∷ ys) = back (y ∷ ys)

  -- `pop_back()`
  abbrev pub pop_back : List A → List A
  pop_back [] = []
  pop_back (x ∷ []) = []
  pop_back (x ∷ y ∷ ys) = x ∷ pop_back (y ∷ ys)

  pub get_elem?-some : (xs : List A) (i : ℕ) → i < length xs → (x : A) × (get_elem? xs i ≡ some x)
  get_elem?-some [] i h = absurd (omega (arith, h))
  get_elem?-some (x ∷ xs) zero h = (x, refl)
  get_elem?-some (x ∷ xs) (suc i) h = get_elem?-some xs i (omega (arith, h))

  pub back-some : (xs : List A) → 0 < length xs → (x : A) × (back xs ≡ some x)
  back-some [] h = absurd (omega (arith, h))
  back-some (x ∷ []) h = (x, refl)
  back-some (x ∷ y ∷ ys) h = back-some (y ∷ ys) (omega arith)

-- How often a number stands in a list.
abbrev pub occurrences : ℕ → List ℕ → ℕ
occurrences a [] = 0
occurrences a (x ∷ xs) = (if x == a then 1 else 0) + occurrences a xs

pub occurrences-append :
    (a : ℕ) (xs ys : List ℕ) → occurrences a (xs ++ ys) ≡ occurrences a xs + occurrences a ys
occurrences-append a [] ys = omega arith
occurrences-append a (x ∷ xs) ys = omega (arith, occurrences-append a xs ys)

occurrences-pop_back :
    (a : ℕ) (xs : List ℕ) (y : ℕ)
    → back xs ≡ some y
    → occurrences a (pop_back xs) + (if y == a then 1 else 0) ≡ occurrences a xs
occurrences-pop_back a [] y h = absurd (cc h)
occurrences-pop_back a (x ∷ []) y h = let same : x ≡ y = cc h in rw same (omega arith)
occurrences-pop_back a (x ∷ z ∷ zs) y h = omega (arith, occurrences-pop_back a (z ∷ zs) y h)

-- Writing the last element over the one at an index, and taking the last off.
pub occurrences-swap_pop :
    (a : ℕ) (xs : List ℕ) (i x y : ℕ)
    → get_elem? xs i ≡ some x
    → back xs ≡ some y
    → (if x == a then 1 else 0) + occurrences a (pop_back (set xs i y)) ≡ occurrences a xs
occurrences-swap_pop a [] i x y h k = absurd (cc h)
occurrences-swap_pop a (z ∷ []) zero x y h k = let same : z ≡ x = cc h in rw same (omega arith)
occurrences-swap_pop a (z ∷ []) (suc i) x y h k = absurd (cc h)
occurrences-swap_pop a (z ∷ w ∷ ws) zero x y h k =
    let same : z ≡ x = cc h in rw same (omega (arith, occurrences-pop_back a (w ∷ ws) y k))
occurrences-swap_pop a (z ∷ w ∷ ws) (suc zero) x y h k =
    omega (arith, occurrences-swap_pop a (w ∷ ws) zero x y h k)
occurrences-swap_pop a (z ∷ w ∷ ws) (suc (suc i)) x y h k =
    omega (arith, occurrences-swap_pop a (w ∷ ws) (suc i) x y h k)
