-- ===== src/Prelude/Lists.antt =====
-- Lists measured and indexed by native numbers, and lists of numbers with Boolean membership.
use Prim.Native.Nat.{ℕ, suc, ◌+◌}
use mathlib.Core.Path.{◌≡◌, refl}
use mathlib.Core.Bool.{Bool, false, ◌||◌}
use mathlib.Core.List.{List, [], ◌∷◌, ◌++◌}
use native.Mathlib.Omega.{arith}
use lob_engine.Prelude.Tests.{◌==◌, if◌then◌else◌}

module _ {ℓ} {A : Type ℓ} where
  abbrev pub length : List A → ℕ
  length [] = 0
  length (x ∷ xs) = suc (length xs)

  pub length-append : (xs ys : List A) → length (xs ++ ys) ≡ length xs + length ys
  length-append [] ys = omega arith
  length-append (x ∷ xs) ys = omega (arith, length-append xs ys)

-- A predicate of every element, by recursion, so that it computes to tuples.
abbrev pub All {ℓ κ} : {A : Type ℓ} → (A → Type κ) → List A → Type κ
All P [] = Unit
All P (x ∷ xs) = P x × All P xs

pub All-append {ℓ κ} :
    {A : Type ℓ} (P : A → Type κ) (xs ys : List A) → All P xs → All P ys → All P (xs ++ ys)
All-append P [] ys h k = k
All-append P (x ∷ xs) ys h k = (h.0, All-append P xs ys h.1 k)

abbrev pub member : ℕ → List ℕ → Bool
member a [] = false
member a (x ∷ xs) = a == x || member a xs

-- Every occurrence goes.
abbrev pub erase : ℕ → List ℕ → List ℕ
erase a [] = []
erase a (x ∷ xs) = let rest = erase a xs in if a == x then rest else (x ∷ rest)

-- The first occurrence goes.
abbrev pub erase_first : ℕ → List ℕ → List ℕ
erase_first a [] = []
erase_first a (x ∷ xs) = if a == x then xs else x ∷ erase_first a xs

-- No number occurs twice.
abbrev pub Distinct : List ℕ → Type 0
Distinct [] = Unit {0}
Distinct (x ∷ xs) = (member x xs ≡ false) × Distinct xs

pub member-erase :
    (a b : ℕ) (xs : List ℕ) → member a (erase b xs) ≡ (if b == a then false else member a xs)
member-erase a b [] = ground arith
member-erase a b (x ∷ xs) = ground (arith, member-erase a b xs)

pub erase_absent : (a : ℕ) (xs : List ℕ) → member a xs ≡ false → erase a xs ≡ xs
erase_absent a [] h = refl
erase_absent a (x ∷ xs) h = ground (arith, erase_absent a xs)

pub member-append : (a : ℕ) (xs ys : List ℕ) → member a (xs ++ ys) ≡ (member a xs || member a ys)
member-append a [] ys = refl
member-append a (x ∷ xs) ys = ground (arith, member-append a xs ys)

pub erase_comm : (a b : ℕ) (xs : List ℕ) → erase a (erase b xs) ≡ erase b (erase a xs)
erase_comm a b [] = refl
erase_comm a b (x ∷ xs) = ground (arith, erase_comm a b xs)

pub member-erase_first :
    (a b : ℕ) (xs : List ℕ)
    → Distinct xs
    → member a (erase_first b xs) ≡ (if b == a then false else member a xs)
member-erase_first a b [] d = ground arith
member-erase_first a b (x ∷ xs) d = ground (arith, member-erase_first a b xs d.1)

pub erase_first-Distinct : (a : ℕ) (xs : List ℕ) → Distinct xs → Distinct (erase_first a xs)
erase_first-Distinct a [] d = tt
erase_first-Distinct a (x ∷ xs) d =
    ground (arith, erase_first-Distinct a xs d.1, member-erase_first x a xs d.1)

pub append-Distinct :
    (a : ℕ) (xs : List ℕ) → Distinct xs → member a xs ≡ false → Distinct (xs ++ a ∷ [])
append-Distinct a [] d h = (refl, tt)
append-Distinct a (x ∷ xs) d h =
    ground (arith, append-Distinct a xs d.1, member-append x xs (a ∷ []))

pub erase-Distinct : (a : ℕ) (xs : List ℕ) → Distinct xs → Distinct (erase a xs)
erase-Distinct a [] d = tt
erase-Distinct a (x ∷ xs) d = ground (arith, erase-Distinct a xs d.1, member-erase x a xs)

pub length-erase :
    (a : ℕ) (xs : List ℕ)
    → Distinct xs
    → length xs ≡ (if member a xs then suc (length (erase a xs)) else length (erase a xs))
length-erase a [] d = refl
length-erase a (x ∷ xs) d = ground (arith, length-erase a xs d.1, erase_absent a xs)
