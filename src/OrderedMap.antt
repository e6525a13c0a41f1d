-- ===== src/OrderedMap.antt =====
-- std::map<Price, V, Less> as the list of its pairs in the order of the keys, begin() first.
pub mod Laws
use lob_engine.Prelude.{
  Bool, true, false, Option, none, some, List, [], ◌∷◌, ℤ, eqb_ℤ, if◌then◌else◌,
}
use lob_engine.Core.{Price}

abbrev pub OrderedMap {ℓ} : Type ℓ → Type ℓ
OrderedMap V = List (Price × V)

module _ {ℓ} {V : Type ℓ} where
  unfoldable pub find : Price → OrderedMap V → Option V
  find p [] = none
  find p ((k, v) ∷ m) = if eqb_ℤ k p then some v else find p m

  abbrev pub has_key : Price → OrderedMap V → Bool
  has_key p [] = false
  has_key p ((k, v) ∷ m) = if eqb_ℤ k p then true else has_key p m

  -- The value at a key is changed in place, through the iterator of that key.
  unfoldable pub adjust : Price → (V → V) → OrderedMap V → OrderedMap V
  adjust p f [] = []
  adjust p f ((k, v) ∷ m) =
      let rest = adjust p f m in if eqb_ℤ k p then ((k, f v) ∷ rest) else ((k, v) ∷ rest)

  -- `erase`. A key stands once, so this takes one pair at most.
  unfoldable pub erase_key : Price → OrderedMap V → OrderedMap V
  erase_key p [] = []
  erase_key p ((k, v) ∷ m) = let rest = erase_key p m in if eqb_ℤ k p then rest else ((k, v) ∷ rest)

  -- `*begin()`
  abbrev pub first : OrderedMap V → Option (Price × V)
  first [] = none
  first (e ∷ m) = some e

  -- `erase(begin())`, if there is one
  abbrev pub drop_first : OrderedMap V → OrderedMap V
  drop_first [] = []
  drop_first (e ∷ m) = m

  module _ (before : Price → Price → Bool) where
    -- A new key goes before the first key that comes after it.
    insert_sorted : Price → V → OrderedMap V → OrderedMap V
    insert_sorted p v [] = (p, v) ∷ []
    insert_sorted p v ((k, w) ∷ m) =
        let rest = insert_sorted p v m in
        if before p k then ((p, v) ∷ (k, w) ∷ m) else ((k, w) ∷ rest)

    -- `emplace` leaves a key that is there alone.
    unfoldable pub emplace : Price → V → OrderedMap V → OrderedMap V
    unfolding insert_sorted
    emplace p v m = if has_key p m then m else insert_sorted p v m
