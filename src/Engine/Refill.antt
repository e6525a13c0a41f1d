-- ===== src/Engine/Refill.antt =====
-- The level and the order after `replenish_iceberg` of src/engine/matching_engine.cpp.
use lob_engine.Prelude.{
  ◌+◌, ◌<◌, ◌≡◌, refl, sym, subst, ◌∙◌, List, [], ◌∷◌, ◌++◌, min, arith, sub64, sub64-of_le,
  Distinct, append-Distinct, member, member-append,
}
use lob_engine.Core.{OrderId, Quantity, Order}
use lob_engine.Level.{PriceLevel, push_back}
use lob_engine.Level.Fifo.{live_ids, IsLevel}
use lob_engine.Level.Refine.{push_back_refines}
use lob_engine.Book.Sound.{nonempty_append, LevelAt}
use lob_engine.Engine.Fill.{new_peak}
use lob_engine.Engine.Weight.{weight}

rotated-Distinct : (a : OrderId) (xs : List OrderId) → Distinct (a ∷ xs) → Distinct (xs ++ a ∷ [])
rotated-Distinct a xs d = append-Distinct a xs d.1 d.0

rotated-member : (a i : OrderId) (xs : List OrderId) → member i (xs ++ a ∷ []) ≡ member i (a ∷ xs)
rotated-member a i xs = ground (arith, member-append i xs (a ∷ []))

-- The level after `replenish_iceberg`, and the order.
abbrev pub refilled_level : PriceLevel → Order → PriceLevel
refilled_level l p = push_back l p.id (new_peak p)

abbrev pub refilled : Order → Order
refilled p = record p { reserve_qty = sub64 p.reserve_qty (new_peak p); quantity = new_peak p }

-- The popped level with the order put back has the same live ids, the first now last.
module _ (l popped : PriceLevel) (p : Order) (xs : List OrderId) (at : LevelAt p.price l)
    (once : Distinct (live_ids l)) (front : live_ids l ≡ p.id ∷ xs) (rest : live_ids popped ≡ xs)
    (w : IsLevel popped) (priced : popped.price ≡ l.price) where
  turned : live_ids (refilled_level popped p) ≡ xs ++ p.id ∷ []
  turned = rw (← rest) (push_back_refines popped p.id (new_peak p) w).0

  pub refilled-LevelAt : LevelAt p.price (refilled_level popped p)
  unfolding push_back
  refilled-LevelAt = record {
    well_formed = (push_back_refines popped p.id (new_peak p) w).1;
    inhabited = λ e. nonempty_append xs p.id (sym turned ∙ e);
    priced = priced ∙ at.priced;
  }

  pub refilled-same :
      (i : OrderId) → member i (live_ids (refilled_level popped p)) ≡ member i (live_ids l)
  refilled-same i = rw (turned, front) (rotated-member p.id i xs)

  pub refilled-Distinct : Distinct (live_ids (refilled_level popped p))
  refilled-Distinct = rw turned (rotated-Distinct p.id xs (subst Distinct front once))

pub cancelled-push_back :
    (l : PriceLevel) (i : OrderId) (q : Quantity) → (push_back l i q).cancelled ≡ l.cancelled
unfolding push_back
cancelled-push_back l i q = refl

pub weight-refilled :
    (p : Order)
    → p.quantity ≡ 0
    → 0 < p.peak_qty
    → 0 < p.reserve_qty
    → weight (refilled p) + 1 ≡ weight p
weight-refilled p z pk rs = ground (arith, sub64-of_le p.reserve_qty (min p.peak_qty p.reserve_qty))
