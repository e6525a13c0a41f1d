-- ===== src/Engine/Uncrossed.antt =====
-- The two sides of the book against each other, along the traces of src/engine/matching_engine.cpp.
use lob_engine.Prelude.{
  ℕ, ◌≡◌, refl, sym, subst, true, false, List, ◌<◌, ◌+◌, eqb_ℤ_iff, arith, Bool-cases, inl, inr, ok,
  member, ◌⊎◌,
}
use lob_engine.Core.{OrderId, Price, Side, Order, Trade, OrderEvent}
use lob_engine.Book.{OrderBook, before, levels, best_level, insert_order, cancel_order}
use lob_engine.Book.Sound.{find-LevelAt}
use lob_engine.Book.Coherent.{IsCoherent, view_at, lies_at, same_side_eq}
use lob_engine.Book.Insert.{insert_order-IsCoherent, view_at-insert_order}
use lob_engine.Book.Cancel.{cancel_order-IsCoherent, other_member}
use lob_engine.Engine.State.{Engine, MatchResult}
use lob_engine.Engine.Fill.{opposite}
use lob_engine.Engine.Match.{beyond_limit}
use lob_engine.Book.Uncrossed.{
  IsUncrossed, BestsApart, first-find, Shrinks-IsUncrossed, best_price, none_live,
  IsUncrossed-BestsApart,
}
use lob_engine.Engine.Ended.{IsFinished}
use lob_engine.Engine.Submit.{submit_all}
use lob_engine.Engine.Weight.{engine_weight}
use lob_engine.Engine.Valid.{Valid}
use lob_engine.Engine.Trace.{Change, Trace, Rules}
use lob_engine.Engine.History.{fresh, IsFresh, IsWithin, history_load, submit_all-refines}

side_cases : (s : Side) → (s ≡ Side.buy) ⊎ (s ≡ Side.sell)
side_cases Side.buy = inl refl
side_cases Side.sell = inr refl

beyond_further :
    (a : Order) (k q : Price)
    → before (opposite a.side) q k ≡ false
    → beyond_limit a k ≡ true
    → beyond_limit a q ≡ true
unfolding beyond_limit
beyond_further a k q n h = elim (side_cases a.side) [
  | inl s ↦ rw s (let n' = rw s at n in let h' = rw s at h in ground arith)
  | inr s ↦ rw s (let n' = rw s at n in let h' = rw s at h in ground arith)
]

-- When matching has ended with a part of the order left, every live order of the other side is
-- beyond the limit.
all_beyond :
    (e : Engine) (a : Order) (q : Price) (j : OrderId)
    → IsCoherent e.book
    → IsFinished e a
    → 0 < a.quantity
    → member j (view_at e.book (opposite a.side) q) ≡ true
    → beyond_limit a q ≡ true
unfolding best_level
all_beyond e a q j v (inl z) w h = absurd (omega (arith, z, w))
all_beyond e a q j v (inr (inl n)) w h =
    absurd (cc (none_live (levels (opposite a.side) e.book) q j n, h))
all_beyond e a q j v (inr (inr (k, l, best, worse))) w h =
    let s = opposite a.side in
    let here = first-find (levels s e.book) k l best in
    let priced = (find-LevelAt k (levels s e.book) (v.sound s) here).priced in
    beyond_further a k q (best_price e.book s k q l j v best h) (rw priced at worse)

-- A live id of the new book is one of the old, or the queue is that of the order.
old_or_own :
    (b : OrderBook) (a : Order) (s : Side) (p : Price) (i : OrderId)
    → IsCoherent b
    → member i (view_at (insert_order b a) s p) ≡ true
    → (member i (view_at b s p) ≡ true) ⊎ ((a.side ≡ s) × (a.price ≡ p))
old_or_own b a s p i v h = elim (Bool-cases (lies_at s p a)) [
  | inl t ↦ inr (same_side_eq a.side s (ground arith), (eqb_ℤ_iff a.price p).0 (ground arith))
  | inr t ↦ inl (rw (view_at-insert_order b a s p v, t) at h)
]

-- Resting an order that matching is done with.
rested-IsUncrossed :
    (e : Engine) (a : Order)
    → IsCoherent e.book
    → IsUncrossed e.book
    → IsFinished e a
    → 0 < a.quantity
    → IsUncrossed (insert_order e.book a)
unfolding beyond_limit
rested-IsUncrossed e a v u f w p q i j x y = elim (old_or_own e.book a Side.buy p i v x) [
  | inl x' ↦ elim (old_or_own e.book a Side.sell q j v y) [
    | inl y' ↦ u p q i j x' y'
    | inr (s, k) ↦
        let far = all_beyond e a p i v f w (rw s x') in let h = rw (s, k) at far in ground arith
  ]
  | inr (s, k) ↦ elim (old_or_own e.book a Side.sell q j v y) [
    | inl y' ↦
        let far = all_beyond e a q j v f w (rw s y') in let h = rw (s, k) at far in ground arith
    | inr (s', _) ↦ absurd (cc (s, s'))
  ]
]

-- A book that is in order.
abbrev IsOrderly : OrderBook → Type 0
IsOrderly b = IsCoherent b × IsUncrossed b

Change-IsOrderly :
    {rules : Rules} {e e' : Engine} → Change true rules e e' → IsOrderly e.book → IsOrderly e'.book
Change-IsOrderly {e = e} (Change.rested a k f w n x) (v, u) =
    subst (λ e. IsOrderly e.book) (sym x)
      (
        insert_order-IsCoherent e.book a v n.absent (n.clear a.side a.price),
        rested-IsUncrossed e a v u f w,
      )
Change-IsOrderly (Change.rested_unfilled a k t n x) (v, u) = absurd (cc t)
Change-IsOrderly {e = e} (Change.removed o k held x) (v, u) =
    subst (λ e. IsOrderly e.book) (sym x)
      (
        cancel_order-IsCoherent e.book o v held,
        Shrinks-IsUncrossed e.book (cancel_order e.book o.id).0
            (λ s p i h. (other_member e.book o v held s p i h).1) u,
      )
Change-IsOrderly (Change.parked s k x) w = subst (λ e. IsOrderly e.book) (sym x) w
Change-IsOrderly (Change.swapped_out k x) w = subst (λ e. IsOrderly e.book) (sym x) w
Change-IsOrderly (Change.stop_cancelled id s rest k h x) w = subst (λ e. IsOrderly e.book) (sym x) w
Change-IsOrderly (Change.counted x) w = subst (λ e. IsOrderly e.book) (sym x) w

-- Along a trace without an unfilled reserve put to rest, a coherent book without a bid at or above
-- an ask stays one.
pub Trace-IsUncrossed :
    {rules : Rules} {e e' : Engine} {ts : List Trade}
    → Trace true rules e ts e'
    → IsCoherent e.book
    → IsUncrossed e.book
    → IsUncrossed e'.book
Trace-IsUncrossed Trace.here v u = u
Trace-IsUncrossed (Trace.silent c x) v u =
    let (v', u') = Change-IsOrderly c (v, u) in Trace-IsUncrossed x v' u'
Trace-IsUncrossed (Trace.fill {e} {e'} f x) v u =
    Trace-IsUncrossed x f.coherent (Shrinks-IsUncrossed e.book e'.book f.shrinks u)

-- On a valid engine whose live bids are all below its live asks, any history of new orders other
-- than icebergs, cancels and replacements, whose new ids are all different and not used before,
-- runs through on enough fuel and leaves every live bid below every live ask, and the best bid
-- below the best ask, if both sides have one.
pub submit_all-IsUncrossed :
    (fuel : ℕ) (used : List OrderId) (evs : List OrderEvent) (e : Engine)
    → Valid (fresh used) e
    → IsUncrossed e.book
    → IsFresh used evs
    → IsWithin true evs
    → engine_weight e + history_load evs + 1 < fuel
    → (a : Engine × List MatchResult) × (submit_all fuel e evs ≡ ok a)
      × IsUncrossed a.0.book
      × BestsApart a.0.book
submit_all-IsUncrossed fuel used evs e v u f p w =
    let (a, done, c, t) = submit_all-refines true fuel used evs e v f p w in
    let u' = Trace-IsUncrossed t v.coherent u in (a, done, u', IsUncrossed-BestsApart c u')
