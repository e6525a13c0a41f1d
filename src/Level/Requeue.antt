-- ===== src/Level/Requeue.antt =====
-- A level whose order is removed, put back under the same id and removed again: what a modify that
-- raises the quantity, followed by a cancel, does to it.
use lob_engine.Prelude.{
  ◌≡◌, ◌∙◌, ap, true, false, List, [], ◌∷◌, ◌++◌, ◌==◌, member, erase_first, arith,
}
use lob_engine.Core.{OrderId, Quantity}
use lob_engine.Level.{PriceLevel, push_back, drain_cancelled, remove, empty}
use lob_engine.Level.Fifo.{live_ids, IsLevel, drain_keeps}
use lob_engine.Level.Refine.{push_back_refines, remove_refines, empty_refines, remove_marked}

abbrev pub requeued : PriceLevel → OrderId → Quantity → Quantity → PriceLevel
requeued l id old_qty new_qty = push_back (empty (remove l id old_qty)).1 id new_qty

requeued_marked :
    (l : PriceLevel) (id x : OrderId) (xs : List OrderId) (old_qty new_qty : Quantity)
    → member id l.cancelled ≡ false
    → live_ids l ≡ x ∷ xs
    → (x == id) ≡ false
    → member id (requeued l id old_qty new_qty).cancelled ≡ true
unfolding push_back empty drain_cancelled remove
requeued_marked l id x xs old_qty new_qty n h ne =
    rw n (drain_keeps l.queue l.cancelled id x xs n h ne)

-- An order that is not the first of its level, once removed and put back, cannot be removed: after
-- a second removal the queue still ends in its id.
pub requeued_stays :
    (l : PriceLevel) (id x : OrderId) (xs : List OrderId) (old_qty new_qty q : Quantity)
    → IsLevel l
    → member id l.cancelled ≡ false
    → live_ids l ≡ x ∷ xs
    → (x == id) ≡ false
    → member id xs ≡ true
    → live_ids (remove (requeued l id old_qty new_qty) id q) ≡ erase_first id (x ∷ xs) ++ id ∷ []
requeued_stays l id x xs old_qty new_qty q v n h ne m =
    let r = remove l id old_qty in
    let here : member id (live_ids l) ≡ true = ground arith in
    let (e, w) = remove_refines l id old_qty v n here in
    let (_, e', w') = empty_refines r w in
    let (f, _) = push_back_refines (empty r).1 id new_qty w' in
    remove_marked (requeued l id old_qty new_qty) id q
      (requeued_marked l id x xs old_qty new_qty n h ne)
    ∙ f
    ∙ ap (λ ids. ids ++ id ∷ []) (e' ∙ e ∙ ap (erase_first id) h)
