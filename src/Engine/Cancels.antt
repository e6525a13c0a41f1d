-- ===== src/Engine/Cancels.antt =====
-- The cancels of src/engine/matching_engine.cpp: what they keep, and their changes of the engine.
use lob_engine.Prelude.{
  ◌≤◌, ◌≡◌, refl, sym, subst, some, arith, Bool-cases, Option-cases, inl, inr, Bool,
}
use lob_engine.Core.{OrderId, Order, CancelOrderEvent, is_resting}
use lob_engine.Book.{find_order, find_id, cancel_order}
use lob_engine.Book.IdMap.{find_id-id}
use lob_engine.Book.Cancel.{cancel_order-IsCoherent, cancel_order-Unused, id_map-cancel_order}
use lob_engine.Engine.State.{Engine, no_result}
use lob_engine.Engine.Submit.{take_stop, process_cancel, cancel_resting}
use lob_engine.Engine.Weight.{weights, weights-erase_id, engine_weight}
use lob_engine.Engine.Settle.{used_ne}
use lob_engine.Engine.Valid.{Frame, Valid, Valid-book}
use lob_engine.Engine.Trace.{Change, Rules, Traced, Traced-still, Traced-silent}

-- Cancelling a book order by its id keeps the engine valid and raises no weight.
pub cancelled_book-Valid :
    {h : Frame} (e : Engine) (id : OrderId) (o : Order)
    → Valid h e
    → find_id id e.book.id_map ≡ some o
    → Valid h (record e { book = (cancel_order e.book id).0 })
      × (weights (cancel_order e.book id).0.id_map ≤ weights e.book.id_map)
cancelled_book-Valid {h} e id o v held =
    let same = find_id-id id e.book.id_map o held in
    let held' : find_id o.id e.book.id_map ≡ some o =
      subst (λ i. find_id i e.book.id_map ≡ some o) (sym same) held in
    let c = cancel_order-IsCoherent e.book o v.coherent held' in
    let w = id_map-cancel_order e.book o v.coherent held' in
    subst
      (λ i.
        Valid h (record e { book = (cancel_order e.book i).0 })
        × (weights (cancel_order e.book i).0.id_map ≤ weights e.book.id_map))
      same
      (
        Valid-book e (cancel_order e.book o.id).0 v c
            (λ i u. cancel_order-Unused e.book o v.coherent held' i (used_ne o i held' u) u),
        rw w (weights-erase_id o.id e.book.id_map),
      )

pub cancel_resting-Valid :
    {h : Frame} (e : Engine) (c : CancelOrderEvent)
    → Valid h e
    → Valid h (cancel_resting e c).0 × (engine_weight (cancel_resting e c).0 ≤ engine_weight e)
unfolding cancel_resting find_order
cancel_resting-Valid e c v = elim (Option-cases (find_id c.order_id e.book.id_map)) [
  | inl n ↦ rw (n, cancel_resting) (v, omega arith)
  | inr (o, n) ↦ elim (Bool-cases (is_resting o)) [
    | inl t ↦
        let (v', w) = cancelled_book-Valid e c.order_id o v n in
        rw (n, cancel_resting) (rw t (v', omega (arith, w)))
    | inr t ↦ rw (n, cancel_resting) (rw t (v, omega arith))
  ]
]

-- The order that an id finds is taken out of the book.
pub removed-Change :
    {plain : Bool} (rules : Rules) (e : Engine) (id : OrderId) (o : Order)
    → rules.withdraws id
    → find_id id e.book.id_map ≡ some o
    → Change plain rules e (record e { book = (cancel_order e.book id).0 })
removed-Change {plain} rules e id o k held =
    let same = find_id-id id e.book.id_map o held in
    subst (λ i. Change plain rules e (record e { book = (cancel_order e.book i).0 })) same
      (Change.removed o (subst rules.withdraws (sym same) k)
        (subst (λ i. find_id i e.book.id_map ≡ some o) (sym same) held) refl)

cancel_resting-Traced :
    {plain : Bool} (rules : Rules) (e : Engine) (c : CancelOrderEvent)
    → rules.withdraws c.order_id
    → Traced plain rules e no_result (cancel_resting e c).0 (cancel_resting e c).1
unfolding cancel_resting find_order
cancel_resting-Traced rules e c k = elim (Option-cases (find_id c.order_id e.book.id_map)) [
  | inl n ↦ rw (n, cancel_resting) (Traced-still e no_result _ refl)
  | inr (o, n) ↦ elim (Bool-cases (is_resting o)) [
    | inl t ↦
        rw (n, cancel_resting)
          (rw t (
            Traced-silent (removed-Change rules e c.order_id o k n)
              (Traced-still _ no_result _ refl)))
    | inr t ↦ rw (n, cancel_resting) (rw t (Traced-still e no_result _ refl))
  ]
]

-- A cancel is a trace without a trade.
pub process_cancel-Traced :
    {plain : Bool} (rules : Rules) (e : Engine) (c : CancelOrderEvent)
    → rules.withdraws c.order_id
    → Traced plain rules e no_result (process_cancel e c).0 (process_cancel e c).1
unfolding process_cancel
process_cancel-Traced rules e c k = elim (Option-cases (take_stop c.order_id e.pending_stops)) [
  | inl n ↦ rw (n, process_cancel) (cancel_resting-Traced rules e c k)
  | inr ((s, rest), n) ↦
      rw (n, process_cancel)
        (Traced-silent (Change.stop_cancelled c.order_id s rest k n refl)
          (Traced-still _ no_result _ refl))
]
