-- ===== src/Engine/Submit.antt =====
-- src/engine/matching_engine.cpp: cancel, modify, replace and `submit`.
use lob_engine.Prelude.{
  ℕ, Bool, ◌&&◌, ◌||◌, not, Option, none, some, List, [], ◌∷◌, pos, ltb, eqb_ℤ, ◌==◌, if◌then◌else◌,
  Run, ok, ◌>>=◌, add64, sub64,
}
use lob_engine.Core.{
  OrderId, Quantity, Timestamp, OrderStatus, RejectReason, Order, is_resting, ExecutionReport,
  Rejection, CancelOrderEvent, ModifyOrderEvent, ReplaceOrderEvent, OrderEvent,
}
use lob_engine.Book.{
  OrderBook, insert_order, cancel_order, find_order, has_order, update_order_quantity,
  reduce_level_volume,
}
use lob_engine.Engine.State.{
  no_result, append_result, push_report, push_rejection, MatchResult, Engine,
}
use lob_engine.Engine.NewOrder.{process_new_order}

-- The first pending stop with an id, and the others.
unfoldable pub take_stop : OrderId → List Order → Option (Order × List Order)
take_stop id [] = none
take_stop id (o ∷ os) =
    let rest = take_stop id os in
    if o.id == id
    then some (o, os)
    else elim rest [ none ↦ none | some (s, os') ↦ some (s, o ∷ os') ]

abbrev pub cancel_report : CancelOrderEvent → Quantity → ExecutionReport
cancel_report c remaining = record {
  order_id = c.order_id;
  status = OrderStatus.cancelled;
  cumulative_qty = 0;
  remaining_qty = remaining;
  avg_fill_price = pos 0;
  timestamp = c.timestamp;
}

abbrev pub rejection : OrderId → RejectReason → Timestamp → Rejection
rejection id why t = record { order_id = id; reason = why; timestamp = t }

-- The part of `process_cancel` on the book.
unfoldable pub cancel_resting : Engine → CancelOrderEvent → Engine × MatchResult
cancel_resting e c = elim (find_order e.book c.order_id) [
  | none ↦
      (e, push_rejection no_result (rejection c.order_id RejectReason.order_not_found c.timestamp))
  | some o ↦
      if is_resting o
      then (
        record e { book = (cancel_order e.book c.order_id).0 },
        push_report no_result (cancel_report c o.quantity),
      )
      else (
        e,
        push_rejection no_result
            (rejection c.order_id RejectReason.order_not_cancellable c.timestamp),
      )
]

unfoldable pub process_cancel : Engine → CancelOrderEvent → Engine × MatchResult
unfolding cancel_resting
process_cancel e c = elim (take_stop c.order_id e.pending_stops) [
  | some (s, rest) ↦
      (record e { pending_stops = rest }, push_report no_result (cancel_report c s.quantity))
  | none ↦ cancel_resting e c
]

abbrev pub price_changed : ModifyOrderEvent → Order → Bool
price_changed m o = not (eqb_ℤ m.new_price (pos 0)) && not (eqb_ℤ m.new_price o.price)

abbrev pub qty_increased : ModifyOrderEvent → Order → Bool
qty_increased m o = not (m.new_quantity == 0) && ltb o.quantity m.new_quantity

abbrev pub qty_reduced : ModifyOrderEvent → Order → Bool
qty_reduced m o = not (m.new_quantity == 0) && ltb m.new_quantity o.quantity

-- The order that is put back after a change of price or a larger quantity.
abbrev pub modified : ModifyOrderEvent → Order → Order
modified m o = record o {
  price = if eqb_ℤ m.new_price (pos 0) then o.price else m.new_price;
  quantity = if m.new_quantity == 0 then o.quantity else m.new_quantity;
  timestamp = m.timestamp;
}

-- The part of `process_modify` behind its guard.
unfoldable pub modify_book : OrderBook → ModifyOrderEvent → Order → OrderBook
modify_book b m o =
    if price_changed m o || qty_increased m o
    then insert_order (cancel_order b m.order_id).0 (modified m o)
    else if qty_reduced m o
    then reduce_level_volume (update_order_quantity b m.order_id m.new_quantity) o.side o.price
        (sub64 o.quantity m.new_quantity)
    else b

unfoldable pub process_modify : Engine → ModifyOrderEvent → Engine × MatchResult
unfolding modify_book
process_modify e m = elim (find_order e.book m.order_id) [
  | none ↦ (e, push_rejection no_result (rejection m.order_id RejectReason.order_not_found 0))
  | some o ↦
      if is_resting o
      then (record e { book = modify_book e.book m o }, no_result)
      else (e, push_rejection no_result (rejection m.order_id RejectReason.order_not_cancellable 0))
]

unfoldable pub process_replace : ℕ → Engine → ReplaceOrderEvent → Run (Engine × MatchResult)
unfolding process_new_order
process_replace f e x =
    if has_order e.book x.old_order_id
    then process_new_order f (record e { book = (cancel_order e.book x.old_order_id).0 })
        x.new_order
      >>= (λ m. ok (m.0, append_result no_result m.1))
    else ok (e, push_rejection no_result (rejection x.old_order_id RejectReason.order_not_found 0))

unfoldable pub dispatch : ℕ → Engine → OrderEvent → Run (Engine × MatchResult)
unfolding process_new_order process_cancel process_modify process_replace
dispatch f e (OrderEvent.new_order_event o) = process_new_order f e o
dispatch f e (OrderEvent.cancel_order_event c) = ok (process_cancel e c)
dispatch f e (OrderEvent.modify_order_event m) = ok (process_modify e m)
dispatch f e (OrderEvent.replace_order_event x) = process_replace f e x

unfoldable pub submit : ℕ → Engine → OrderEvent → Run (Engine × MatchResult)
unfolding dispatch
submit f e ev = dispatch f (record e { sequence = add64 e.sequence 1 }) ev

-- A sequence of submissions, and all that they return.
unfoldable pub submit_all : ℕ → Engine → List OrderEvent → Run (Engine × List MatchResult)
unfolding submit
submit_all f e [] = ok (e, [])
submit_all f e (ev ∷ evs) = do
  (e', r) ← submit f e ev
  (e'', rs) ← submit_all f e' evs
  ok (e'', r ∷ rs)
