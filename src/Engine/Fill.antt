-- ===== src/Engine/Fill.antt =====
-- src/engine/matching_engine.cpp: `execute_fill`, `replenish_iceberg` and the stop triggers.
-- The methods from here to `process_new_order` call one another: each takes the inner
-- `process_new_order` as an argument.
use lob_engine.Prelude.{
  Bool, ◌&&◌, ◌||◌, none, some, List, [], ◌∷◌, ◌++◌, pos, ltb, leb_ℤ, eqb_ℤ, ◌==◌, if◌then◌else◌,
  min, Run, ok, ◌>>=◌, sub64,
}
use lob_engine.Core.{
  Quantity, Price, Side, OrderType, OrderStatus, AggressorSide, Order, is_buy, is_sell, is_iceberg,
  Trade,
}
use lob_engine.Level.{pop_front, push_back}
use lob_engine.Book.{
  OrderBook, cancel_order, get_level, put_level, adjust_order, update_order_quantity,
  reduce_level_volume,
}
use lob_engine.Engine.State.{append_result, push_trade, MatchResult, Engine}

-- The side whose best level an order is matched against.
abbrev pub opposite : Side → Side
opposite Side.buy = Side.sell
opposite Side.sell = Side.buy

abbrev pub aggressor_side : Side → AggressorSide
aggressor_side Side.buy = AggressorSide.buy
aggressor_side Side.sell = AggressorSide.sell

-- The trade's timestamp keeps its default.
abbrev pub fill_trade : Order → Order → Quantity → Trade
fill_trade a p fill_qty = record {
  aggressor_id = a.id;
  passive_id = p.id;
  price = p.price;
  quantity = fill_qty;
  timestamp = 0;
  aggressor_side = aggressor_side a.side;
}

-- The level's part of `replenish_iceberg`: off the front, and on at the back with the new peak.
abbrev pub new_peak : Order → Quantity
new_peak p = min p.peak_qty p.reserve_qty

unfoldable pub replenish_iceberg : OrderBook → Order → Quantity → Run OrderBook
replenish_iceberg b p filled_qty = elim (get_level b p.side p.price) [
  | none ↦ ok b
  | some l ↦ do
    popped ← pop_front l filled_qty
    let refilled = record p {
      reserve_qty = sub64 p.reserve_qty (new_peak p);
      quantity = new_peak p;
    }
    let b1 = put_level b p.side p.price (push_back popped p.id (new_peak p))
    let b2 = record b1 { id_map = adjust_order p.id (λ _. refilled) b1.id_map }
    ok (update_order_quantity b2 p.id (new_peak p))
]

-- What `execute_fill` does with the passive order after the trade; `p` has its new quantity.
unfoldable pub settle_passive : OrderBook → Order → Quantity → Run OrderBook
unfolding replenish_iceberg
settle_passive b p fill_qty =
    if p.quantity == 0 && is_iceberg p && ltb 0 p.reserve_qty
    then replenish_iceberg b p fill_qty
    else if p.quantity == 0
    then ok
        (cancel_order
          (record b {
            id_map = adjust_order p.id (λ o. record o { status = OrderStatus.filled }) b.id_map;
          })
          p.id).0
    else ok (update_order_quantity (reduce_level_volume b p.side p.price fill_qty) p.id p.quantity)

-- `stop.is_buy() && last >= stop.stop_price`, or `stop.is_sell() && last <= stop.stop_price`
unfoldable pub is_triggered : Price → Order → Bool
is_triggered last stop =
    is_buy stop && leb_ℤ stop.stop_price last || is_sell stop && leb_ℤ last stop.stop_price

-- The order that a triggered stop becomes.
unfoldable pub converted : Order → Order
converted stop = elim stop.type [
  | OrderType.stop ↦ record stop {
    status = OrderStatus.triggered;
    type = OrderType.market;
    price = pos 0;
  }
  | _ ↦ record stop { status = OrderStatus.triggered; type = OrderType.limit }
]

abbrev pub Matched : Type 0
Matched = Engine × Order × MatchResult

module _ (new_order : Engine → Order → Run (Engine × MatchResult)) where
  unfoldable pub process_triggered_stop : Engine → Order → MatchResult → Run (Engine × MatchResult)
  process_triggered_stop e stop r = do
    (e', sub) ← new_order e (converted stop)
    ok (e', append_result r sub)

  -- The loop of `evaluate_stop_triggers` over the stops that were swapped out.
  unfoldable pub trigger_stops :
      Price → List Order → Engine → MatchResult → Run (Engine × MatchResult)
  unfolding process_triggered_stop
  trigger_stops last [] e r = ok (e, r)
  trigger_stops last (stop ∷ working) e r = do
    (e', r') ←
        if is_triggered last stop
        then process_triggered_stop e stop r
        else ok (record e { pending_stops = e.pending_stops ++ stop ∷ [] }, r)
    trigger_stops last working e' r'

  unfoldable pub evaluate_stop_triggers : Engine → MatchResult → Run (Engine × MatchResult)
  unfolding trigger_stops
  evaluate_stop_triggers e r = elim e.pending_stops [
    | [] ↦ ok (e, r)
    | stop ∷ rest ↦
        if eqb_ℤ e.book.last_trade_price (pos 0)
        then ok (e, r)
        else trigger_stops e.book.last_trade_price (stop ∷ rest) (record e { pending_stops = [] }) r
  ]

  unfoldable pub execute_fill : Engine → Order → Order → Quantity → MatchResult → Run Matched
  unfolding settle_passive evaluate_stop_triggers
  execute_fill e a p fill_qty r = do
    let p' = record p { quantity = sub64 p.quantity fill_qty }
    let b = record (e.book) {
      id_map = adjust_order p.id (λ _. p') e.book.id_map;
      last_trade_price = p.price;
    }
    b' ← settle_passive b p' fill_qty
    (e', r') ←
        evaluate_stop_triggers (record e { book = b' }) (push_trade r (fill_trade a p fill_qty))
    ok (e', record a { quantity = sub64 a.quantity fill_qty }, r')
