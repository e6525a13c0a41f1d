-- ===== src/Engine/NewOrder.antt =====
-- src/engine/matching_engine.cpp: `process_new_order`. One fuel bounds the depth of the calls and
-- the rounds of each loop.
use lob_engine.Prelude.{
  ℕ, zero, suc, Bool, true, false, ◌&&◌, ◌||◌, not, [], ◌∷◌, ◌++◌, pos, ltb, eqb_ℤ, if◌then◌else◌,
  Run, ok, out_of_fuel, ◌>>=◌, sub64,
}
use lob_engine.Core.{OrderType, OrderStatus, Order}
use lob_engine.Book.{insert_order}
use lob_engine.Engine.State.{no_result, MatchResult, Engine}
use lob_engine.Engine.Fill.{is_triggered, process_triggered_stop}
use lob_engine.Engine.Match.{match_limit, match_market}

abbrev pub book_if : Bool → Engine → Order → Engine
book_if true e o = record e { book = insert_order e.book o }
book_if false e o = e

-- `last_trade_price != 0` and the trigger condition.
abbrev pub triggered_now : Engine → Order → Bool
triggered_now e o =
    not (eqb_ℤ e.book.last_trade_price (pos 0)) && is_triggered e.book.last_trade_price o

module _ (new_order : Engine → Order → Run (Engine × MatchResult)) where
  -- The stop branch of `process_new_order`.
  unfoldable pub new_stop : Engine → Order → Run (Engine × MatchResult)
  unfolding process_triggered_stop
  new_stop e o =
      if triggered_now e o
      then process_triggered_stop new_order e o no_result
      else ok (record e { pending_stops = e.pending_stops ++ o ∷ [] }, no_result)

  unfoldable pub new_limit : ℕ → Engine → Order → Run (Engine × MatchResult)
  unfolding match_limit
  new_limit f e o = do
    (e', o', r) ← match_limit new_order f e o no_result
    ok (book_if (ltb 0 o'.quantity) e' o', r)

  unfoldable pub new_market : ℕ → Engine → Order → Run (Engine × MatchResult)
  unfolding match_market
  new_market f e o = do (e', _, r) ← match_market new_order f e o no_result; ok (e', r)

  unfoldable pub new_iceberg : ℕ → Engine → Order → Run (Engine × MatchResult)
  unfolding match_limit
  new_iceberg f e o = do
    let shown = record o { reserve_qty = sub64 o.quantity o.peak_qty; quantity = o.peak_qty }
    (e', o', r) ← match_limit new_order f e shown no_result
    ok (book_if (ltb 0 o'.quantity || ltb 0 o'.reserve_qty) e' o', r)

  unfoldable pub new_by_type : OrderType → ℕ → Engine → Order → Run (Engine × MatchResult)
  unfolding new_limit new_market new_stop new_iceberg
  new_by_type OrderType.limit f e o = new_limit f e o
  new_by_type OrderType.market f e o = new_market f e o
  new_by_type OrderType.stop f e o = new_stop e o
  new_by_type OrderType.stop_limit f e o = new_stop e o
  new_by_type OrderType.iceberg f e o = new_iceberg f e o

unfoldable pub process_new_order : ℕ → Engine → Order → Run (Engine × MatchResult)
unfolding new_by_type
process_new_order zero e o = out_of_fuel
process_new_order (suc f) e o =
    new_by_type (process_new_order f) o.type f e (record o { status = OrderStatus.resting })
