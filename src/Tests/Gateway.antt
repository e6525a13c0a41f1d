-- ===== src/Tests/Gateway.antt =====
-- Runs of the exchange manager, with numbers for the symbols.
use lob_engine.Prelude.{
  ℕ, ◌≡◌, refl, ◌==◌, ==_iff, [], ◌∷◌, ◌&&◌, some, ok, false, pos, arith, if◌then◌else◌,
}
use lob_engine.Core.{Side, OrderType, OrderStatus}
use lob_engine.Book.{insert_order, store, erase_id}
use lob_engine.Engine.State.{Engine, MatchResult, initial}
use lob_engine.Engine.Submit.{submit}
use lob_engine.Engine.Valid.{Valid}
use lob_engine.Gateway.Events.{OrderAction, OrderMessage}
use lob_engine.Gateway.Exchange.{
  ExchangeManager, find_instrument, process, translate_result, is_new_order, no_rejections,
  event_of,
}
use lob_engine.Gateway.Routing.{process_routes}
use lob_engine.Gateway.Translate.{tally, cancelled_count, tally-translate_result}
use lob_engine.Tests.Data.{engine_of_sells, one_in_flight, book_of_sells, nothing_held}

abbrev buy_message : OrderMessage ℕ
buy_message = record {
  order_id = 4;
  client_id = 70;
  symbol = 2;
  side = Side.buy;
  type = OrderType.limit;
  quantity = 12;
  price = pos 100;
  stop_price = pos 0;
  peak_qty = 0;
  timestamp = 0;
  action = OrderAction.new_order;
}

abbrev two_instruments : ExchangeManager ℕ
two_instruments =
    record { symbol = 1; engine = initial } ∷ record { symbol = 2; engine = engine_of_sells } ∷ []

process_routes_example :
    (r : Engine × MatchResult) × (m' : ExchangeManager ℕ) × (submit 200 engine_of_sells
        (event_of 5 buy_message)
      ≡ ok r)
    × (process ◌==◌ 200 5 6 two_instruments buy_message
        ≡ ok (m', translate_result 6 buy_message r.1 r.0.book))
    × (find_instrument ◌==◌ 2 m' ≡ some r.0)
    × Valid nothing_held r.0
    × ((s : ℕ)
        → (2 == s) ≡ false
        → find_instrument ◌==◌ s m' ≡ find_instrument ◌==◌ s two_instruments)
unfolding find_instrument event_of insert_order store erase_id
process_routes_example =
    process_routes ◌==◌ ==_iff 200 5 6 nothing_held two_instruments buy_message engine_of_sells refl
      one_in_flight (omega arith)

abbrev one_cancel : MatchResult
one_cancel = record {
  trades = [];
  reports =
      record {
        order_id = 4;
        status = OrderStatus.cancelled;
        cumulative_qty = 0;
        remaining_qty = 3;
        avg_fill_price = pos 0;
        timestamp = 1;
      }
      ∷ [];
  rejections = [];
}

tally-translate_result_example :
    tally (translate_result 6 buy_message one_cancel book_of_sells) ≡ record {
      accepts = if is_new_order OrderAction.new_order && no_rejections [] then 1 else 0;
      rejects = 0;
      cancels = cancelled_count one_cancel.reports;
      trades = 0;
      updates = 1;
      snapshots = 0;
    }
tally-translate_result_example = tally-translate_result 6 buy_message one_cancel book_of_sells
