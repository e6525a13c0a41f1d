-- ===== src/Gateway/Exchange.antt =====
-- src/gateway/exchange_manager.cpp: one engine per symbol, the routing of a message to it, and the
-- translation of its result. Parameters: the strings with their comparison, the symbol of an
-- instrument ("STOCK_" + std::to_string(i)), and the readings of the clock, one for each call of
-- `now_ns`.
use lob_engine.Prelude.{
  ℕ, zero, suc, ◌+◌, Bool, true, false, ◌&&◌, Option, none, some, List, [], ◌∷◌, ◌++◌, map, pos,
  ◌==◌, if◌then◌else◌, Run, ok, ◌>>=◌,
}
use lob_engine.Core.{
  Order, OrderEvent, OrderStatus, AggressorSide, Trade, ExecutionReport, Rejection, Timestamp,
  Price, Quantity, OrderId,
}
use lob_engine.Level.{PriceLevel}
use lob_engine.Book.{OrderBook, best_bid, best_ask, spread, bid_level_count, ask_level_count}
use lob_engine.Engine.State.{Engine, MatchResult, initial}
use lob_engine.Engine.Submit.{submit}
use lob_engine.Gateway.Events.{
  OrderAction, OrderMessage, SnapshotEvent, ExchangeEvent, accepted, rejected, canceled, traded,
  book_updated,
}

-- `value_or(0)`
abbrev pub value_or_zero : Option Price → Price
value_or_zero none = pos 0
value_or_zero (some p) = p

abbrev pub is_cancelled : OrderStatus → Bool
is_cancelled OrderStatus.cancelled = true
is_cancelled _ = false

abbrev pub is_new_order : OrderAction → Bool
is_new_order OrderAction.new_order = true
is_new_order OrderAction.cancel_order = false

-- The buyer's and the seller's id: the aggressor is the buyer when its side is `Buy`.
abbrev pub buyer : AggressorSide → OrderId → OrderId → OrderId
buyer AggressorSide.buy aggressor passive = aggressor
buyer _ aggressor passive = passive

abbrev pub seller : AggressorSide → OrderId → OrderId → OrderId
seller AggressorSide.buy aggressor passive = passive
seller _ aggressor passive = aggressor

-- `(price, total_volume)` of each level
abbrev pub depth : List (Price × PriceLevel) → List (Price × Quantity)
depth [] = []
depth ((p, l) ∷ m) = (p, l.total_volume) ∷ depth m

abbrev pub no_rejections : List Rejection → Bool
no_rejections [] = true
no_rejections (r ∷ rs) = false

module _ {Symbol : Type 0} where
  abbrev pub rejected_event : Timestamp → OrderMessage Symbol → Rejection → ExchangeEvent Symbol
  rejected_event ts msg r = rejected (record {
    timestamp = ts;
    symbol = msg.symbol;
    order_id = r.order_id;
    client_id = msg.client_id;
    reason = r.reason;
  })

  abbrev pub canceled_event :
      Timestamp → OrderMessage Symbol → ExecutionReport → ExchangeEvent Symbol
  canceled_event ts msg r = canceled (record {
    timestamp = ts;
    symbol = msg.symbol;
    order_id = r.order_id;
    remaining_qty = r.remaining_qty;
  })

  abbrev pub traded_event : Timestamp → OrderMessage Symbol → Trade → ExchangeEvent Symbol
  traded_event ts msg t = traded (record {
    timestamp = ts;
    symbol = msg.symbol;
    buy_order_id = buyer t.aggressor_side t.aggressor_id t.passive_id;
    sell_order_id = seller t.aggressor_side t.aggressor_id t.passive_id;
    price = t.price;
    quantity = t.quantity;
  })

  abbrev pub accepted_event : Timestamp → OrderMessage Symbol → ExchangeEvent Symbol
  accepted_event ts msg = accepted (record {
    timestamp = ts;
    symbol = msg.symbol;
    order_id = msg.order_id;
    client_id = msg.client_id;
    price = msg.price;
    quantity = msg.quantity;
    side = msg.side;
    type = msg.type;
  })

  abbrev pub book_event : Timestamp → OrderMessage Symbol → OrderBook → ExchangeEvent Symbol
  book_event ts msg b = book_updated (record {
    timestamp = ts;
    symbol = msg.symbol;
    best_bid = value_or_zero (best_bid b);
    best_ask = value_or_zero (best_ask b);
    spread = value_or_zero (spread b);
    bid_levels = bid_level_count b;
    ask_levels = ask_level_count b;
  })

  -- The loop over the reports, which passes over those that are no cancel.
  abbrev pub canceled_events :
      Timestamp → OrderMessage Symbol → List ExecutionReport → List (ExchangeEvent Symbol)
  canceled_events ts msg [] = []
  canceled_events ts msg (r ∷ rs) =
      let rest = canceled_events ts msg rs in
      if is_cancelled r.status then (canceled_event ts msg r ∷ rest) else rest

  unfoldable pub translate_result :
      Timestamp → OrderMessage Symbol → MatchResult → OrderBook → List (ExchangeEvent Symbol)
  translate_result ts msg res b =
      let accepted_now : List (ExchangeEvent Symbol) =
        if is_new_order msg.action && no_rejections res.rejections
        then accepted_event ts msg ∷ []
        else [] in
      map (rejected_event ts msg) res.rejections
      ++ (canceled_events ts msg res.reports
          ++ (map (traded_event ts msg) res.trades ++ (accepted_now ++ book_event ts msg b ∷ [])))

  -- The order of a message; `now` is what `now_ns` gives if the message has no time.
  abbrev pub order_of : Timestamp → OrderMessage Symbol → Order
  order_of now msg = record {
    id = msg.order_id;
    side = msg.side;
    type = msg.type;
    price = msg.price;
    stop_price = msg.stop_price;
    quantity = msg.quantity;
    orig_qty = msg.quantity;
    peak_qty = msg.peak_qty;
    reserve_qty = 0;
    timestamp = if msg.timestamp == 0 then now else msg.timestamp;
    status = OrderStatus.new;
  }

  -- The event that `process` submits, for each action.
  abbrev pub event_for : OrderAction → Timestamp → OrderMessage Symbol → OrderEvent
  event_for OrderAction.cancel_order now msg =
      OrderEvent.cancel_order_event (record { order_id = msg.order_id; timestamp = msg.timestamp })
  event_for OrderAction.new_order now msg = OrderEvent.new_order_event (order_of now msg)

  unfoldable pub event_of : Timestamp → OrderMessage Symbol → OrderEvent
  event_of now msg = event_for msg.action now msg

pub record Instrument (Symbol : Type 0) : Type 0 where
  pub symbol : Symbol
  pub engine : Engine

-- `instruments_`. The index from a symbol to a position is the search for the first instrument of
-- that symbol.
abbrev pub ExchangeManager : Type 0 → Type 0
ExchangeManager Symbol = List (Instrument Symbol)

module _ {Symbol : Type 0} (same : Symbol → Symbol → Bool) where
  unfoldable pub find_instrument : Symbol → ExchangeManager Symbol → Option Engine
  find_instrument s [] = none
  find_instrument s (i ∷ is) =
      let rest = find_instrument s is in if same i.symbol s then some i.engine else rest

  -- The change of the engine of the first instrument of a symbol.
  unfoldable pub put_engine : Symbol → Engine → ExchangeManager Symbol → ExchangeManager Symbol
  put_engine s e [] = []
  put_engine s e (i ∷ is) =
      let rest = put_engine s e is in
      if same i.symbol s then record i { engine = e } ∷ is else (i ∷ rest)

  unfoldable pub has_symbol : ExchangeManager Symbol → Symbol → Bool
  unfolding find_instrument
  has_symbol m s = elim (find_instrument s m) [ none ↦ false | some e ↦ true ]

  unfoldable pub process :
      ℕ
      → Timestamp
      → Timestamp
      → ExchangeManager Symbol
      → OrderMessage Symbol
      → Run (ExchangeManager Symbol × List (ExchangeEvent Symbol))
  unfolding find_instrument put_engine event_of translate_result
  process fuel now ts m msg = elim (find_instrument msg.symbol m) [
    | none ↦ ok (m, [])
    | some e ↦
        submit fuel e (event_of now msg)
        >>= (λ r. ok (put_engine msg.symbol r.0 m, translate_result ts msg r.1 r.0.book))
  ]

module _ {Symbol : Type 0} (name : ℕ → Symbol) where
  -- The constructor's loop, from instrument `i` on.
  unfoldable pub make_instruments : ℕ → ℕ → ExchangeManager Symbol
  make_instruments i zero = []
  make_instruments i (suc n) =
      record { symbol = name i; engine = initial } ∷ make_instruments (i + 1) n

abbrev pub instrument_count : ℕ
instrument_count = 25

-- `ExchangeManager(cfg)`: STOCK_1 to STOCK_25
unfoldable pub make_exchange : {Symbol : Type 0} → (ℕ → Symbol) → ExchangeManager Symbol
unfolding make_instruments
make_exchange name = make_instruments name 1 instrument_count

-- `snapshot` of one instrument
unfoldable pub snapshot : {Symbol : Type 0} → Timestamp → Instrument Symbol → SnapshotEvent Symbol
snapshot ts i = record {
  timestamp = ts;
  symbol = i.symbol;
  last_trade_price = i.engine.book.last_trade_price;
  best_bid = value_or_zero (best_bid i.engine.book);
  best_ask = value_or_zero (best_ask i.engine.book);
  bids = depth i.engine.book.bids;
  asks = depth i.engine.book.asks;
}

-- `snapshot_all`, with the clock's readings in the order of the instruments
unfoldable pub snapshot_all :
    {Symbol : Type 0} → (ℕ → Timestamp) → ℕ → ExchangeManager Symbol → List (SnapshotEvent Symbol)
unfolding snapshot
snapshot_all clock n [] = []
snapshot_all clock n (i ∷ is) = snapshot (clock n) i ∷ snapshot_all clock (n + 1) is
