-- ===== src/Gateway/Events.antt =====
-- src/events: the messages that come in and the events that go out. A symbol is a std::string, a
-- parameter of the types.
use lob_engine.Prelude.{ℕ, List}
use lob_engine.Core.{OrderId, Side, OrderType, RejectReason, Price, Quantity, Timestamp}

pub data OrderAction : Type 0 where
  new_order cancel_order : OrderAction

pub record OrderMessage (Symbol : Type 0) : Type 0 where
  pub order_id : OrderId
  pub client_id : ℕ
  pub symbol : Symbol
  pub side : Side
  pub type : OrderType
  pub quantity : Quantity
  pub price : Price
  pub stop_price : Price
  pub peak_qty : Quantity
  pub timestamp : Timestamp
  pub action : OrderAction

pub record OrderAcceptedEvent (Symbol : Type 0) : Type 0 where
  pub timestamp : Timestamp
  pub symbol : Symbol
  pub order_id : OrderId
  pub client_id : ℕ
  pub price : Price
  pub quantity : Quantity
  pub side : Side
  pub type : OrderType

pub record OrderRejectedEvent (Symbol : Type 0) : Type 0 where
  pub timestamp : Timestamp
  pub symbol : Symbol
  pub order_id : OrderId
  pub client_id : ℕ
  pub reason : RejectReason

pub record OrderCanceledEvent (Symbol : Type 0) : Type 0 where
  pub timestamp : Timestamp
  pub symbol : Symbol
  pub order_id : OrderId
  pub remaining_qty : Quantity

pub record TradeExecutedEvent (Symbol : Type 0) : Type 0 where
  pub timestamp : Timestamp
  pub symbol : Symbol
  pub buy_order_id : OrderId
  pub sell_order_id : OrderId
  pub price : Price
  pub quantity : Quantity

-- 0 in `best_bid` or `best_ask` stands for none.
pub record BookUpdatedEvent (Symbol : Type 0) : Type 0 where
  pub timestamp : Timestamp
  pub symbol : Symbol
  pub best_bid : Price
  pub best_ask : Price
  pub spread : Price
  pub bid_levels : ℕ
  pub ask_levels : ℕ

pub record SnapshotEvent (Symbol : Type 0) : Type 0 where
  pub timestamp : Timestamp
  pub symbol : Symbol
  pub last_trade_price : Price
  pub best_bid : Price
  pub best_ask : Price
  pub bids : List (Price × Quantity)
  pub asks : List (Price × Quantity)

pub data ExchangeEvent (Symbol : Type 0) : Type 0 where
  accepted : OrderAcceptedEvent Symbol → ExchangeEvent Symbol
  rejected : OrderRejectedEvent Symbol → ExchangeEvent Symbol
  canceled : OrderCanceledEvent Symbol → ExchangeEvent Symbol
  traded : TradeExecutedEvent Symbol → ExchangeEvent Symbol
  book_updated : BookUpdatedEvent Symbol → ExchangeEvent Symbol
  snapshot_taken : SnapshotEvent Symbol → ExchangeEvent Symbol
