-- ===== src/Serialization.antt =====
-- src/serialization/serializer.hpp and serializer.cpp. The JSON library is a parameter: for what is
-- read, its documents with the typed readings that the code asks of them, which give nothing where
-- they throw; for what is written, its values and `dump`.
pub mod Reads
pub mod Topics
use lob_engine.Prelude.{
  ℕ, Bool, Option, none, some, List, [], ◌∷◌, ◌++◌, ℤ, pos, map, if◌then◌else◌, Bytes, codes,
  same_bytes,
}
use lob_engine.Prelude.Options.{◌>>=◌}
use lob_engine.Core.{Price, Quantity, Side, OrderType, RejectReason}
use lob_engine.Gateway.Events.{
  OrderAction, OrderMessage, ExchangeEvent, OrderAcceptedEvent, OrderRejectedEvent,
  OrderCanceledEvent, TradeExecutedEvent, BookUpdatedEvent, SnapshotEvent,
}

abbrev pub side_to_str : Side → Bytes
side_to_str Side.buy = codes "BUY"
side_to_str Side.sell = codes "SELL"

abbrev pub order_type_to_str : OrderType → Bytes
order_type_to_str OrderType.limit = codes "LIMIT"
order_type_to_str OrderType.market = codes "MARKET"
order_type_to_str OrderType.stop = codes "STOP"
order_type_to_str OrderType.stop_limit = codes "STOP_LIMIT"
order_type_to_str OrderType.iceberg = codes "ICEBERG"

abbrev pub reject_reason_to_str : RejectReason → Bytes
reject_reason_to_str RejectReason.invalid_price = codes "INVALID_PRICE"
reject_reason_to_str RejectReason.invalid_quantity = codes "INVALID_QUANTITY"
reject_reason_to_str RejectReason.duplicate_order_id = codes "DUPLICATE_ORDER_ID"
reject_reason_to_str RejectReason.order_not_found = codes "ORDER_NOT_FOUND"
reject_reason_to_str RejectReason.order_not_cancellable = codes "ORDER_NOT_CANCELLABLE"
reject_reason_to_str RejectReason.invalid_modify = codes "INVALID_MODIFY"
reject_reason_to_str RejectReason.stop_price_inconsistent = codes "STOP_PRICE_INCONSISTENT"
reject_reason_to_str RejectReason.price_band_violation = codes "PRICE_BAND_VIOLATION"
reject_reason_to_str RejectReason.max_size_violation = codes "MAX_SIZE_VIOLATION"
reject_reason_to_str RejectReason.market_exhausted = codes "MARKET_EXHAUSTED"
reject_reason_to_str RejectReason.none_given = codes "NONE"

-- The parsers give nothing where the code throws.
unfoldable pub parse_side : Bytes → Option Side
parse_side s =
    if same_bytes s (codes "BUY")
    then some Side.buy
    else if same_bytes s (codes "SELL")
    then some Side.sell
    else none

unfoldable pub parse_order_type : Bytes → Option OrderType
parse_order_type s =
    if same_bytes s (codes "LIMIT")
    then some OrderType.limit
    else if same_bytes s (codes "MARKET")
    then some OrderType.market
    else if same_bytes s (codes "STOP")
    then some OrderType.stop
    else if same_bytes s (codes "STOP_LIMIT")
    then some OrderType.stop_limit
    else if same_bytes s (codes "ICEBERG")
    then some OrderType.iceberg
    else none

unfoldable pub parse_action : Bytes → Option OrderAction
parse_action s =
    if same_bytes s (codes "NEW_ORDER")
    then some OrderAction.new_order
    else if same_bytes s (codes "CANCEL_ORDER")
    then some OrderAction.cancel_order
    else none

-- What is asked of a parsed document: `at(key).get<uint64_t>()`, `at(key).get<std::string>()`, and
-- `value(key, 0)` as int64_t and as uint64_t.
pub record JsonReader : Type 1 where
  pub Json : Type 0
  pub parse : Bytes → Option Json
  pub at_u64 : Json → Bytes → Option ℕ
  pub at_string : Json → Bytes → Option Bytes
  pub value_i64 : Json → Bytes → Option ℤ
  pub value_u64 : Json → Bytes → Option ℕ

-- `std::nullopt` for whatever is thrown.
unfoldable pub deserialize_order : JsonReader → Bytes → Option (OrderMessage Bytes)
unfolding parse_side parse_order_type parse_action
deserialize_order r json_str = do
  j ← r.parse json_str
  order_id ← r.at_u64 j (codes "order_id")
  client_id ← r.at_u64 j (codes "client_id")
  symbol ← r.at_string j (codes "symbol")
  quantity ← r.at_u64 j (codes "quantity")
  price ← r.value_i64 j (codes "price")
  stop_price ← r.value_i64 j (codes "stop_price")
  peak_qty ← r.value_u64 j (codes "peak_qty")
  timestamp ← r.value_u64 j (codes "timestamp")
  action_name ← r.at_string j (codes "action")
  action ← parse_action action_name
  side_name ← r.at_string j (codes "side")
  side ← parse_side side_name
  type_name ← r.at_string j (codes "type")
  type ← parse_order_type type_name
  some (record {
    order_id = order_id;
    client_id = client_id;
    symbol = symbol;
    side = side;
    type = type;
    quantity = quantity;
    price = price;
    stop_price = stop_price;
    peak_qty = peak_qty;
    timestamp = timestamp;
    action = action;
  })

-- The values that the code builds.
pub record JsonWriter : Type 1 where
  pub Json : Type 0
  pub number : ℕ → Json
  pub signed : ℤ → Json
  pub text : Bytes → Json
  pub array : List Json → Json
  pub object : List (Bytes × Json) → Json
  pub dump : Json → Bytes

module _ (w : JsonWriter) where
  abbrev level_json : Price × Quantity → w.Json
  level_json (px, qty) = w.object ((codes "price", w.signed px) ∷ (codes "qty", w.number qty) ∷ [])

  unfoldable trade_json : TradeExecutedEvent Bytes → w.Json
  trade_json e = w.object (
      (codes "ts", w.number e.timestamp)
      ∷ (codes "type", w.text (codes "TRADE"))
      ∷ (codes "symbol", w.text e.symbol)
      ∷ (codes "buy_id", w.number e.buy_order_id)
      ∷ (codes "sell_id", w.number e.sell_order_id)
      ∷ (codes "price", w.signed e.price)
      ∷ (codes "qty", w.number e.quantity)
      ∷ [])

  unfoldable book_json : BookUpdatedEvent Bytes → w.Json
  book_json e = w.object (
      (codes "ts", w.number e.timestamp)
      ∷ (codes "type", w.text (codes "BOOK"))
      ∷ (codes "symbol", w.text e.symbol)
      ∷ (codes "best_bid", w.signed e.best_bid)
      ∷ (codes "best_ask", w.signed e.best_ask)
      ∷ (codes "spread", w.signed e.spread)
      ∷ (codes "bid_levels", w.number e.bid_levels)
      ∷ (codes "ask_levels", w.number e.ask_levels)
      ∷ [])

  unfoldable snapshot_json : SnapshotEvent Bytes → w.Json
  snapshot_json e = w.object (
      (codes "ts", w.number e.timestamp)
      ∷ (codes "type", w.text (codes "SNAPSHOT"))
      ∷ (codes "symbol", w.text e.symbol)
      ∷ (codes "last_trade_price", w.signed e.last_trade_price)
      ∷ (codes "best_bid", w.signed e.best_bid)
      ∷ (codes "best_ask", w.signed e.best_ask)
      ∷ (codes "bids", w.array (map level_json e.bids))
      ∷ (codes "asks", w.array (map level_json e.asks))
      ∷ [])

  unfoldable accepted_json : OrderAcceptedEvent Bytes → w.Json
  accepted_json e = w.object (
      (codes "ts", w.number e.timestamp)
      ∷ (codes "type", w.text (codes "ACCEPTED"))
      ∷ (codes "symbol", w.text e.symbol)
      ∷ (codes "order_id", w.number e.order_id)
      ∷ (codes "cid", w.number e.client_id)
      ∷ (codes "price", w.signed e.price)
      ∷ (codes "qty", w.number e.quantity)
      ∷ (codes "side", w.text (side_to_str e.side))
      ∷ (codes "otype", w.text (order_type_to_str e.type))
      ∷ [])

  unfoldable rejected_json : OrderRejectedEvent Bytes → w.Json
  rejected_json e = w.object (
      (codes "ts", w.number e.timestamp)
      ∷ (codes "type", w.text (codes "REJECTED"))
      ∷ (codes "symbol", w.text e.symbol)
      ∷ (codes "order_id", w.number e.order_id)
      ∷ (codes "cid", w.number e.client_id)
      ∷ (codes "reason", w.text (reject_reason_to_str e.reason))
      ∷ [])

  unfoldable canceled_json : OrderCanceledEvent Bytes → w.Json
  canceled_json e = w.object (
      (codes "ts", w.number e.timestamp)
      ∷ (codes "type", w.text (codes "CANCELED"))
      ∷ (codes "symbol", w.text e.symbol)
      ∷ (codes "order_id", w.number e.order_id)
      ∷ (codes "remaining_qty", w.number e.remaining_qty)
      ∷ [])

  unfoldable pub serialize_event : ExchangeEvent Bytes → Bytes
  unfolding trade_json book_json snapshot_json accepted_json rejected_json canceled_json
  serialize_event (ExchangeEvent.traded e) = codes "TRADE " ++ w.dump (trade_json e)
  serialize_event (ExchangeEvent.book_updated e) = codes "BOOK " ++ w.dump (book_json e)
  serialize_event (ExchangeEvent.snapshot_taken e) = codes "SNAPSHOT " ++ w.dump (snapshot_json e)
  serialize_event (ExchangeEvent.accepted e) = codes "ACCEPTED " ++ w.dump (accepted_json e)
  serialize_event (ExchangeEvent.rejected e) = codes "REJECTED " ++ w.dump (rejected_json e)
  serialize_event (ExchangeEvent.canceled e) = codes "CANCELED " ++ w.dump (canceled_json e)
