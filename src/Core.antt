-- ===== src/Core.antt =====
-- src/core: the enumerations, the order, the events that go in and the reports that come out.
-- OrderId, Quantity and Timestamp are uint64_t, numbers below 2 ^ 64; Price is int64_t.
use lob_engine.Prelude.{ℕ, Bool, true, false, ℤ, ltb, if◌then◌else◌}

pub data Side : Type 0 where
  buy sell : Side

pub data OrderType : Type 0 where
  limit market stop stop_limit iceberg : OrderType

pub data OrderStatus : Type 0 where
  new resting partial_fill filled cancelled rejected triggered : OrderStatus

pub data RejectReason : Type 0 where
  none_given invalid_price invalid_quantity duplicate_order_id order_not_found : RejectReason
  order_not_cancellable invalid_modify stop_price_inconsistent price_band_violation : RejectReason
  max_size_violation market_exhausted : RejectReason

pub data AggressorSide : Type 0 where
  buy sell none_given : AggressorSide

abbrev pub OrderId : Type 0
OrderId = ℕ

abbrev pub Price : Type 0
Price = ℤ

abbrev pub Quantity : Type 0
Quantity = ℕ

abbrev pub Timestamp : Type 0
Timestamp = ℕ

pub record Order : Type 0 where
  pub id : OrderId
  pub side : Side
  pub type : OrderType
  pub price : Price
  pub stop_price : Price
  pub quantity : Quantity
  pub orig_qty : Quantity
  pub peak_qty : Quantity
  pub reserve_qty : Quantity
  pub timestamp : Timestamp
  pub status : OrderStatus

abbrev side_is_buy : Side → Bool
side_is_buy Side.buy = true
side_is_buy Side.sell = false

abbrev pub is_buy : Order → Bool
is_buy o = side_is_buy o.side

abbrev side_is_sell : Side → Bool
side_is_sell Side.buy = false
side_is_sell Side.sell = true

abbrev pub is_sell : Order → Bool
is_sell o = side_is_sell o.side

abbrev status_rests : OrderStatus → Bool
status_rests OrderStatus.resting = true
status_rests OrderStatus.partial_fill = true
status_rests _ = false

abbrev pub is_resting : Order → Bool
is_resting o = status_rests o.status

abbrev pub is_iceberg : Order → Bool
is_iceberg o = ltb 0 o.peak_qty

abbrev pub visible_qty : Order → Quantity
visible_qty o = if is_iceberg o then o.peak_qty else o.quantity

pub record Trade : Type 0 where
  pub aggressor_id : OrderId
  pub passive_id : OrderId
  pub price : Price
  pub quantity : Quantity
  pub timestamp : Timestamp
  pub aggressor_side : AggressorSide

pub record ExecutionReport : Type 0 where
  pub order_id : OrderId
  pub status : OrderStatus
  pub cumulative_qty : Quantity
  pub remaining_qty : Quantity
  pub avg_fill_price : Price
  pub timestamp : Timestamp

pub record Rejection : Type 0 where
  pub order_id : OrderId
  pub reason : RejectReason
  pub timestamp : Timestamp

pub record CancelOrderEvent : Type 0 where
  pub order_id : OrderId
  pub timestamp : Timestamp

-- 0 in `new_price` or `new_quantity` means no change.
pub record ModifyOrderEvent : Type 0 where
  pub order_id : OrderId
  pub new_price : Price
  pub new_quantity : Quantity
  pub timestamp : Timestamp

pub record ReplaceOrderEvent : Type 0 where
  pub old_order_id : OrderId
  pub new_order : Order

pub data OrderEvent : Type 0 where
  new_order_event : Order → OrderEvent
  cancel_order_event : CancelOrderEvent → OrderEvent
  modify_order_event : ModifyOrderEvent → OrderEvent
  replace_order_event : ReplaceOrderEvent → OrderEvent
