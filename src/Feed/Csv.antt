-- ===== src/Feed/Csv.antt =====
-- src/feed/csv_replay.hpp and csv_replay.cpp. The file is its bytes. std::stoull and std::stoll are
-- parameters, which give nothing where they throw. What is written to std::cerr is left out.
pub mod Lines
pub mod Rows
use lob_engine.Prelude.{
  is_empty, ℕ, zero, suc, ◌+◌, Bool, true, false, Option, none, some, List, [], ◌∷◌, ℤ, pos,
  if◌then◌else◌, Run, ok, out_of_fuel, add64, Bytes, codes, same_bytes, pieces,
}
use lob_engine.Prelude.Options.{◌>>=◌}
use lob_engine.Core.{
  OrderId, Price, Side, OrderType, OrderStatus, Order, OrderEvent, CancelOrderEvent,
  ModifyOrderEvent,
}

-- `parse_side`; nothing where the code throws.
unfoldable pub parse_side : Bytes → Option Side
parse_side s =
    if same_bytes s (codes "BUY")
    then some Side.buy
    else if same_bytes s (codes "SELL")
    then some Side.sell
    else none

unfoldable pub parse_order_type : Bytes → Option OrderType
parse_order_type s =
    if same_bytes s (codes "LIMIT")
    then some OrderType.limit
    else if same_bytes s (codes "MARKET")
    then some OrderType.market
    else if same_bytes s (codes "STOP")
    then some OrderType.stop
    else if same_bytes s (codes "STOPLIMIT")
    then some OrderType.stop_limit
    else if same_bytes s (codes "ICEBERG")
    then some OrderType.iceberg
    else none

-- `split`
abbrev pub split : Bytes → ℕ → List Bytes
split line delim = pieces delim false line

-- What the body of the loop of `next` makes of a line: it goes on, returns an event, or counts an
-- error.
pub data Parsed : Type 0 where
  skipped : Parsed
  event : OrderEvent → Parsed
  failed : Parsed

abbrev parsed : Option OrderEvent → Parsed
parsed none = Parsed.failed
parsed (some ev) = Parsed.event ev

-- `file` holds the lines that are not read yet.
pub record CsvReplayReader : Type 0 where
  pub file : List Bytes
  pub line_number : ℕ
  pub error_count : ℕ

-- The constructor: it throws if there is no file, and skips the header line.
unfoldable pub open_reader : Option Bytes → Option CsvReplayReader
open_reader none = none
open_reader (some content) = elim (pieces b'\n' false content) [
  | [] ↦ some (record { file = []; line_number = 0; error_count = 0 })
  | header ∷ lines ↦ some (record { file = lines; line_number = 1; error_count = 0 })
]

-- The numbers of the standard library: std::stoull and std::stoll.
pub record Numbers : Type 0 where
  pub stoull : Bytes → Option ℕ
  pub stoll : Bytes → Option ℤ

module _ (numbers : Numbers) where
  -- A row with fewer than nine fields throws.
  unfoldable pub new_row : List Bytes → Option OrderEvent
  unfolding parse_side parse_order_type
  new_row (_ ∷ id ∷ side ∷ type ∷ price ∷ quantity ∷ peak ∷ stop ∷ ts ∷ _) = do
    id ← numbers.stoull id
    side ← parse_side side
    type ← parse_order_type type
    price ← numbers.stoll price
    quantity ← numbers.stoull quantity
    peak_qty ← numbers.stoull peak
    stop_price ← numbers.stoll stop
    timestamp ← numbers.stoull ts
    some (
        OrderEvent.new_order_event (record {
          id = id;
          side = side;
          type = type;
          price = price;
          stop_price = stop_price;
          quantity = quantity;
          orig_qty = quantity;
          peak_qty = peak_qty;
          reserve_qty = 0;
          timestamp = timestamp;
          status = OrderStatus.new;
        }))
  new_row _ = none

  unfoldable pub cancel_row : List Bytes → Option OrderEvent
  cancel_row (_ ∷ id ∷ _ ∷ _ ∷ _ ∷ _ ∷ _ ∷ _ ∷ ts ∷ _) = do
    order_id ← numbers.stoull id
    timestamp ← numbers.stoull ts
    some (OrderEvent.cancel_order_event (record { order_id = order_id; timestamp = timestamp }))
  cancel_row _ = none

  unfoldable pub modify_row : List Bytes → Option OrderEvent
  modify_row (_ ∷ id ∷ _ ∷ _ ∷ price ∷ quantity ∷ _ ∷ _ ∷ ts ∷ _) = do
    order_id ← numbers.stoull id
    new_price ← if is_empty price then some (pos 0) else numbers.stoll price
    new_quantity ← if is_empty quantity then some 0 else numbers.stoull quantity
    timestamp ← numbers.stoull ts
    some (
        OrderEvent.modify_order_event (record {
          order_id = order_id;
          new_price = new_price;
          new_quantity = new_quantity;
          timestamp = timestamp;
        }))
  modify_row _ = none

  abbrev pub row : List Bytes → Parsed
  row [] = Parsed.skipped
  row (event_type ∷ fields) =
      if same_bytes event_type (codes "NEW")
      then parsed (new_row (event_type ∷ fields))
      else if same_bytes event_type (codes "CANCEL")
      then parsed (cancel_row (event_type ∷ fields))
      else if same_bytes event_type (codes "MODIFY")
      then parsed (modify_row (event_type ∷ fields))
      else Parsed.failed

  unfoldable pub parse_line : Bytes → Parsed
  parse_line line = if is_empty line then Parsed.skipped else row (split line b',')

  -- The rest of `next` behind a line; `next_lines` is the loop over the lines that are left.
  abbrev pub after_line :
      Parsed
      → List Bytes
      → (ℕ → ℕ → Option OrderEvent × CsvReplayReader)
      → ℕ
      → ℕ
      → Option OrderEvent × CsvReplayReader
  after_line Parsed.skipped lines next_lines n errors = next_lines n errors
  after_line (Parsed.event ev) lines next_lines n errors =
      (some ev, record { file = lines; line_number = n; error_count = errors })
  after_line Parsed.failed lines next_lines n errors = next_lines n (add64 errors 1)

  unfoldable next_from : List Bytes → ℕ → ℕ → Option OrderEvent × CsvReplayReader
  unfolding parse_line
  next_from [] n errors = (none, record { file = []; line_number = n; error_count = errors })
  next_from (line ∷ lines) n errors =
      after_line (parse_line line) lines (next_from lines) (add64 n 1) errors

  -- No event is `false`.
  unfoldable pub next : CsvReplayReader → Option OrderEvent × CsvReplayReader
  unfolding next_from
  next r = next_from r.file r.line_number r.error_count

-- An event in front of those that come after it.
abbrev pub consed :
    OrderEvent → Run (List OrderEvent × CsvReplayReader) → Run (List OrderEvent × CsvReplayReader)
consed ev (ok (evs, r)) = ok (ev ∷ evs, r)
consed ev (Run.fault why) = Run.fault why
consed ev out_of_fuel = out_of_fuel

abbrev pub then_read :
    (CsvReplayReader → Run (List OrderEvent × CsvReplayReader))
    → Option OrderEvent × CsvReplayReader
    → Run (List OrderEvent × CsvReplayReader)
then_read again (none, r) = ok ([], r)
then_read again (some ev, r) = consed ev (again r)

module _ (numbers : Numbers) where
  -- The events of `while (reader.next(event))`.
  unfoldable pub read_all : ℕ → CsvReplayReader → Run (List OrderEvent × CsvReplayReader)
  unfolding next
  read_all zero r = out_of_fuel
  read_all (suc f) r = then_read (read_all f) (next numbers r)
