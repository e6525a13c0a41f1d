-- ===== src/Snapshot.antt =====
-- src/snapshot/snapshot.hpp and snapshot.cpp. The bytes of an object in memory are a parameter, with
-- what `in.read` leaves in the object that it reads into; opening the file is an argument, and the
-- file that is written opens and takes every write.
pub mod RoundTrip
pub mod Saved
pub mod Held
pub mod Restored
use lob_engine.Prelude.{
  ℕ, zero, suc, ◌%◌, ◌^◌, ◌<◌, Bool, true, false, Option, none, some, List, [], ◌∷◌, ◌++◌, pos,
  ◌==◌, length, Bytes, if◌then◌else◌, ◌≡◌,
}
use lob_engine.Core.{OrderId, Price, Order, Side, OrderType, OrderStatus}
use lob_engine.Level.{order_ids}
use lob_engine.Book.{OrderBook, Levels, insert_order, find_order, order_count}

-- The bytes of an object, and the object and the rest of the file after a read; no rest where the
-- file is too short. An object that fits its machine type is read back from its bytes.
pub record Raw (A : Type 0) : Type 1 where
  pub Fits : A → Type 0
  pub put : A → Bytes
  pub get : A → Bytes → A × Option Bytes
  pub get-put : (old a : A) (rest : Bytes) → Fits a → get old (put a ++ rest) ≡ (a, some rest)

pub record Layout : Type 1 where
  pub u32 : Raw ℕ
  pub u64 : Raw ℕ
  pub price : Raw Price
  pub order : Raw Order
  pub u32-Fits : (n : ℕ) → n < 2 ^ 32 → u32.Fits n
  pub u64-Fits : (n : ℕ) → n < 2 ^ 64 → u64.Fits n

abbrev pub magic_number : ℕ
magic_number = 1280262657

-- `static_cast<uint32_t>`
unfoldable pub to_u32 : ℕ → ℕ
to_u32 n = n % 2 ^ 32

-- The orders that the ids stand for; an id without an order is passed over.
unfoldable pub orders_of : OrderBook → List OrderId → List Order
orders_of b [] = []
orders_of b (id ∷ ids) =
    let rest = orders_of b ids in elim (find_order b id) [ none ↦ rest | some o ↦ o ∷ rest ]

-- `write_orders_from_side`
unfoldable pub orders_from_side : OrderBook → Levels → List Order
orders_from_side b [] = []
orders_from_side b ((price, level) ∷ side_map) =
    orders_of b (order_ids level) ++ orders_from_side b side_map

unfoldable pub saved_orders : OrderBook → List Order
saved_orders b = orders_from_side b b.bids ++ orders_from_side b b.asks

abbrev pub put_orders : Layout → List Order → Bytes
put_orders layout [] = []
put_orders layout (o ∷ os) = layout.order.put o ++ put_orders layout os

-- What is written.
unfoldable pub save : Layout → OrderBook → List Order → ℕ → Bytes
save layout b pending_stops sequence =
    layout.u32.put magic_number
    ++ (layout.u64.put sequence
        ++ (layout.price.put b.last_trade_price
            ++ (layout.u32.put (to_u32 (order_count b))
                ++ (put_orders layout (saved_orders b)
                    ++ (layout.u32.put (to_u32 (length pending_stops))
                        ++ put_orders layout pending_stops)))))

-- A read of a stream that may have failed: it then leaves the object alone.
abbrev pub read : {A : Type 0} → Raw A → A → Option Bytes → A × Option Bytes
read r old none = (old, none)
read r old (some file) = r.get old file

-- `Order o;`
abbrev pub blank_order : Order
blank_order = record {
  id = 0;
  side = Side.buy;
  type = OrderType.limit;
  price = pos 0;
  stop_price = pos 0;
  quantity = 0;
  orig_qty = 0;
  peak_qty = 0;
  reserve_qty = 0;
  timestamp = 0;
  status = OrderStatus.new;
}

abbrev pub load_orders : Layout → ℕ → OrderBook → Option Bytes → OrderBook × Option Bytes
load_orders layout zero book file = (book, file)
load_orders layout (suc n) book file =
    let (o, file') = read layout.order blank_order file in
    load_orders layout n (insert_order book o) file'

abbrev pub load_stops : Layout → ℕ → List Order → Option Bytes → List Order × Option Bytes
load_stops layout zero stops file = (stops, file)
load_stops layout (suc n) stops file =
    let (o, file') = read layout.order blank_order file in
    load_stops layout n (stops ++ o ∷ []) file'

-- What `load` leaves in its arguments, and its result.
pub record Loaded : Type 0 where
  pub success : Bool
  pub book : OrderBook
  pub pending_stops : List Order
  pub sequence : ℕ

abbrev pub is_good : Option Bytes → Bool
is_good none = false
is_good (some file) = true

-- `load` behind the check of the magic number.
unfoldable pub load_rest : Layout → OrderBook → ℕ → Option Bytes → Loaded
load_rest layout book sequence f1 =
    let (sequence', f2) = read layout.u64 sequence f1 in
    let (ltp, f3) = read layout.price (pos 0) f2 in
    let (order_count, f4) = read layout.u32 0 f3 in
    let (book', f5) = load_orders layout order_count (record book { last_trade_price = ltp }) f4 in
    let (stop_count, f6) = read layout.u32 0 f5 in
    let (stops', f7) = load_stops layout stop_count [] f6 in
    record { success = is_good f7; book = book'; pending_stops = stops'; sequence = sequence' }

unfoldable pub load : Layout → OrderBook → List Order → ℕ → Option Bytes → Loaded
load layout book stops sequence none = record {
  success = false;
  book = book;
  pending_stops = stops;
  sequence = sequence;
}
load layout book stops sequence (some content) =
    let (magic, f1) = read layout.u32 0 (some content) in
    if magic == magic_number
    then load_rest layout book sequence f1
    else record { success = false; book = book; pending_stops = stops; sequence = sequence }
