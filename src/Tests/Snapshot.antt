-- ===== src/Tests/Snapshot.antt =====
-- A snapshot file over a layout that writes one number for each field, and two for a price.
use lob_engine.Prelude.{
  ◌≡◌, refl, ◌^◌, ◌<◌, ℕ, zero, suc, pos, negsuc, true, none, some, Option, [], ◌∷◌, Bytes, arith,
}
use lob_engine.Core.{OrderId, Price, Order, Side, OrderType, OrderStatus}
use lob_engine.Level.{order_ids, push_back}
use lob_engine.OrderedMap.{find, adjust, emplace}
use lob_engine.Book.{
  OrderBook, insert_order, store, erase_id, find_id, find_order, order_count, empty_book,
}
use lob_engine.Snapshot.{Raw, Layout, load, save, saved_orders, orders_from_side, orders_of}
use lob_engine.Snapshot.Restored.{load-save_restores}
use lob_engine.Book.Coherent.{IsCoherent, view_at}
use lob_engine.Tests.Data.{none_in_flight, book_of_sells, buy_limit}

abbrev price_sign : Price → ℕ
price_sign (pos n) = 0
price_sign (negsuc n) = 1

abbrev price_size : Price → ℕ
price_size (pos n) = n
price_size (negsuc n) = n

abbrev price_from : ℕ → ℕ → Price
price_from zero n = pos n
price_from (suc _) n = negsuc n

pub price_from-put : (p : Price) → price_from (price_sign p) (price_size p) ≡ p
price_from-put (pos n) = refl
price_from-put (negsuc n) = refl

abbrev side_code : Side → ℕ
side_code Side.buy = 0
side_code Side.sell = 1

abbrev side_from : ℕ → Side
side_from zero = Side.buy
side_from (suc _) = Side.sell

pub side_from-code : (s : Side) → side_from (side_code s) ≡ s
side_from-code Side.buy = refl
side_from-code Side.sell = refl

abbrev type_code : OrderType → ℕ
type_code OrderType.limit = 0
type_code OrderType.market = 1
type_code OrderType.stop = 2
type_code OrderType.stop_limit = 3
type_code OrderType.iceberg = 4

abbrev type_from : ℕ → OrderType
type_from zero = OrderType.limit
type_from (suc zero) = OrderType.market
type_from (suc (suc zero)) = OrderType.stop
type_from (suc (suc (suc zero))) = OrderType.stop_limit
type_from _ = OrderType.iceberg

pub type_from-code : (t : OrderType) → type_from (type_code t) ≡ t
type_from-code OrderType.limit = refl
type_from-code OrderType.market = refl
type_from-code OrderType.stop = refl
type_from-code OrderType.stop_limit = refl
type_from-code OrderType.iceberg = refl

abbrev status_code : OrderStatus → ℕ
status_code OrderStatus.new = 0
status_code OrderStatus.resting = 1
status_code OrderStatus.partial_fill = 2
status_code OrderStatus.filled = 3
status_code OrderStatus.cancelled = 4
status_code OrderStatus.rejected = 5
status_code OrderStatus.triggered = 6

abbrev status_from : ℕ → OrderStatus
status_from zero = OrderStatus.new
status_from (suc zero) = OrderStatus.resting
status_from (suc (suc zero)) = OrderStatus.partial_fill
status_from (suc (suc (suc zero))) = OrderStatus.filled
status_from (suc (suc (suc (suc zero)))) = OrderStatus.cancelled
status_from (suc (suc (suc (suc (suc zero))))) = OrderStatus.rejected
status_from _ = OrderStatus.triggered

pub status_from-code : (s : OrderStatus) → status_from (status_code s) ≡ s
status_from-code OrderStatus.new = refl
status_from-code OrderStatus.resting = refl
status_from-code OrderStatus.partial_fill = refl
status_from-code OrderStatus.filled = refl
status_from-code OrderStatus.cancelled = refl
status_from-code OrderStatus.rejected = refl
status_from-code OrderStatus.triggered = refl

abbrev put_order : Order → Bytes
put_order o =
    o.id
    ∷ side_code o.side
    ∷ type_code o.type
    ∷ price_sign o.price
    ∷ price_size o.price
    ∷ price_sign o.stop_price
    ∷ price_size o.stop_price
    ∷ o.quantity
    ∷ o.orig_qty
    ∷ o.peak_qty
    ∷ o.reserve_qty
    ∷ o.timestamp
    ∷ status_code o.status
    ∷ []

abbrev get_order : Order → Bytes → Order × Option Bytes
get_order old (id ∷ s ∷ t ∷ a ∷ b ∷ c ∷ d ∷ q ∷ orig ∷ peak ∷ reserve ∷ ts ∷ st ∷ rest) = (
  record {
    id = id;
    side = side_from s;
    type = type_from t;
    price = price_from a b;
    stop_price = price_from c d;
    quantity = q;
    orig_qty = orig;
    peak_qty = peak;
    reserve_qty = reserve;
    timestamp = ts;
    status = status_from st;
  },
  some rest,
)
get_order old _ = (old, none)

abbrev get_price : Price → Bytes → Price × Option Bytes
get_price old (a ∷ b ∷ rest) = (price_from a b, some rest)
get_price old _ = (old, none)

abbrev get_number : ℕ → Bytes → ℕ × Option Bytes
get_number old (n ∷ rest) = (n, some rest)
get_number old [] = (old, none)

abbrev number_raw : ℕ → Raw ℕ
number_raw bound = record {
  Fits = λ n. n < bound;
  put = λ n. n ∷ [];
  get = get_number;
  get-put = λ old n rest h. refl;
}

abbrev pub one_number_a_field : Layout
one_number_a_field = record {
  u32 = number_raw (2 ^ 32);
  u64 = number_raw (2 ^ 64);
  price = record {
    Fits = λ p. true ≡ true;
    put = λ p. price_sign p ∷ price_size p ∷ [];
    get = get_price;
    get-put = λ old p rest h. rw (price_from-put p) refl;
  };
  order = record {
    Fits = λ o. true ≡ true;
    put = put_order;
    get = get_order;
    get-put = λ old o rest h.
        rw
          (
            side_from-code o.side,
            type_from-code o.type,
            price_from-put o.price,
            price_from-put o.stop_price,
            status_from-code o.status,
          )
          refl;
  };
  u32-Fits = λ n h. h;
  u64-Fits = λ n h. h;
}

load-save_restores_example :
    (restored : OrderBook) × (load one_number_a_field empty_book [] 0
        (some (save one_number_a_field book_of_sells (buy_limit 7 90 1 ∷ []) 3))
      ≡ record {
        success = true;
        book = restored;
        pending_stops = buy_limit 7 90 1 ∷ [];
        sequence = 3;
      })
    × IsCoherent restored
    × ((t : Side) (q : Price) → view_at restored t q ≡ view_at book_of_sells t q)
    × ((id : OrderId) → find_id id restored.id_map ≡ find_id id book_of_sells.id_map)
    × (restored.last_trade_price ≡ book_of_sells.last_trade_price)
unfolding insert_order store erase_id find_id find_order find adjust emplace push_back order_ids
    order_count saved_orders orders_from_side orders_of
load-save_restores_example =
    load-save_restores one_number_a_field book_of_sells (buy_limit 7 90 1 ∷ []) [] 3 0
      none_in_flight.coherent (refl, (refl, (refl, tt))) (omega arith) (omega arith) (omega arith)
      refl (refl, (refl, (refl, tt))) (refl, tt)
