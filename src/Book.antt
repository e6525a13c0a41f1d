-- ===== src/Book.antt =====
-- src/book/order_book.hpp and order_book.cpp. The id map is the list of its orders, each found by
-- its id: the code only ever stores an order under its own id. What the code writes twice, for the
-- bids and for the asks, is written once over a side.
pub mod IdMap
pub mod Sound
pub mod Removal
pub mod Agree
pub mod Cancel
pub mod Insert
pub mod Coherent
pub mod Uncrossed
pub mod Best
use lob_engine.Prelude.{
  ℕ, Bool, true, false, Option, none, some, List, [], ◌∷◌, ℤ, pos, negsuc, sub_ℕ, ◌/◌, ◌+◌, ltb_ℤ,
  ◌+ℤ◌, ◌-ℤ◌, ◌==◌, if◌then◌else◌, length,
}
use lob_engine.Core.{OrderId, Quantity, Price, Side, Order, visible_qty}
use lob_engine.Level.{PriceLevel, empty_level, push_back, remove, empty, reduce_front_volume}
use lob_engine.OrderedMap.{OrderedMap, find, adjust, erase_key, emplace, first, drop_first}

abbrev pub Levels : Type 0
Levels = OrderedMap PriceLevel

pub record OrderBook : Type 0 where
  pub bids : Levels
  pub asks : Levels
  pub id_map : List Order
  pub last_trade_price : Price

abbrev pub empty_book : OrderBook
empty_book = record { bids = []; asks = []; id_map = []; last_trade_price = pos 0 }

-- std::greater for the bids, std::less for the asks.
abbrev pub before : Side → Price → Price → Bool
before Side.buy a b = ltb_ℤ b a
before Side.sell a b = ltb_ℤ a b

abbrev pub levels : Side → OrderBook → Levels
levels Side.buy b = b.bids
levels Side.sell b = b.asks

abbrev pub with_levels : Side → OrderBook → Levels → OrderBook
with_levels Side.buy b m = record b { bids = m }
with_levels Side.sell b m = record b { asks = m }

-- `id_map_.find(id)`
unfoldable pub find_id : OrderId → List Order → Option Order
find_id id [] = none
find_id id (o ∷ os) = if o.id == id then some o else find_id id os

-- `id_map_.erase`
unfoldable pub erase_id : OrderId → List Order → List Order
erase_id id [] = []
erase_id id (o ∷ os) = let rest = erase_id id os in if o.id == id then rest else (o ∷ rest)

-- `id_map_[order.id] = order`
unfoldable pub store : Order → List Order → List Order
unfolding erase_id
store o os = o ∷ erase_id o.id os

unfoldable pub insert_order : OrderBook → Order → OrderBook
insert_order b o =
    let m = emplace (before o.side) o.price (empty_level o.price) (levels o.side b) in
    let m' = adjust o.price (λ l. push_back l o.id (visible_qty o)) m in
    with_levels o.side (record b { id_map = store o b.id_map }) m'

-- The level's part of `cancel_order`.
unfoldable pub cancel_in : Order → Levels → Levels
cancel_in o m = elim (find o.price m) [
  | none ↦ m
  | some l ↦
      let (is_empty, l') = empty (remove l o.id (visible_qty o)) in
      if is_empty then erase_key o.price m else adjust o.price (λ _. l') m
]

unfoldable pub cancel_order : OrderBook → OrderId → OrderBook × Bool
unfolding cancel_in
cancel_order b id = elim (find_id id b.id_map) [
  | none ↦ (b, false)
  | some o ↦ (
    with_levels o.side (record b { id_map = erase_id id b.id_map }) (cancel_in o (levels o.side b)),
    true,
  )
]

unfoldable pub find_order : OrderBook → OrderId → Option Order
find_order b id = find_id id b.id_map

abbrev is_some {ℓ} : {A : Type ℓ} → Option A → Bool
is_some none = false
is_some (some a) = true

unfoldable pub has_order : OrderBook → OrderId → Bool
has_order b id = is_some (find_id id b.id_map)

abbrev pub key_of : Option (Price × PriceLevel) → Option Price
key_of none = none
key_of (some (k, l)) = some k

unfoldable pub best_bid : OrderBook → Option Price
best_bid b = key_of (first b.bids)

unfoldable pub best_ask : OrderBook → Option Price
best_ask b = key_of (first b.asks)

-- `nullopt` unless both sides have a level. The difference is that of the integers: what int64_t
-- computes as long as it lies in its range.
unfoldable pub spread : OrderBook → Option Price
spread b = elim (best_bid b) [
  | none ↦ none
  | some bb ↦ elim (best_ask b) [ none ↦ none | some ba ↦ some (ba -ℤ bb) ]
]

-- `/ 2` on int64_t, which rounds toward zero.
abbrev pub half_ℤ : ℤ → ℤ
half_ℤ (pos n) = pos (n / 2)
half_ℤ (negsuc n) = sub_ℕ 0 ((n + 1) / 2)

-- As `spread`, with the sum of the integers.
unfoldable pub mid_price : OrderBook → Option Price
mid_price b = elim (best_bid b) [
  | none ↦ none
  | some bb ↦ elim (best_ask b) [ none ↦ none | some ba ↦ some (half_ℤ (bb +ℤ ba)) ]
]

-- `best_bid_level` and `best_ask_level`: a pointer to the level at the begin of the map, here the
-- key and the level.
unfoldable pub best_level : Side → OrderBook → Option (Price × PriceLevel)
best_level s b = first (levels s b)

unfoldable pub remove_best_level : Side → OrderBook → OrderBook
remove_best_level s b = with_levels s b (drop_first (levels s b))

-- The change of one order through a pointer into the id map.
unfoldable pub adjust_order : OrderId → (Order → Order) → List Order → List Order
adjust_order id f [] = []
adjust_order id f (o ∷ os) = if o.id == id then f o ∷ os else o ∷ adjust_order id f os

unfoldable pub update_order_quantity : OrderBook → OrderId → Quantity → OrderBook
update_order_quantity b id new_qty = record b {
  id_map = adjust_order id (λ o. record o { quantity = new_qty }) b.id_map;
}

unfoldable pub reduce_level_volume : OrderBook → Side → Price → Quantity → OrderBook
reduce_level_volume b s p delta =
    with_levels s b (adjust p (λ l. reduce_front_volume l delta) (levels s b))

unfoldable pub get_level : OrderBook → Side → Price → Option PriceLevel
get_level b s p = find p (levels s b)

-- The write of a level through the pointer that `get_level` or `best_bid_level` gave.
unfoldable pub put_level : OrderBook → Side → Price → PriceLevel → OrderBook
put_level b s p l = with_levels s b (adjust p (λ _. l) (levels s b))

unfoldable pub order_count : OrderBook → ℕ
order_count b = length b.id_map

unfoldable pub bid_level_count : OrderBook → ℕ
bid_level_count b = length b.bids

unfoldable pub ask_level_count : OrderBook → ℕ
ask_level_count b = length b.asks
