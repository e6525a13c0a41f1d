-- ===== src/Feed/Synthetic.antt =====
-- src/feed/synthetic_gen.hpp and synthetic_gen.cpp. The random engine and its distributions are
-- the standard library's: the draws are a parameter.
pub mod Feeds
pub mod Runs
use lob_engine.Prelude.{
  ℕ, zero, suc, ◌+◌, ◌≤◌, ◌<◌, Bool, true, false, Option, none, some, List, [], ◌∷◌, ◌++◌, ℤ, pos,
  ltb_ℤ, leb, ◌+ℤ◌, ◌-ℤ◌, ◌==◌, if◌then◌else◌, length, Run, ok, fault, Fault, ◌>>=◌, add64,
  get_elem?, set, back, pop_back, ltb, not, ◌&&◌,
}
use lob_engine.Core.{
  OrderId, Price, Quantity, Timestamp, Side, OrderType, OrderStatus, Order, OrderEvent, is_buy,
}

-- The fields of src/core/config.hpp that the generator reads itself; the deviation of the prices
-- and the probability of a cancel stand in the draws.
pub record EngineConfig : Type 0 where
  pub mid_price : Price
  pub market_maker_mode : Bool

-- One draw each, with the engine's next state: `uniform_(rng_) < cancel_probability`;
-- `uniform_(rng_) < 0.5`; `qty_dist_`; an index of a vector of the given size; `spread_dist`; and
-- the rounded `price_dist_`.
pub record Draws (Rng : Type 0) : Type 0 where
  pub cancels : Rng → Bool × Rng
  pub buys : Rng → Bool × Rng
  pub quantity : Rng → Quantity × Rng
  pub index : ℕ → Rng → ℕ × Rng
  pub spread : Rng → Price × Rng
  pub offset : Rng → Price × Rng

-- What std::uniform_int_distribution says of its results: the index lies below the size, and the
-- quantity between 1 and 500.
pub record InRange {Rng : Type 0} (d : Draws Rng) : Type 0 where
  pub index : (n : ℕ) (g : Rng) → 0 < n → (d.index n g).0 < n
  pub quantity : (g : Rng) → (1 ≤ (d.quantity g).0) × ((d.quantity g).0 ≤ 500)

pub record SyntheticGenerator (Rng : Type 0) : Type 0 where
  pub config : EngineConfig
  pub next_order_id : OrderId
  pub event_count : ℕ
  pub max_events : ℕ
  pub current_ts : Timestamp
  pub live_orders : List OrderId
  pub rng : Rng

abbrev pub generator : {Rng : Type 0} → EngineConfig → Rng → ℕ → SyntheticGenerator Rng
generator config seeded max_events = record {
  config = config;
  next_order_id = 1;
  event_count = 0;
  max_events = max_events;
  current_ts = 1700000000000000000;
  live_orders = [];
  rng = seeded;
}

-- `std::max` on prices
abbrev max_ℤ : ℤ → ℤ → ℤ
max_ℤ a b = if ltb_ℤ a b then b else a

module _ {Rng : Type 0} (draws : Draws Rng) where
  unfoldable sample_price : EngineConfig → Rng → Price × Rng
  sample_price config g =
      let (offset, g') = draws.offset g in (max_ℤ (config.mid_price +ℤ offset) (pos 1), g')

  -- The price of a new order.
  unfoldable new_price : EngineConfig → Side → Rng → Price × Rng
  unfolding sample_price
  new_price config side g =
      if config.market_maker_mode
      then (let (away, g') = draws.spread g in
          elim side [
            | Side.buy ↦ (config.mid_price -ℤ away, g')
            | Side.sell ↦ (config.mid_price +ℤ away, g')
          ])
      else sample_price config g

  unfoldable pub generate_new_order : SyntheticGenerator Rng → OrderEvent × SyntheticGenerator Rng
  unfolding new_price
  generate_new_order g =
      let (buys, g1) = draws.buys g.rng in
      let side = if buys then Side.buy else Side.sell in
      let (quantity, g2) = draws.quantity g1 in
      let (price, g3) = new_price g.config side g2 in
      let o : Order = record {
        id = g.next_order_id;
        side = side;
        type = OrderType.limit;
        price = price;
        stop_price = pos 0;
        quantity = quantity;
        orig_qty = quantity;
        peak_qty = 0;
        reserve_qty = 0;
        timestamp = g.current_ts;
        status = OrderStatus.new;
      } in
      (
        OrderEvent.new_order_event o,
        record g {
          next_order_id = add64 g.next_order_id 1;
          live_orders = g.live_orders ++ o.id ∷ [];
          rng = g3;
        },
      )

  -- `v[i]` and `back()` behind the end of the vector.
  abbrev checked : Option OrderId → Run OrderId
  checked none = fault Fault.out_of_range
  checked (some id) = ok id

  unfoldable pub generate_cancel :
      SyntheticGenerator Rng → Run (OrderEvent × SyntheticGenerator Rng)
  generate_cancel g = do
    let (idx, g1) = draws.index (length g.live_orders) g.rng
    cancel_id ← checked (get_elem? g.live_orders idx)
    last ← checked (back g.live_orders)
    let e =
        OrderEvent.cancel_order_event (record { order_id = cancel_id; timestamp = g.current_ts })
    ok (e, record g { live_orders = pop_back (set g.live_orders idx last); rng = g1 })

  -- `do_cancel`: with no live order nothing is drawn.
  abbrev wants_cancel : SyntheticGenerator Rng → Bool × Rng
  wants_cancel g = if length g.live_orders == 0 then (false, g.rng) else draws.cancels g.rng

  -- No event is `false`.
  unfoldable pub next : SyntheticGenerator Rng → Run (Option OrderEvent × SyntheticGenerator Rng)
  unfolding generate_new_order generate_cancel
  next g = if leb g.max_events g.event_count then ok (none, g) else (do
    let g1 = record g {
      event_count = add64 g.event_count 1;
      current_ts = add64 g.current_ts 1000000;
    }
    let (do_cancel, rng) = wants_cancel g1
    let g2 = record g1 { rng = rng }
    (e, g3) ← if do_cancel then generate_cancel g2 else ok (generate_new_order g2)
    ok (some e, g3))

  abbrev pub then_all :
      (SyntheticGenerator Rng → Run (List OrderEvent × SyntheticGenerator Rng))
      → Option OrderEvent × SyntheticGenerator Rng
      → Run (List OrderEvent × SyntheticGenerator Rng)
  then_all more (none, g) = ok ([], g)
  then_all more (some e, g) = do (es, g') ← more g; ok (e ∷ es, g')

  -- The events of at most a number of calls of `next`, up to the first without an event.
  unfoldable pub next_all :
      ℕ → SyntheticGenerator Rng → Run (List OrderEvent × SyntheticGenerator Rng)
  unfolding next
  next_all zero g = ok ([], g)
  next_all (suc n) g = next g >>= then_all (next_all n)
