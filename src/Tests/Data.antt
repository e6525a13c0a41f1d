-- ===== src/Tests/Data.antt =====
-- The orders and events that the tests and examples share.
use lob_engine.Prelude.{ℕ, pos, [], arith}
use lob_engine.Book.{OrderBook, empty_book, insert_order}
use lob_engine.Engine.State.{Engine}
use lob_engine.Engine.Valid.{Frame, one, ◌⊕◌, Valid, Valid-mono, Valid-insert, initial-Valid}
use lob_engine.Core.{Order, Side, OrderType, OrderStatus, OrderEvent}

abbrev pub order : ℕ → Side → OrderType → ℕ → ℕ → ℕ → ℕ → Order
order id side type price stop quantity peak = record {
  id = id;
  side = side;
  type = type;
  price = pos price;
  stop_price = pos stop;
  quantity = quantity;
  orig_qty = quantity;
  peak_qty = peak;
  reserve_qty = 0;
  timestamp = 1;
  status = OrderStatus.new;
}

abbrev pub sell_limit : ℕ → ℕ → ℕ → Order
sell_limit id price quantity = order id Side.sell OrderType.limit price 0 quantity 0

abbrev pub buy_limit : ℕ → ℕ → ℕ → Order
buy_limit id price quantity = order id Side.buy OrderType.limit price 0 quantity 0

abbrev pub cancel : ℕ → OrderEvent
cancel id = OrderEvent.cancel_order_event (record { order_id = id; timestamp = 2 })

abbrev pub submit_new : Order → OrderEvent
submit_new = OrderEvent.new_order_event

abbrev pub modify : ℕ → ℕ → ℕ → OrderEvent
modify id price quantity =
    OrderEvent.modify_order_event
      (record { order_id = id; new_price = pos price; new_quantity = quantity; timestamp = 3 })

abbrev pub nothing_held : Frame
nothing_held i = 0

-- Two sells at 100 and one at 101, in this order.
abbrev pub book_of_sells : OrderBook
book_of_sells =
    insert_order (insert_order (insert_order empty_book (sell_limit 1 100 10)) (sell_limit 2 100 5))
      (sell_limit 3 101 7)

abbrev pub engine_of_sells : Engine
engine_of_sells = record { book = book_of_sells; sequence = 3; pending_stops = [] }

-- The engine is valid while the ids 4 and 5 are in flight.
pub engine_of_sells-Valid : Valid (nothing_held ⊕ one 4 ⊕ one 5) engine_of_sells
engine_of_sells-Valid =
    let h : Frame = nothing_held ⊕ one 4 ⊕ one 5 in
    let e0 : Engine = record { book = empty_book; sequence = 3; pending_stops = [] } in
    let s1 = sell_limit 1 100 10 in
    let s2 = sell_limit 2 100 5 in
    let s3 = sell_limit 3 101 7 in
    let e1 : Engine = record e0 { book = insert_order empty_book s1 } in
    let e2 : Engine = record e1 { book = insert_order e1.book s2 } in
    let v = initial-Valid (h ⊕ one 3 ⊕ one 2 ⊕ one 1) (λ i. ground arith) in
    let v0 : Valid (h ⊕ one 3 ⊕ one 2 ⊕ one 1) e0 = record {
      coherent = v.coherent;
      single = v.single;
      unused = v.unused;
    } in
    Valid-insert e2 s3 (Valid-insert e1 s2 (Valid-insert e0 s1 v0))

pub one_in_flight : Valid (nothing_held ⊕ one 4) engine_of_sells
one_in_flight = Valid-mono (λ i. omega arith) engine_of_sells-Valid

pub none_in_flight : Valid nothing_held engine_of_sells
none_in_flight = Valid-mono (λ i. omega arith) engine_of_sells-Valid
