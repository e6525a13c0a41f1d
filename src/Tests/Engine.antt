-- ===== src/Tests/Engine.antt =====
-- Runs of the matching engine.
use lob_engine.Prelude.{
  ◌+◌, ◌≤◌, ◌≡◌, refl, List, [], ◌∷◌, some, ok, arith, false, pos, member, subst, sym, true, Run,
  Option, ◌>>=◌,
}
use lob_engine.Core.{
  OrderId, Order, OrderEvent, CancelOrderEvent, is_resting, ModifyOrderEvent, Price, Side,
  OrderType,
}
use lob_engine.Prelude.{sub64}
use lob_engine.Level.{front, push_back, remove, empty, drain_cancelled}
use lob_engine.Book.{
  best_bid, best_ask, best_level, find_order, put_level, update_order_quantity, reduce_level_volume,
  insert_order, cancel_order, find_id, store, erase_id, cancel_in,
}
use lob_engine.OrderedMap.{find, adjust, emplace, erase_key}
use lob_engine.Engine.State.{Engine, MatchResult, no_result, initial}
use lob_engine.Engine.Fill.{Matched}
use lob_engine.Engine.Match.{match_limit, beyond_limit}
use lob_engine.Engine.NewOrder.{process_new_order}
use lob_engine.Engine.Submit.{submit_all, process_modify, modified}
use lob_engine.Engine.Weight.{load, engine_weight}
use lob_engine.Engine.Valid.{Valid, one, ◌⊕◌, initial-Valid}
use lob_engine.Engine.Total.{process_new_order_total}
use lob_engine.Engine.Trace.{Trace}
use lob_engine.Book.Uncrossed.{empty-IsUncrossed, IsUncrossed, BestsApart}
use lob_engine.Engine.Uncrossed.{submit_all-IsUncrossed}
use lob_engine.Engine.History.{
  fresh, all_trades, submit_all-LandsAll, submit_all-refines, history_rules,
}
use lob_engine.Engine.Accounts.{Accounted, limit_order-Accounted}
use lob_engine.Engine.Ended.{IsFinished}
use lob_engine.Engine.Finish.{match_limit_finishes}
use lob_engine.Engine.Modify.{process_modify-Valid, requeues}
use lob_engine.Book.Coherent.{IsCoherent, marks_at}
use lob_engine.Tests.Data.{
  sell_limit, buy_limit, cancel, modify, order, submit_new, book_of_sells, engine_of_sells,
  nothing_held, one_in_flight, none_in_flight,
}

-- A buy of 12 takes the first sell and two of the second.
process_new_order_total_example :
    (a : Engine × MatchResult) × (process_new_order 200 engine_of_sells (buy_limit 4 100 12) ≡ ok a)
    × Valid nothing_held a.0
    × (engine_weight a.0 ≤ engine_weight engine_of_sells + load (buy_limit 4 100 12))
unfolding insert_order store erase_id
process_new_order_total_example =
    process_new_order_total 200 nothing_held engine_of_sells (buy_limit 4 100 12) one_in_flight
      (omega arith)

limit_order-Accounted_example :
    (a : Engine × MatchResult) × (process_new_order 200 engine_of_sells (buy_limit 4 100 18) ≡ ok a)
    × Accounted (buy_limit 4 100 18) a
unfolding insert_order store erase_id
limit_order-Accounted_example =
    limit_order-Accounted 200 nothing_held engine_of_sells (buy_limit 4 100 18) one_in_flight
      (omega arith) refl refl

abbrev history : List OrderEvent
history =
    submit_new (sell_limit 1 100 10)
    ∷ submit_new (sell_limit 2 100 5)
    ∷ submit_new (buy_limit 3 100 12)
    ∷ cancel 2
    ∷ []

submit_all-LandsAll_example :
    (a : Engine × List MatchResult) × (submit_all 200 initial history ≡ ok a) × IsCoherent a.0.book
submit_all-LandsAll_example =
    submit_all-LandsAll 200 [] history initial (initial-Valid (fresh []) (λ i. omega arith))
      (refl, (refl, (refl, tt))) (omega arith)

submit_all-refines_example :
    (a : Engine × List MatchResult) × (submit_all 200 initial history ≡ ok a)
    × IsCoherent a.0.book
    × Trace true (history_rules initial history) initial (all_trades a.1) a.0
submit_all-refines_example =
    submit_all-refines true 200 [] history initial (initial-Valid (fresh []) (λ i. omega arith))
      (refl, (refl, (refl, tt))) ((λ _. refl), ((λ _. refl), ((λ _. refl), tt))) (omega arith)

submit_all-IsUncrossed_example :
    (a : Engine × List MatchResult) × (submit_all 200 initial history ≡ ok a)
    × IsUncrossed a.0.book
    × BestsApart a.0.book
submit_all-IsUncrossed_example =
    submit_all-IsUncrossed 200 [] history initial (initial-Valid (fresh []) (λ i. omega arith))
      empty-IsUncrossed (refl, (refl, (refl, tt))) ((λ _. refl), ((λ _. refl), ((λ _. refl), tt)))
      (omega arith)

-- The best bid and the best ask that a history leaves.
bests : Run (Engine × List MatchResult) → Run (Option Price × Option Price)
unfolding best_bid best_ask
bests run = run >>= λ m. ok (best_bid m.0.book, best_ask m.0.book)

-- An incoming iceberg rests its reserve at a price that the other side still offers.
crossing_iceberg :
    bests (
      submit_all 20 engine_of_sells
        (submit_new (order 4 Side.buy OrderType.iceberg 100 0 20 5) ∷ []))
    ≡ ok (some (pos 100), some (pos 100))
unfolding bests submit_all best_level insert_order adjust emplace beyond_limit push_back front
    find_order find_id put_level store sub64 update_order_quantity reduce_level_volume
crossing_iceberg = refl

-- A modification moves a resting order through the other side.
crossing_modify :
    bests (submit_all 20 engine_of_sells (submit_new (buy_limit 4 90 5) ∷ modify 4 105 0 ∷ []))
    ≡ ok (some (pos 105), some (pos 100))
unfolding bests submit_all best_level insert_order adjust emplace beyond_limit push_back find_order
    find_id store cancel_order find empty remove erase_key
crossing_modify = refl

match_limit_finishes_example :
    (m : Matched) × (match_limit
        (process_new_order 200)
        200
        engine_of_sells
        (buy_limit 4 100 12)
        no_result
      ≡ ok m)
    × Valid (nothing_held ⊕ one 4) m.0
    × (m.1 ≡ record (buy_limit 4 100 12) { quantity = m.1.quantity; status = m.1.status })
    × IsFinished m.0 m.1
unfolding insert_order store erase_id
match_limit_finishes_example =
    match_limit_finishes 200 nothing_held engine_of_sells (buy_limit 4 100 12) no_result
      one_in_flight (omega arith)

-- The buy stop 4 is cancelled behind the buy stop 5.
abbrev stop_order : OrderId → Order
stop_order id = order id Side.buy OrderType.stop 0 110 3 0

abbrev waiting_stops : Engine
waiting_stops = record engine_of_sells { pending_stops = stop_order 5 ∷ stop_order 4 ∷ [] }

abbrev cancel_4 : CancelOrderEvent
cancel_4 = record { order_id = 4; timestamp = 9 }

-- Order 2 moves from 100 to 101, where it was never cancelled.
abbrev to_101 : ModifyOrderEvent
to_101 = record { order_id = 2; new_price = pos 101; new_quantity = 0; timestamp = 9 }

unmarked_at_101 :
    (o : Order)
    → find_id 2 book_of_sells.id_map ≡ some o
    → is_resting o ≡ true
    → requeues to_101 o ≡ true
    → member o.id (marks_at (cancel_order book_of_sells o.id).0 o.side (modified to_101 o).price)
      ≡ false
unfolding insert_order store erase_id find_id cancel_order cancel_in find adjust emplace erase_key
    push_back remove empty drain_cancelled
unmarked_at_101 o h rests back =
    let same : sell_limit 2 100 5 ≡ o = cc h in
    subst
      (λ (x : Order).
        member x.id (marks_at (cancel_order book_of_sells x.id).0 x.side (modified to_101 x).price)
        ≡ false)
      same refl

process_modify-Valid_example : Valid nothing_held (process_modify engine_of_sells to_101).0
process_modify-Valid_example =
    process_modify-Valid nothing_held engine_of_sells to_101 none_in_flight unmarked_at_101

-- Order 2 stands behind order 1; its reduction to 3 puts nothing back.
reduced_in_place :
    Valid nothing_held
      (process_modify engine_of_sells
        (record { order_id = 2; new_price = pos 0; new_quantity = 3; timestamp = 9 })).0
unfolding insert_order store erase_id find_id
reduced_in_place =
    process_modify-Valid nothing_held engine_of_sells
      (record { order_id = 2; new_price = pos 0; new_quantity = 3; timestamp = 9 }) none_in_flight
      (λ o h rests back.
        let same : sell_limit 2 100 5 ≡ o = cc h in
        let never : false ≡ true =
          subst
            (λ x.
              requeues (record { order_id = 2; new_price = pos 0; new_quantity = 3; timestamp = 9 })
                x
              ≡ true)
            (sym same) back in
        absurd (cc never))

abbrev stops : List Order
stops = sell_limit 7 90 1 ∷ sell_limit 8 80 1 ∷ []
