-- ===== src/Tests/Book.antt =====
-- Runs of the order book.
use lob_engine.Prelude.{◌≡◌, refl, pos, if◌then◌else◌, erase_first, [], ◌∷◌, ◌++◌}
use lob_engine.Core.{Side}
use lob_engine.Level.{push_back}
use lob_engine.OrderedMap.{find, adjust, emplace}
use lob_engine.Book.{insert_order, cancel_order, find_id, store, erase_id}
use lob_engine.Book.Coherent.{IsCoherent, view_at, lies_at}
use lob_engine.Book.Insert.{view_at-insert_order, insert_order-IsCoherent}
use lob_engine.Book.Cancel.{view_at-cancel_order, cancel_order-IsCoherent}
use lob_engine.Tests.Data.{sell_limit, book_of_sells, none_in_flight}

view_at-insert_order_example :
    view_at (insert_order book_of_sells (sell_limit 4 100 3)) Side.sell (pos 100) ≡ (
      if lies_at Side.sell (pos 100) (sell_limit 4 100 3)
      then view_at book_of_sells Side.sell (pos 100) ++ 4 ∷ []
      else view_at book_of_sells Side.sell (pos 100))
view_at-insert_order_example =
    view_at-insert_order book_of_sells (sell_limit 4 100 3) Side.sell (pos 100)
      none_in_flight.coherent

insert_order-IsCoherent_example : IsCoherent (insert_order book_of_sells (sell_limit 4 100 3))
unfolding insert_order store erase_id find_id find adjust emplace push_back
insert_order-IsCoherent_example =
    insert_order-IsCoherent book_of_sells (sell_limit 4 100 3) none_in_flight.coherent refl refl

view_at-cancel_order_example : view_at (cancel_order book_of_sells 1).0 Side.sell (pos 100) ≡ (
    if lies_at Side.sell (pos 100) (sell_limit 1 100 10)
    then erase_first 1 (view_at book_of_sells Side.sell (pos 100))
    else view_at book_of_sells Side.sell (pos 100))
unfolding insert_order store erase_id find_id
view_at-cancel_order_example =
    view_at-cancel_order book_of_sells (sell_limit 1 100 10) none_in_flight.coherent refl Side.sell
      (pos 100)

cancel_order-IsCoherent_example : IsCoherent (cancel_order book_of_sells 1).0
unfolding insert_order store erase_id find_id
cancel_order-IsCoherent_example =
    cancel_order-IsCoherent book_of_sells (sell_limit 1 100 10) none_in_flight.coherent refl
