-- ===== src/Snapshot/RoundTrip.antt =====
-- What `load` of src/snapshot/snapshot.cpp makes of a file that `save` wrote.
use lob_engine.Prelude.{
  ◌≡◌, refl, sym, ap, subst, ◌∙◌, ◌^◌, ◌<◌, ℕ, true, some, List, [], ◌∷◌, ◌++◌, pos, arith, length,
  Bytes, append-nil, append_assoc,
}
use lob_engine.Core.{Order}
use lob_engine.Book.{OrderBook, insert_order, order_count}
use lob_engine.Snapshot.{
  Layout, Raw, blank_order, load, load_rest, load_orders, load_stops, save, put_orders,
  saved_orders, to_u32, read, magic_number,
}

-- The orders inserted one after the other.
abbrev pub insert_all : List Order → OrderBook → OrderBook
insert_all [] book = book
insert_all (o ∷ os) book = insert_all os (insert_order book o)

-- Every order of the list fits the machine's struct.
abbrev pub AllFit : Layout → List Order → Type 0
AllFit layout [] = Unit {0}
AllFit layout (o ∷ os) = layout.order.Fits o × AllFit layout os

-- A read of an object that is written in front.
read-put :
    {A : Type 0} (r : Raw A) (old a : A) (file rest : Bytes)
    → r.Fits a
    → file ≡ r.put a ++ rest
    → read r old (some file) ≡ (a, some rest)
read-put r old a file rest fit e = ap (λ f. r.get old f) e ∙ r.get-put old a rest fit

load_orders-put_orders :
    (layout : Layout) (os : List Order) (book : OrderBook) (rest : Bytes)
    → AllFit layout os
    → load_orders layout (length os) book (some (put_orders layout os ++ rest))
      ≡ (insert_all os book, some rest)
load_orders-put_orders layout [] book rest fits = refl
load_orders-put_orders layout (o ∷ os) book rest (fit, fits) =
    ap (λ p. load_orders layout (length os) (insert_order book p.0) p.1)
      (read-put layout.order blank_order o _ (put_orders layout os ++ rest) fit
        (append_assoc (layout.order.put o) (put_orders layout os) rest))
    ∙ load_orders-put_orders layout os (insert_order book o) rest fits

load_stops-put_orders :
    (layout : Layout) (os stops : List Order)
    → AllFit layout os
    → load_stops layout (length os) stops (some (put_orders layout os)) ≡ (stops ++ os, some [])
load_stops-put_orders layout [] stops fits = ap (λ x. (x, some [])) (sym (append-nil stops))
load_stops-put_orders layout (o ∷ os) stops (fit, fits) =
    ap (λ p. load_stops layout (length os) (stops ++ p.0 ∷ []) p.1)
      (read-put layout.order blank_order o _ (put_orders layout os) fit refl)
    ∙ (load_stops-put_orders layout os (stops ++ o ∷ []) fits
        ∙ ap (λ x. (x, some [])) (append_assoc stops (o ∷ []) os))

to_u32_small : (n : ℕ) → n < 2 ^ 32 → to_u32 n ≡ n
unfolding to_u32
to_u32_small n h = omega arith

-- From a file that `save` wrote, `load` reads the sequence and the stops back, and inserts the saved
-- orders, in order, into the book that it is given, whose last trade price it sets. The condition
-- is that the count written is the number of orders written, that both counts are below 2^32 and
-- that all that is written fits its machine type.
pub load-save :
    (layout : Layout) (b book : OrderBook) (stops old_stops : List Order)
    (sequence old_sequence : ℕ)
    → order_count b ≡ length (saved_orders b)
    → order_count b < 2 ^ 32
    → length stops < 2 ^ 32
    → sequence < 2 ^ 64
    → layout.price.Fits b.last_trade_price
    → AllFit layout (saved_orders b)
    → AllFit layout stops
    → load layout book old_stops old_sequence (some (save layout b stops sequence)) ≡ record {
      success = true;
      book = insert_all (saved_orders b) (record book { last_trade_price = b.last_trade_price });
      pending_stops = stops;
      sequence = sequence;
    }
unfolding load load_rest save
load-save layout b book stops old_stops sequence old_sequence count small stops_small seq ltp fits
      stops_fit =
    let orders = saved_orders b in
    let written : to_u32 (order_count b) ≡ length orders =
      to_u32_small (order_count b) small ∙ count in
    let few : length orders < 2 ^ 32 = subst (λ n. n < 2 ^ 32) count small in
    rw
      (
        written,
        to_u32_small (length stops) stops_small,
        layout.u32.get-put 0 magic_number _ (layout.u32-Fits magic_number (omega arith)),
        layout.u64.get-put old_sequence sequence _ (layout.u64-Fits sequence seq),
        layout.price.get-put (pos 0) b.last_trade_price _ ltp,
        layout.u32.get-put 0 (length orders) _ (layout.u32-Fits (length orders) few),
        load_orders-put_orders layout orders (record book { last_trade_price = b.last_trade_price })
            _ fits,
        layout.u32.get-put 0 (length stops) _ (layout.u32-Fits (length stops) stops_small),
        load_stops-put_orders layout stops [] stops_fit,
      )
      refl
