-- ===== src/Snapshot/Restored.antt =====
-- The book that `load` of src/snapshot/snapshot.cpp restores from a file that `save` wrote.
use lob_engine.Prelude.{
  ℕ, ◌≡◌, refl, sym, ap, ◌∙◌, ◌^◌, ◌<◌, true, false, Option, none, some, List, [], ◌∷◌, ◌++◌, arith,
  Bool-cases, Option-cases, inl, inr, member, Distinct, length, append-nil, append_assoc,
  if◌then◌else◌, ◌==◌, ==_iff, ==_refl,
}
use lob_engine.Core.{OrderId, Price, Side, Order}
use lob_engine.Book.{OrderBook, find_id, insert_order, order_count, empty_book}
use lob_engine.Book.IdMap.{find_id-store}
use lob_engine.Book.Coherent.{IsCoherent, Agrees-IsCoherent, view_at, marks_at, lies_at}
use lob_engine.Book.Insert.{
  view_at-insert_order, marks_at-insert_order, insert_order-IsCoherent, id_map-insert_order,
  last_trade_price-insert_order,
}
use lob_engine.OrderedMap.{find}
use lob_engine.Book.Agree.{Agrees-last_trade_price}
use lob_engine.Engine.Valid.{empty-IsCoherent}
use lob_engine.Snapshot.{Layout, load, save, saved_orders}
use lob_engine.Snapshot.Saved.{ids_at, ids_at-saved_orders}
use lob_engine.Snapshot.Held.{
  ids, found_member, saved_ids-Distinct, find_id-saved_orders, order_count-saved_orders,
}
use lob_engine.Snapshot.RoundTrip.{AllFit, insert_all, load-save}

-- A book that none of the ids is used in.
record IsFree (b : OrderBook) (os : List Order) : Type 0 where
  coherent : IsCoherent b
  absent : (x : OrderId) → member x (ids os) ≡ true → find_id x b.id_map ≡ none
  clear : (t : Side) (q : Price) → marks_at b t q ≡ []

or_found : Option Order → Option Order → Option Order
or_found none f = f
or_found (some o) f = some o

-- One insertion leaves the book free for the others.
insert_order-IsFree :
    (b : OrderBook) (o : Order) (os : List Order)
    → IsFree b (o ∷ os)
    → Distinct (ids (o ∷ os))
    → IsFree (insert_order b o) os
insert_order-IsFree b o os v d = record {
  coherent =
      insert_order-IsCoherent b o v.coherent (v.absent o.id (rw (==_refl o.id) refl))
        (rw (v.clear o.side o.price) refl);
  absent = λ x m.
      rw (id_map-insert_order b o, find_id-store o x b.id_map)
        (ground (arith, m, d.0, v.absent x, ==_iff o.id x));
  clear = λ t q. marks_at-insert_order b o t q v.coherent ∙ v.clear t q;
}

-- Orders inserted one after the other stand behind each other in the queues of their places, and the
-- id map has all of them.
record Inserted (b : OrderBook) (os : List Order) (b' : OrderBook) : Type 0 where
  coherent : IsCoherent b'
  queues : (t : Side) (q : Price) → view_at b' t q ≡ view_at b t q ++ ids_at t q os
  found : (x : OrderId) → find_id x b'.id_map ≡ or_found (find_id x os) (find_id x b.id_map)
  priced : b'.last_trade_price ≡ b.last_trade_price

queue_grown :
    (b : OrderBook) (o : Order) (t : Side) (q : Price) (behind : List OrderId)
    → IsCoherent b
    → view_at (insert_order b o) t q ++ behind
      ≡ view_at b t q ++ (if lies_at t q o then (o.id ∷ behind) else behind)
queue_grown b o t q behind v = elim (Bool-cases (lies_at t q o)) [
  | inl e ↦ rw (view_at-insert_order b o t q v, e) (append_assoc (view_at b t q) (o.id ∷ []) behind)
  | inr e ↦ rw (view_at-insert_order b o t q v, e) refl
]

found_first :
    (b : OrderBook) (o : Order) (os : List Order) (x : OrderId)
    → member o.id (ids os) ≡ false
    → or_found (find_id x os) (find_id x (insert_order b o).id_map)
      ≡ or_found (find_id x (o ∷ os)) (find_id x b.id_map)
unfolding or_found find_id
found_first b o os x alone = elim (Bool-cases (o.id == x)) [
  | inl e ↦ elim (Option-cases (find_id x os)) [
    | inl n ↦ rw (n, id_map-insert_order b o, find_id-store o x b.id_map, e, or_found, find_id) refl
    | inr (p, f) ↦
        absurd
          (cc (ap (λ i. member i (ids os)) ((==_iff o.id x).0 e), found_member x os p f, alone))
  ]
  | inr e ↦ rw (id_map-insert_order b o, find_id-store o x b.id_map, e) refl
]

insert_all_lem :
    (os : List Order) (b : OrderBook)
    → IsFree b os
    → Distinct (ids os)
    → Inserted b os (insert_all os b)
unfolding or_found find_id
insert_all_lem [] b v d = record {
  coherent = v.coherent;
  queues = λ t q. sym (append-nil (view_at b t q));
  found = λ x. refl;
  priced = refl;
}
insert_all_lem (o ∷ os) b v d =
    let rest = insert_all_lem os (insert_order b o) (insert_order-IsFree b o os v d) d.1 in
    record {
      coherent = rest.coherent;
      queues = λ t q. rest.queues t q ∙ queue_grown b o t q (ids_at t q os) v.coherent;
      found = λ x. rest.found x ∙ found_first b o os x d.0;
      priced = rest.priced ∙ last_trade_price-insert_order b o;
    }

blank-IsFree :
    (p : Price) (os : List Order) → IsFree (record empty_book { last_trade_price = p }) os
unfolding find_id find
blank-IsFree p os = record {
  coherent =
      Agrees-IsCoherent (Agrees-last_trade_price empty_book p empty-IsCoherent) empty-IsCoherent;
  absent = λ x m. refl;
  clear = λ t q. ground arith;
}

blank_queue :
    (p : Price) (t : Side) (q : Price) (queue : List OrderId)
    → view_at (record empty_book { last_trade_price = p }) t q ++ queue ≡ queue
unfolding find
blank_queue p Side.buy q queue = refl
blank_queue p Side.sell q queue = refl

blank_found : (x : OrderId) (f : Option Order) → or_found f (find_id x empty_book.id_map) ≡ f
unfolding find_id or_found
blank_found x none = refl
blank_found x (some o) = refl

-- `save` of a coherent book, and `load` of the file into an empty book: the result is true, the
-- sequence and the stops are those that were saved, and the restored book is coherent, has the same
-- FIFO queue of live ids at each side and price, the same order for each id, and the same last
-- trade price. The condition is that the id map has no id twice, that both counts are below 2^32,
-- and that all that is written fits its machine type.
pub load-save_restores :
    (layout : Layout) (b : OrderBook) (stops old_stops : List Order) (sequence old_sequence : ℕ)
    → IsCoherent b
    → Distinct (ids b.id_map)
    → order_count b < 2 ^ 32
    → length stops < 2 ^ 32
    → sequence < 2 ^ 64
    → layout.price.Fits b.last_trade_price
    → AllFit layout (saved_orders b)
    → AllFit layout stops
    → (restored : OrderBook) × (load layout empty_book old_stops old_sequence
          (some (save layout b stops sequence))
        ≡ record { success = true; book = restored; pending_stops = stops; sequence = sequence })
      × IsCoherent restored
      × ((t : Side) (q : Price) → view_at restored t q ≡ view_at b t q)
      × ((id : OrderId) → find_id id restored.id_map ≡ find_id id b.id_map)
      × (restored.last_trade_price ≡ b.last_trade_price)
load-save_restores layout b stops old_stops sequence old_sequence v d small stops_small seq ltp fits
      stops_fit =
    let count = order_count-saved_orders b v d in
    let blank : OrderBook = record empty_book { last_trade_price = b.last_trade_price } in
    let done =
      insert_all_lem (saved_orders b) blank (blank-IsFree b.last_trade_price (saved_orders b))
        (saved_ids-Distinct b v) in
    (
      insert_all (saved_orders b) blank,
      load-save layout b empty_book stops old_stops sequence old_sequence count small stops_small
          seq ltp fits stops_fit,
      done.coherent,
      λ t q.
          done.queues t q
          ∙ blank_queue b.last_trade_price t q (ids_at t q (saved_orders b))
          ∙ ids_at-saved_orders b v t q,
      λ x. done.found x ∙ blank_found x (find_id x (saved_orders b)) ∙ find_id-saved_orders b v x,
      done.priced,
    )
