-- ===== src/Engine/Valid.antt =====
-- The invariant of the engine. `held` counts the ids of the orders that are in flight: an
-- aggressor that is being matched, and stops that were swapped out and wait for their turn.
use lob_engine.Prelude.{
  ℕ, ◌+◌, ◌≤◌, ◌<◌, ◌≡◌, refl, List, [], ◌∷◌, ◌++◌, ◌==◌, ==_refl, if◌then◌else◌, arith,
}
use lob_engine.Core.{OrderId, Order, Side}
use lob_engine.OrderedMap.{find}
use lob_engine.Book.{OrderBook, empty_book, insert_order, find_id, levels}
use lob_engine.Book.Coherent.{IsCoherent, Unused}
use lob_engine.Book.Insert.{insert_order-IsCoherent, insert_order-Unused}
use lob_engine.Engine.State.{Engine, initial}

abbrev pub Frame : Type 0
Frame = OrderId → ℕ

abbrev pub one : OrderId → Frame
one a i = if a == i then 1 else 0

infixl 65 ◌⊕◌
abbrev pub ◌⊕◌ : Frame → Frame → Frame
(g ⊕ h) i = g i + h i

abbrev pub count_id : OrderId → List Order → ℕ
count_id i [] = 0
count_id i (o ∷ os) = one o.id i + count_id i os

pub count_id-append :
    (i : OrderId) (xs ys : List Order) → count_id i (xs ++ ys) ≡ count_id i xs + count_id i ys
count_id-append i [] ys = omega arith
count_id-append i (x ∷ xs) ys = omega (arith, count_id-append i xs ys)

-- The book is coherent, no id is in flight or pending twice, and none that is stands in the book.
pub record Valid (held : Frame) (e : Engine) : Type 0 where
  pub coherent : IsCoherent e.book
  pub single : (i : OrderId) → held i + count_id i e.pending_stops ≤ 1
  pub unused : (i : OrderId) → 0 < held i + count_id i e.pending_stops → Unused i e.book

pub Valid-mono : {g h : Frame} {e : Engine} → ((i : OrderId) → g i ≤ h i) → Valid h e → Valid g e
Valid-mono {g} {h} {e} le v = record {
  coherent = v.coherent;
  single = λ i. omega (arith, le i, v.single i);
  unused = λ i p. v.unused i (omega (arith, le i, p));
}

-- A change of the book that keeps it coherent and the unused ids unused.
pub Valid-book :
    {h : Frame} (e : Engine) (b : OrderBook)
    → Valid h e
    → IsCoherent b
    → ((i : OrderId) → Unused i e.book → Unused i b)
    → Valid h (record e { book = b })
Valid-book e b v c u = record {
  coherent = c;
  single = v.single;
  unused = λ i p. u i (v.unused i p);
}

-- The book has no order with the id of one in flight.
pub Valid-Unused : (h : Frame) (id : OrderId) {e : Engine} → Valid (h ⊕ one id) e → Unused id e.book
Valid-Unused h id v = v.unused id (rw (==_refl id) (omega arith))

-- An order in flight comes to rest in the book.
pub Valid-insert :
    {h : Frame} (e : Engine) (o : Order)
    → Valid (h ⊕ one o.id) e
    → Valid h (record e { book = insert_order e.book o })
Valid-insert {h} e o v =
    let u = Valid-Unused h o.id v in
    record {
      coherent = insert_order-IsCoherent e.book o v.coherent u.absent (u.clear o.side o.price);
      single = λ i. omega (arith, v.single i);
      unused = λ i p.
          insert_order-Unused e.book o i v.coherent (ground (arith, v.single i))
            (v.unused i (omega (arith, p)));
    }

-- An order in flight becomes a pending stop.
pub Valid-park :
    {h : Frame} (e : Engine) (o : Order)
    → Valid (h ⊕ one o.id) e
    → Valid h (record e { pending_stops = e.pending_stops ++ o ∷ [] })
Valid-park {h} e o v = record {
  coherent = v.coherent;
  single = λ i. omega (arith, v.single i, count_id-append i e.pending_stops (o ∷ []));
  unused = λ i p. v.unused i (omega (arith, p, count_id-append i e.pending_stops (o ∷ [])));
}

levels-empty : (s : Side) → levels s empty_book ≡ []
levels-empty Side.buy = refl
levels-empty Side.sell = refl

pub empty-IsCoherent : IsCoherent empty_book
unfolding find_id find
empty-IsCoherent = record {
  sound = λ s. rw (levels-empty s) (record { each = tt; sorted = tt });
  located = λ s p id. rw (levels-empty s);
  distinct = λ s p. rw (levels-empty s) tt;
  unmarked = λ s p id h. rw (levels-empty s);
}

empty-Unused : (i : OrderId) → Unused i empty_book
unfolding find_id find
empty-Unused i = record { absent = refl; clear = λ s p. rw (levels-empty s) }

-- The engine starts out valid, with any ids in flight that are all different.
pub initial-Valid : (h : Frame) → ((i : OrderId) → h i ≤ 1) → Valid h initial
initial-Valid h le = record {
  coherent = empty-IsCoherent;
  single = λ i. omega (arith, le i);
  unused = λ i _. empty-Unused i;
}
