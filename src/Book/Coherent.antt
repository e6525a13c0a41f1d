-- ===== src/Book/Coherent.antt =====
-- The invariant of the book: the queues of the levels and the id map tell the same story.
use lob_engine.Prelude.{
  ◌≡◌, refl, sym, ap, ◌∙◌, Bool, true, false, ◌&&◌, Option, none, some, List, eqb_ℤ, if◌then◌else◌,
  member, Distinct,
}
use lob_engine.Core.{OrderId, Price, Side, Order}
use lob_engine.Book.{OrderBook, Levels, levels, with_levels, find_id}
use lob_engine.Book.Sound.{view, marks, IsSound}

abbrev pub same_side : Side → Side → Bool
same_side Side.buy Side.buy = true
same_side Side.sell Side.sell = true
same_side _ _ = false

-- The order lies at a side and a price.
abbrev pub lies_at : Side → Price → Order → Bool
lies_at s p o = same_side o.side s && eqb_ℤ o.price p

abbrev pub rests_at : Side → Price → Option Order → Bool
rests_at s p none = false
rests_at s p (some o) = lies_at s p o

abbrev pub view_at : OrderBook → Side → Price → List OrderId
view_at b s p = view (levels s b) p

abbrev pub marks_at : OrderBook → Side → Price → List OrderId
marks_at b s p = marks (levels s b) p

-- Both sides are sound; an id is live in a queue exactly if the id map holds it for that side and
-- price; no queue holds an id twice; a live id is not marked as cancelled.
pub record IsCoherent (b : OrderBook) : Type 0 where
  pub sound : (s : Side) → IsSound s (levels s b)
  pub located :
      (s : Side) (p : Price) (id : OrderId)
      → member id (view_at b s p) ≡ rests_at s p (find_id id b.id_map)
  pub distinct : (s : Side) (p : Price) → Distinct (view_at b s p)
  pub unmarked :
      (s : Side) (p : Price) (id : OrderId)
      → member id (view_at b s p) ≡ true
      → member id (marks_at b s p) ≡ false

-- No order of the book has the id, and no level has it marked.
pub record Unused (id : OrderId) (b : OrderBook) : Type 0 where
  pub absent : find_id id b.id_map ≡ none
  pub clear : (s : Side) (p : Price) → member id (marks_at b s p) ≡ false

-- What an operation must keep for the invariant to be kept, when it moves no order.
pub record Agrees (b b' : OrderBook) : Type 0 where
  pub sound : (s : Side) → IsSound s (levels s b')
  pub members :
      (s : Side) (p : Price) (id : OrderId) → member id (view_at b' s p) ≡ member id (view_at b s p)
  pub distinct : (s : Side) (p : Price) → Distinct (view_at b' s p)
  pub marked :
      (s : Side) (p : Price) (id : OrderId)
      → member id (marks_at b s p) ≡ false
      → member id (marks_at b' s p) ≡ false
  pub rests :
      (s : Side) (p : Price) (id : OrderId)
      → rests_at s p (find_id id b'.id_map) ≡ rests_at s p (find_id id b.id_map)
  pub absent : (id : OrderId) → find_id id b.id_map ≡ none → find_id id b'.id_map ≡ none

pub Agrees-IsCoherent : {b b' : OrderBook} → Agrees b b' → IsCoherent b → IsCoherent b'
Agrees-IsCoherent a v = record {
  sound = a.sound;
  located = λ s p id. a.members s p id ∙ v.located s p id ∙ sym (a.rests s p id);
  distinct = a.distinct;
  unmarked = λ s p id h. a.marked s p id (v.unmarked s p id (sym (a.members s p id) ∙ h));
}

pub Agrees-Unused : {b b' : OrderBook} (id : OrderId) → Agrees b b' → Unused id b → Unused id b'
Agrees-Unused id a u = record {
  absent = a.absent id u.absent;
  clear = λ s p. a.marked s p id (u.clear s p);
}

pub levels-with_levels :
    (s t : Side) (b : OrderBook) (m : Levels)
    → levels t (with_levels s b m) ≡ (if same_side s t then m else levels t b)
levels-with_levels Side.buy Side.buy b m = refl
levels-with_levels Side.buy Side.sell b m = refl
levels-with_levels Side.sell Side.buy b m = refl
levels-with_levels Side.sell Side.sell b m = refl

pub id_map-with_levels :
    (s : Side) (b : OrderBook) (m : Levels) → (with_levels s b m).id_map ≡ b.id_map
id_map-with_levels Side.buy b m = refl
id_map-with_levels Side.sell b m = refl

pub last_trade_price-with_levels :
    (s : Side) (b : OrderBook) (m : Levels)
    → (with_levels s b m).last_trade_price ≡ b.last_trade_price
last_trade_price-with_levels Side.buy b m = refl
last_trade_price-with_levels Side.sell b m = refl

pub same_side_eq : (s t : Side) → same_side s t ≡ true → s ≡ t
same_side_eq Side.buy Side.buy h = refl
same_side_eq Side.buy Side.sell h = cc
same_side_eq Side.sell Side.buy h = cc
same_side_eq Side.sell Side.sell h = refl

pub same_side_refl : (s : Side) → same_side s s ≡ true
same_side_refl Side.buy = refl
same_side_refl Side.sell = refl

-- An id that the book does not hold is live in no queue.
pub absent_view :
    {b : OrderBook} (id : OrderId) (s : Side) (p : Price)
    → IsCoherent b
    → find_id id b.id_map ≡ none
    → member id (view_at b s p) ≡ false
absent_view id s p v n = v.located s p id ∙ ap (rests_at s p) n

-- Every id that is live in a queue of the second book is live in the same queue of the first.
abbrev pub Shrinks : OrderBook → OrderBook → Type 0
Shrinks b b' =
    (s : Side) (p : Price) (id : OrderId)
    → member id (view_at b' s p) ≡ true
    → member id (view_at b s p) ≡ true

pub Agrees-Shrinks : {b b' : OrderBook} → Agrees b b' → Shrinks b b'
Agrees-Shrinks a s p id h = sym (a.members s p id) ∙ h
