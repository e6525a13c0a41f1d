-- ===== src/Level.antt =====
-- src/book/price_level.hpp and price_level.cpp: one price level, with lazy deletion.
-- The deque is a list, front first; the unordered_set `cancelled_` is a list without repetition.
-- `front` and `empty` drain the deque, so they return the level that they leave behind.
pub mod Fifo
pub mod Refine
pub mod Requeue
use lob_engine.Prelude.{
  ℕ, suc, ◌+◌, ◌-◌, ◌≤◌, Bool, true, false, not, List, [], ◌∷◌, ◌++◌, ℤ, Run, ok, fault, Fault,
  ◌>>=◌, leb, if◌then◌else◌, length, member, erase, add64, sub64,
}
use lob_engine.Core.{OrderId, Quantity, Price}

pub record PriceLevel : Type 0 where
  pub price : Price
  pub total_volume : Quantity
  pub queue : List OrderId
  pub cancelled : List OrderId

-- `PriceLevel{price}`
abbrev pub empty_level : Price → PriceLevel
empty_level p = record { price = p; total_volume = 0; queue = []; cancelled = [] }

-- `unordered_set::insert`
abbrev pub set_insert : ℕ → List ℕ → List ℕ
set_insert a c = if member a c then c else a ∷ c

-- `(total_volume_ >= q) ? total_volume_ - q : 0`
abbrev pub reduced : Quantity → Quantity → Quantity
reduced total q = if leb q total then total - q else 0

unfoldable pub push_back : PriceLevel → OrderId → Quantity → PriceLevel
push_back l id visible_qty = record l {
  queue = l.queue ++ id ∷ [];
  total_volume = add64 l.total_volume visible_qty;
}

-- The loop of `drain_cancelled`, on the deque and the set.
abbrev pub drain : List OrderId → List OrderId → List OrderId × List OrderId
drain [] c = ([], c)
drain (x ∷ q) c = let rest = drain q (erase x c) in if member x c then rest else (x ∷ q, c)

unfoldable pub drain_cancelled : PriceLevel → PriceLevel
drain_cancelled l = let (q, c) = drain l.queue l.cancelled in record l { queue = q; cancelled = c }

unfoldable pub reduce_front_volume : PriceLevel → Quantity → PriceLevel
reduce_front_volume l qty = record l { total_volume = reduced l.total_volume qty }

-- The front of a drained deque, and what is behind it.
abbrev pub split_front : List OrderId → Run (OrderId × List OrderId)
split_front [] = fault Fault.empty_deque
split_front (x ∷ q) = ok (x, q)

unfoldable pub pop_front : PriceLevel → Quantity → Run PriceLevel
unfolding drain_cancelled
pop_front l filled_qty = do
  let d = drain_cancelled l
  (_, rest) ← split_front d.queue
  ok (record d { queue = rest; total_volume = reduced d.total_volume filled_qty })

unfoldable pub remove : PriceLevel → OrderId → Quantity → PriceLevel
remove l id visible_qty = record l {
  cancelled = set_insert id l.cancelled;
  total_volume = reduced l.total_volume visible_qty;
}

unfoldable pub front : PriceLevel → Run (OrderId × PriceLevel)
unfolding drain_cancelled
front l = do let d = drain_cancelled l; (x, _) ← split_front d.queue; ok (x, d)

abbrev pub is_nil : List OrderId → Bool
is_nil [] = true
is_nil (x ∷ q) = false

unfoldable pub empty : PriceLevel → Bool × PriceLevel
unfolding drain_cancelled
empty l = let d = drain_cancelled l in (is_nil d.queue, d)

-- `queue_.size() - cancelled_.size()`, in size_t.
unfoldable pub size : PriceLevel → ℕ
size l = sub64 (length l.queue) (length l.cancelled)

abbrev pub keep_uncancelled : List OrderId → List OrderId → List OrderId
keep_uncancelled c [] = []
keep_uncancelled c (x ∷ q) =
    let rest = keep_uncancelled c q in if member x c then rest else (x ∷ rest)

unfoldable pub order_ids : PriceLevel → List OrderId
order_ids l = keep_uncancelled l.cancelled l.queue
