-- ===== src/Engine/Weight.antt =====
-- A measure for the engine: what its orders can still trade. It bounds the fuel.
use lob_engine.Prelude.{
  ℕ, ◌+◌, ◌*◌, ◌≤◌, ◌≡◌, some, List, [], ◌∷◌, ◌++◌, ◌==◌, if◌then◌else◌, arith, sub64,
}
use lob_engine.Core.{OrderId, Order, OrderType}
use lob_engine.Book.{find_id, erase_id, store, adjust_order}
use lob_engine.Engine.State.{Engine}

-- A resting order, or one that is being matched.
abbrev pub weight : Order → ℕ
weight o = 2 * (o.quantity + o.reserve_qty) + (if o.quantity == 0 then 1 else 0) + 1

abbrev pub weights : List Order → ℕ
weights [] = 0
weights (o ∷ os) = weight o + weights os

-- A pending stop.
abbrev pub stop_weight : Order → ℕ
stop_weight o = 2 * (o.quantity + o.reserve_qty) + 3

abbrev pub stop_weights : List Order → ℕ
stop_weights [] = 0
stop_weights (o ∷ os) = stop_weight o + stop_weights os

-- An order that is submitted. The reserve of an iceberg is what the engine computes.
abbrev pub load_as : OrderType → Order → ℕ
load_as OrderType.iceberg o = 2 * (o.peak_qty + sub64 o.quantity o.peak_qty) + 2
load_as OrderType.stop o = stop_weight o
load_as OrderType.stop_limit o = stop_weight o
load_as OrderType.limit o = 2 * (o.quantity + o.reserve_qty) + 2
load_as OrderType.market o = 2 * (o.quantity + o.reserve_qty) + 2

abbrev pub load : Order → ℕ
load o = load_as o.type o

abbrev pub engine_weight : Engine → ℕ
engine_weight e = weights e.book.id_map + stop_weights e.pending_stops

pub weights-erase_id : (i : OrderId) (os : List Order) → weights (erase_id i os) ≤ weights os
unfolding erase_id
weights-erase_id i [] = omega arith
weights-erase_id i (o ∷ os) = ground (arith, weights-erase_id i os)

pub weights-erase_found :
    (i : OrderId) (os : List Order) (o : Order)
    → find_id i os ≡ some o
    → weights (erase_id i os) + weight o ≤ weights os
unfolding find_id erase_id
weights-erase_found i [] o h = absurd (cc h)
weights-erase_found i (x ∷ os) o h =
    ground (arith, weights-erase_found i os o, weights-erase_id i os)

pub weights-store : (o : Order) (os : List Order) → weights (store o os) ≤ weights os + weight o
unfolding store
weights-store o os = omega (arith, weights-erase_id o.id os)

pub weights-adjust_order :
    (i : OrderId) (f : Order → Order) (os : List Order) (o : Order)
    → find_id i os ≡ some o
    → weights (adjust_order i f os) + weight o ≡ weights os + weight (f o)
unfolding find_id adjust_order
weights-adjust_order i f [] o h = absurd (cc h)
weights-adjust_order i f (x ∷ os) o h = ground (arith, weights-adjust_order i f os o)

pub stop_weights-append :
    (xs ys : List Order) → stop_weights (xs ++ ys) ≡ stop_weights xs + stop_weights ys
stop_weights-append [] ys = omega arith
stop_weights-append (x ∷ xs) ys = omega (arith, stop_weights-append xs ys)
