-- ===== src/Book/IdMap.antt =====
-- The laws of the id map: lookups after each update.
use lob_engine.Prelude.{◌≡◌, none, some, List, [], ◌∷◌, ◌==◌, if◌then◌else◌, arith}
use lob_engine.Core.{OrderId, Order}
use lob_engine.OrderedMap.Laws.{map_option}
use lob_engine.Book.{find_id, erase_id, store, adjust_order}

pub find_id-id : (i : OrderId) (os : List Order) (o : Order) → find_id i os ≡ some o → o.id ≡ i
unfolding find_id
find_id-id i [] o h = cc
find_id-id i (x ∷ os) o h = ground (arith, find_id-id i os o)

pub find_id-erase_id :
    (i j : OrderId) (os : List Order)
    → find_id j (erase_id i os) ≡ (if i == j then none else find_id j os)
unfolding find_id erase_id
find_id-erase_id i j [] = ground arith
find_id-erase_id i j (o ∷ os) = ground (arith, find_id-erase_id i j os)

pub find_id-store :
    (o : Order) (j : OrderId) (os : List Order)
    → find_id j (store o os) ≡ (if o.id == j then some o else find_id j os)
unfolding find_id store
find_id-store o j os = ground (arith, find_id-erase_id o.id j os)

pub find_id-adjust_order :
    (i j : OrderId) (f : Order → Order) (os : List Order)
    → ((o : Order) → o.id ≡ i → (f o).id ≡ i)
    → find_id j (adjust_order i f os)
      ≡ (if i == j then map_option f (find_id j os) else find_id j os)
unfolding find_id adjust_order
find_id-adjust_order i j f [] keep = ground arith
find_id-adjust_order i j f (o ∷ os) keep =
    ground (arith, keep o, find_id-adjust_order i j f os keep)
