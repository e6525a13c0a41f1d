-- ===== src/Tests/Level.antt =====
-- Runs of a price level.
use lob_engine.Prelude.{◌≡◌, refl, pos, List, [], ◌∷◌, ◌++◌, ◌⊎◌, ok, fault, Fault, erase_first}
use lob_engine.Core.{OrderId}
use lob_engine.Level.{PriceLevel, remove, pop_front, drain_cancelled}
use lob_engine.Level.Fifo.{live_ids, IsLevel}
use lob_engine.Level.Refine.{remove_refines, pop_front_refines}
use lob_engine.Level.Requeue.{requeued, requeued_stays}

-- The ids 1 to 4, of which 1 and 3 are cancelled.
abbrev half_cancelled : PriceLevel
half_cancelled = record {
  price = pos 100;
  total_volume = 20;
  queue = 1 ∷ 2 ∷ 3 ∷ 4 ∷ [];
  cancelled = 3 ∷ 1 ∷ [];
}

half_cancelled-IsLevel : IsLevel half_cancelled
half_cancelled-IsLevel = record { accounted = refl; distinct = (refl, (refl, tt)) }

remove_refines_example :
    (live_ids (remove half_cancelled 4 10) ≡ erase_first 4 (live_ids half_cancelled))
    × IsLevel (remove half_cancelled 4 10)
remove_refines_example = remove_refines half_cancelled 4 10 half_cancelled-IsLevel refl refl

pop_front_refines_example :
    ((live_ids half_cancelled ≡ []) × (pop_front half_cancelled 10 ≡ fault Fault.empty_deque))
    ⊎ ((x : OrderId) × (xs : List OrderId) × (l' : PriceLevel) × (live_ids half_cancelled ≡ x ∷ xs)
        × (pop_front half_cancelled 10 ≡ ok l')
        × (live_ids l' ≡ xs)
        × IsLevel l'
        × (l'.price ≡ half_cancelled.price)
        × (l'.cancelled ≡ (drain_cancelled half_cancelled).cancelled))
pop_front_refines_example = pop_front_refines half_cancelled 10 half_cancelled-IsLevel

requeued_stays_example :
    live_ids (remove (requeued half_cancelled 4 10 20) 4 20) ≡ erase_first 4 (2 ∷ 4 ∷ []) ++ 4 ∷ []
requeued_stays_example =
    requeued_stays half_cancelled 4 2 (4 ∷ []) 10 20 20 half_cancelled-IsLevel refl refl refl refl
