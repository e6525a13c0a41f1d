-- ===== src/Engine/Finish.antt =====
-- The end of `match_limit` in src/engine/matching_engine.cpp.
use lob_engine.Prelude.{ℕ, ◌+◌, ◌<◌, ◌≡◌, arith, ok}
use lob_engine.Core.{Order}
use lob_engine.Engine.State.{Engine, MatchResult}
use lob_engine.Engine.Fill.{Matched}
use lob_engine.Engine.Match.{match_limit}
use lob_engine.Engine.NewOrder.{process_new_order}
use lob_engine.Engine.Weight.{weight, engine_weight}
use lob_engine.Engine.Valid.{Frame, one, ◌⊕◌, Valid}
use lob_engine.Engine.Trace.{anyone}
use lob_engine.Engine.Ended.{IsFinished, match_limit-IsFinished}
use lob_engine.Engine.Loops.{match_limit-Matches}
use lob_engine.Engine.Total.{process_new_order-Lands, anyone-Waiting}

-- Matching a limit order against a valid engine ends, on enough fuel, with a valid engine and with
-- the order filled, or nothing left on the other side, or the best price there beyond the limit;
-- of the order only the quantity and the status change.
pub match_limit_finishes :
    (fuel : ℕ) (h : Frame) (e : Engine) (a : Order) (r : MatchResult)
    → Valid (h ⊕ one a.id) e
    → engine_weight e + weight a < fuel
    → (m : Matched) × (match_limit (process_new_order fuel) fuel e a r ≡ ok m)
      × Valid (h ⊕ one a.id) m.0
      × (m.1 ≡ record a { quantity = m.1.quantity; status = m.1.status })
      × IsFinished m.0 m.1
match_limit_finishes fuel h e a r v w =
    let new_order = process_new_order fuel in
    let (m, done, x, _) =
      match_limit-Matches anyone fuel new_order (process_new_order-Lands anyone fuel) h fuel e a r v
        w (omega (arith, w)) tt (anyone-Waiting e.pending_stops) in
    (m, done, x.valid, x.aggressor, match_limit-IsFinished new_order fuel e a r m done)
