-- ===== src/Engine/Match.antt =====
-- src/engine/matching_engine.cpp: `match_limit` and `match_market`. Fuel bounds the rounds.
use lob_engine.Prelude.{
  ℕ, zero, suc, Bool, ◌&&◌, ◌||◌, Option, none, some, ltb_ℤ, ◌==◌, if◌then◌else◌, min, Run, ok,
  fault, out_of_fuel, Fault, ◌>>=◌,
}
use lob_engine.Core.{Price, OrderStatus, RejectReason, Order, is_buy, is_sell, Rejection}
use lob_engine.Level.{PriceLevel, front}
use lob_engine.Book.{find_order, best_level, put_level}
use lob_engine.Engine.State.{push_rejection, MatchResult, Engine}
use lob_engine.Engine.Fill.{opposite, Matched, execute_fill}

-- The price is worse than the limit of the aggressor.
unfoldable pub beyond_limit : Order → Price → Bool
beyond_limit a p = is_buy a && ltb_ℤ a.price p || is_sell a && ltb_ℤ p a.price

abbrev pub deref : Option Order → Run Order
deref none = fault Fault.null_order
deref (some o) = ok o

-- The end of both loops: a filled aggressor gets its status.
abbrev pub mark_filled : Order → Order
mark_filled a = if a.quantity == 0 then record a { status = OrderStatus.filled } else a

abbrev pub exhausted : Order → Rejection
exhausted a = record { order_id = a.id; reason = RejectReason.market_exhausted; timestamp = 0 }

module _ (new_order : Engine → Order → Run (Engine × MatchResult)) where
  -- The rest of a round, once the passive level stands.
  unfoldable pub fill_front : Engine → Order → Price × PriceLevel → MatchResult → Run Matched
  unfolding execute_fill
  fill_front e a (k, l) r = do
    (passive_id, l') ← front l
    let e' = record e { book = put_level e.book (opposite a.side) k l' }
    p ← deref (find_order e'.book passive_id)
    execute_fill new_order e' a p (min a.quantity p.quantity) r

  unfoldable pub limit_loop : ℕ → Engine → Order → MatchResult → Run Matched
  unfolding fill_front
  limit_loop zero e a r = out_of_fuel
  limit_loop (suc f) e a r =
      let round = λ (kl : Price × PriceLevel).
        fill_front e a kl r >>= λ (m : Matched). limit_loop f m.0 m.1 m.2 in
      if a.quantity == 0 then ok (e, a, r) else elim (best_level (opposite a.side) e.book) [
        | none ↦ ok (e, a, r)
        | some (k, l) ↦ if beyond_limit a l.price then ok (e, a, r) else round (k, l)
      ]

  unfoldable pub match_limit : ℕ → Engine → Order → MatchResult → Run Matched
  unfolding limit_loop
  match_limit f e a r = do (e', a', r') ← limit_loop f e a r; ok (e', mark_filled a', r')

  unfoldable pub market_loop : ℕ → Engine → Order → MatchResult → Run Matched
  unfolding fill_front
  market_loop zero e a r = out_of_fuel
  market_loop (suc f) e a r =
      let round = λ (kl : Price × PriceLevel).
        fill_front e a kl r >>= λ (m : Matched). market_loop f m.0 m.1 m.2 in
      if a.quantity == 0 then ok (e, a, r) else elim (best_level (opposite a.side) e.book) [
        | none ↦ ok (e, record a { status = OrderStatus.cancelled }, push_rejection r (exhausted a))
        | some kl ↦ round kl
      ]

  unfoldable pub match_market : ℕ → Engine → Order → MatchResult → Run Matched
  unfolding market_loop
  match_market f e a r = do (e', a', r') ← market_loop f e a r; ok (e', mark_filled a', r')
