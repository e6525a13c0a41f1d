-- ===== src/Engine/Round.antt =====
-- One round of a matching loop: `fill_front`, and in it `execute_fill`.
use lob_engine.Prelude.{
  ℕ, ◌+◌, ◌≤◌, ◌<◌, append_assoc, [], false, ◌⊎◌, ◌≡◌, refl, ap, subst, ◌∙◌, true, some, List, [],
  ◌∷◌, ◌==◌, ==_refl, if◌then◌else◌, arith, Run, ok, min, sub64-of_le,
}
use lob_engine.Core.{OrderId, Order, OrderType, Trade, Price}
use lob_engine.Level.{PriceLevel, drain_cancelled}
use lob_engine.Book.{OrderBook, best_level, put_level, find_order, find_id, adjust_order}
use lob_engine.Book.IdMap.{find_id-adjust_order}
use lob_engine.Book.Coherent.{
  IsCoherent, Shrinks, Agrees-Shrinks, Agrees, Agrees-IsCoherent, Agrees-Unused, view_at,
}
use lob_engine.Book.Agree.{
  Agrees-trans, Agrees-id_map, Agrees-last_trade_price, levels-price, id_map-put_level,
}
use lob_engine.Book.Best.{held_order, best_level-BestLevel}
use lob_engine.Book.Insert.{levels-id_map}
use lob_engine.Engine.State.{Engine, MatchResult, push_trade}
use lob_engine.Engine.Fill.{Matched, opposite, fill_trade, execute_fill, settle_passive}
use lob_engine.Engine.Match.{fill_front, beyond_limit}
use lob_engine.Engine.Trace.{Fill, Trace, Traced, filled_by, traded_book, Rules, Waiting}
use lob_engine.Engine.Weight.{weight, weights, weights-adjust_order, engine_weight}
use lob_engine.Engine.Settle.{settled}
use lob_engine.Engine.Valid.{Frame, one, ◌⊕◌, Valid, Valid-book}
use lob_engine.Engine.Stops.{LandsBelow, evaluate_stop_triggers-Lands}

-- A round: the engine stays valid with the aggressor in flight, whose quantity alone changes, and
-- the weight falls.
pub record Rounds (h : Frame) (e : Engine) (a : Order) (m : Matched) : Type 0 where
  pub valid : Valid (h ⊕ one a.id) m.0
  pub aggressor : m.1 ≡ record a { quantity = m.1.quantity }
  pub less : m.1.quantity ≤ a.quantity
  pub lighter : engine_weight m.0 + weight m.1 < engine_weight e + weight a

-- The weights that the two orders of a fill lose, with what settling takes off a filled order.
fill_weights :
    (a p : Order)
    → 0 < a.quantity
    → let q = min a.quantity p.quantity in
      weight (filled_by q a) + weight (filled_by q p) + 1
      ≤ weight a + weight p + (if (filled_by q p).quantity == 0 then 1 else 0)
fill_weights a p h = ground (
  arith,
  sub64-of_le a.quantity (min a.quantity p.quantity),
  sub64-of_le p.quantity (min a.quantity p.quantity),
)

-- A fill, and what follows it.
filled-Traced :
    {rules : Rules} {e e' e'' : Engine} {t : Trade} {r r'' : MatchResult}
    → Fill rules e t e'
    → Traced true rules e' (push_trade r t) e'' r''
    → Traced true rules e r e'' r''
filled-Traced {t = t} {r = r} f x = record {
  trades = t ∷ x.trades;
  added = x.added ∙ append_assoc r.trades (t ∷ []) x.trades;
  trace = Trace.fill f x.trace;
}

module _ (rules : Rules) (fuel : ℕ) (new_order : Engine → Order → Run (Engine × MatchResult))
    (below : LandsBelow rules fuel new_order) (h : Frame) where
  -- `execute_fill` of the order at the front of its level.
  execute_fill-Rounds :
      (e0 e : Engine) (a p : Order) (r : MatchResult) (xs : List OrderId)
      → Valid (h ⊕ one a.id) e
      → 0 < a.quantity
      → find_id p.id e.book.id_map ≡ some p
      → view_at e.book p.side p.price ≡ p.id ∷ xs
      → engine_weight e + weight a ≤ fuel
      → Waiting rules e
      → let q = min a.quantity p.quantity in
        ((b' : OrderBook)
          → settle_passive (traded_book e.book p q) (filled_by q p) q ≡ ok b'
          → IsCoherent b'
          → Shrinks e.book b'
          → Fill rules e0 (fill_trade a p q) (record e { book = b' }))
        → (m : Matched) × (execute_fill new_order e a p q r ≡ ok m)
          × Rounds h e a m
          × Traced true rules e0 r m.0 m.2
  unfolding execute_fill
  execute_fill-Rounds e0 e a p r xs v pos_q held at_front w waiting fills =
      let q = min a.quantity p.quantity in
      let p' = filled_by q p in
      let b1 : OrderBook = record (e.book) { id_map = adjust_order p.id (λ _. p') e.book.id_map } in
      let b : OrderBook = record b1 { last_trade_price = p.price } in
      let a1 : Agrees e.book b1 =
        Agrees-id_map e.book p.id (λ _. p') v.coherent (λ o _. refl)
          (λ o k. let x : p ≡ o = cc (held, k) in (ap (λ y. y.side) x, ap (λ y. y.price) x)) in
      let a2 : Agrees b1 b = Agrees-last_trade_price b1 p.price (Agrees-IsCoherent a1 v.coherent) in
      let all = Agrees-trans a1 a2 in
      let held' : find_id p.id b.id_map ≡ some p' = rw (
        find_id-adjust_order p.id p.id (λ _. p') e.book.id_map (λ _ _. refl),
        ==_refl p.id,
        held,
      ) in
      let front' : view_at b p.side p.price ≡ p.id ∷ xs =
        rw (levels-price p.side b1 p.price, levels-id_map p.side e.book b1.id_map) at_front in
      let (b', done, s) = settled b p' q (Agrees-IsCoherent all v.coherent) held' xs front' in
      let e1 : Engine = record e { book = b' } in
      let v1 : Valid (h ⊕ one a.id) e1 =
        Valid-book e b' v s.coherent (λ i u. s.unused i (Agrees-Unused i all u)) in
      let lw = weights-adjust_order p.id (λ _. p') e.book.id_map p held in
      let fw = fill_weights a p pos_q in
      let less : engine_weight e1 + weight (filled_by q a) < engine_weight e + weight a =
        omega (arith, s.lighter, lw, fw) in
      let made =
        fills b' done s.coherent (λ s0 k i m. Agrees-Shrinks all s0 k i (s.shrinks s0 k i m)) in
      let (m, done', v2, w2, t) =
        evaluate_stop_triggers-Lands rules fuel new_order below (h ⊕ one a.id) e1
          (push_trade r (fill_trade a p q)) v1 (omega (arith, less, w)) waiting in
      (
        (m.0, filled_by q a, m.1),
        rw (done, done'),
        record {
          valid = v2;
          aggressor = refl;
          less = omega (arith, sub64-of_le a.quantity q);
          lighter = omega (arith, w2, less);
        },
        filled-Traced made t,
      )

module _ (rules : Rules) (fuel : ℕ) (new_order : Engine → Order → Run (Engine × MatchResult))
    (below : LandsBelow rules fuel new_order) (h : Frame) where
  -- A round against the best level of the other side.
  pub fill_front-Rounds :
      (e : Engine) (a : Order) (k : Price) (l : PriceLevel) (r : MatchResult)
      → Valid (h ⊕ one a.id) e
      → 0 < a.quantity
      → best_level (opposite a.side) e.book ≡ some (k, l)
      → (a.type ≡ OrderType.market) ⊎ (beyond_limit a l.price ≡ false)
      → engine_weight e + weight a ≤ fuel
      → rules.takes a
      → Waiting rules e
      → (m : Matched) × (fill_front new_order e a (k, l) r ≡ ok m)
        × Rounds h e a m
        × Traced true rules e r m.0 m.2
  unfolding fill_front find_order
  fill_front-Rounds e a k l r v pos_q best allowed w takes waiting =
      let s = opposite a.side in
      let t = best_level-BestLevel e.book v.coherent s k l best in
      let b = put_level e.book s k (drain_cancelled l) in
      let e1 : Engine = record e { book = b } in
      let c = Agrees-IsCoherent t.agrees v.coherent in
      let v1 : Valid (h ⊕ one a.id) e1 = Valid-book e b v c (λ i u. Agrees-Unused i t.agrees u) in
      let same : b.id_map ≡ e.book.id_map = id_map-put_level e.book s k (drain_cancelled l) in
      let (p, held, pid, ps, pp) = held_order b c s k t.x (rw (t.queue) (rw (==_refl t.x) refl)) in
      let allowed' : (a.type ≡ OrderType.market) ⊎ (beyond_limit a k ≡ false) =
        subst (λ x. (a.type ≡ OrderType.market) ⊎ (beyond_limit a x ≡ false)) t.priced allowed in
      let held0 : find_id p.id e.book.id_map ≡ some p = rw (← same, pid) held in
      let (m, done, rounds, traced) =
        execute_fill-Rounds rules fuel new_order below h e e1 a p r t.xs v1 pos_q (rw pid held)
          (rw (ps, pp, pid) t.queue) (omega (arith, w, ap weights same)) waiting
          (λ b' st coherent sh. record {
            aggressor = a;
            taker = takes;
            passive = p;
            key = k;
            level = l;
            behind = t.xs;
            wanted = pos_q;
            best = best;
            first = rw pid t.waiting;
            held = held0;
            priced = pp;
            allowed = allowed';
            made = refl;
            settles = st;
            coherent = coherent;
            shrinks = λ s0 k0 i x. Agrees-Shrinks t.agrees s0 k0 i (sh s0 k0 i x);
            stops = refl;
          }) in
      (
        m,
        rw (t.fronted, held) done,
        record {
          valid = rounds.valid;
          aggressor = rounds.aggressor;
          less = rounds.less;
          lighter = omega (arith, rounds.lighter, ap weights same);
        },
        traced,
      )
