-- ===== src/Engine/Accounts.antt =====
-- The quantity of a limit order in src/engine/matching_engine.cpp: what trades, and what rests.
use lob_engine.Prelude.{
  ℕ, zero, suc, ◌+◌, ◌≤◌, ◌<◌, ◌≡◌, refl, sym, ap, subst, ◌⊎◌, inl, inr, none, some, List, [], ◌∷◌,
  ◌++◌, ◌==◌, ==_refl, min, ltb, arith, Bool-cases, Option-cases, Run, ok, >>=-eq-ok, sub64-of_le,
  sub64,
}
use lob_engine.Core.{Order, OrderType, OrderStatus, Price, Quantity, Trade}
use lob_engine.Level.{PriceLevel, front}
use lob_engine.Book.{best_level, find_id, find_order, put_level}
use lob_engine.Book.IdMap.{find_id-store}
use lob_engine.Book.Insert.{id_map-insert_order}
use lob_engine.Engine.State.{Engine, MatchResult, no_result, push_trade}
use lob_engine.Engine.Fill.{
  Matched, opposite, execute_fill, fill_trade, evaluate_stop_triggers, settle_passive,
}
use lob_engine.Engine.Match.{beyond_limit, deref, fill_front, limit_loop, match_limit, mark_filled}
use lob_engine.Engine.NewOrder.{process_new_order, new_by_type, new_limit, book_if}
use lob_engine.Engine.Weight.{engine_weight, weight, load, load_as}
use lob_engine.Engine.Trace.{filled_by, traded_book, anyone}
use lob_engine.Engine.Valid.{Frame, one, ◌⊕◌, Valid, Valid-Unused}
use lob_engine.Engine.Loops.{match_limit-Matches}
use lob_engine.Engine.Total.{process_new_order-Lands, anyone-Waiting, weight-le}

-- The quantity of some trades.
abbrev pub traded : List Trade → ℕ
traded [] = 0
traded (t ∷ ts) = t.quantity + traded ts

traded-append : (ts us : List Trade) → traded (ts ++ us) ≡ traded ts + traded us
traded-append [] us = omega arith
traded-append (t ∷ ts) us = omega (arith, traded-append ts us)

-- Where no stop waits, what the order has lost is what was traded.
record Accounts (a : Order) (r : MatchResult) (m : Matched) : Type 0 where
  no_stops : m.0.pending_stops ≡ []
  balance : m.1.quantity + traded m.2.trades ≡ a.quantity + traded r.trades

module _ (new_order : Engine → Order → Run (Engine × MatchResult)) where
  execute_fill-Accounts :
      (e : Engine) (a p : Order) (q : Quantity) (r : MatchResult) (m : Matched)
      → e.pending_stops ≡ []
      → q ≤ a.quantity
      → execute_fill new_order e a p q r ≡ ok m
      → Accounts a r m
  unfolding execute_fill evaluate_stop_triggers
  execute_fill-Accounts e a p q r m none_waits le h =
      let p' = filled_by q p in
      let (b', _, h') = >>=-eq-ok (settle_passive (traded_book e.book p q) p' q) _ h in
      let filled : Matched = (
        record e { book = b' },
        record a { quantity = sub64 a.quantity q },
        push_trade r (fill_trade a p q),
      ) in
      let same : filled ≡ m = cc (rw none_waits at h') in
      subst (λ (n : Matched). Accounts a r n) same
        (record {
          no_stops = none_waits;
          balance = omega (
            arith,
            traded-append r.trades (fill_trade a p q ∷ []),
            sub64-of_le a.quantity q le,
            le,
          );
        })

  fill_front-Accounts :
      (e : Engine) (a : Order) (k : Price) (l : PriceLevel) (r : MatchResult) (m : Matched)
      → e.pending_stops ≡ []
      → fill_front new_order e a (k, l) r ≡ ok m
      → Accounts a r m
  unfolding fill_front
  fill_front-Accounts e a k l r m none_waits h =
      let (found, _, h') = >>=-eq-ok (front l) _ h in
      let e' : Engine = record e { book = put_level e.book (opposite a.side) k found.1 } in
      let (p, _, h'') = >>=-eq-ok (deref (find_order e'.book found.0)) _ h' in
      execute_fill-Accounts e' a p (min a.quantity p.quantity) r m none_waits (omega arith) h''

  Accounts-trans :
      {a b : Order} {r s : MatchResult} {m : Matched}
      → b.quantity + traded s.trades ≡ a.quantity + traded r.trades
      → Accounts b s m
      → Accounts a r m
  Accounts-trans first x = record {
    no_stops = x.no_stops;
    balance = omega (arith, x.balance, first);
  }

  stayed :
      (e : Engine) (a : Order) (r : MatchResult) (m : Matched)
      → e.pending_stops ≡ []
      → ◌≡◌ {A = Run Matched} (ok (e, a, r)) (ok m)
      → Accounts a r m
  stayed e a r m none_waits h =
      let same : ◌≡◌ {A = Matched} (e, a, r) m = cc h in
      subst (λ (n : Matched). Accounts a r n) same
        (record { no_stops = none_waits; balance = refl })

  limit_loop-Accounts :
      (f : ℕ) (e : Engine) (a : Order) (r : MatchResult) (m : Matched)
      → e.pending_stops ≡ []
      → limit_loop new_order f e a r ≡ ok m
      → Accounts a r m
  unfolding limit_loop
  limit_loop-Accounts zero e a r m none_waits h = absurd (cc h)
  limit_loop-Accounts (suc f) e a r m none_waits h = elim (Bool-cases (a.quantity == 0)) [
    | inl z ↦ stayed e a r m none_waits (rw z at h)
    | inr nz ↦ elim (Option-cases (best_level (opposite a.side) e.book)) [
      | inl left ↦ stayed e a r m none_waits (rw (nz, left) at h)
      | inr ((k, l), best) ↦ elim (Bool-cases (beyond_limit a l.price)) [
        | inl worse ↦ stayed e a r m none_waits (rw (nz, best, worse) at h)
        | inr better ↦
            let (n, done, h') =
              >>=-eq-ok (fill_front new_order e a (k, l) r) _ (rw (nz, best, better) at h) in
            let x = fill_front-Accounts e a k l r n none_waits done in
            Accounts-trans x.balance (limit_loop-Accounts f n.0 n.1 n.2 m x.no_stops h')
      ]
    ]
  ]

  marked : (a : Order) → (mark_filled a).quantity ≡ a.quantity
  marked a = elim (Bool-cases (a.quantity == 0)) [ inl z ↦ rw z refl | inr nz ↦ rw nz refl ]

  match_limit-Accounts :
      (f : ℕ) (e : Engine) (a : Order) (r : MatchResult) (m : Matched)
      → e.pending_stops ≡ []
      → match_limit new_order f e a r ≡ ok m
      → Accounts a r m
  unfolding match_limit
  match_limit-Accounts f e a r m none_waits done =
      let (n, looped, h) = >>=-eq-ok (limit_loop new_order f e a r) _ done in
      let same : ◌≡◌ {A = Matched} (n.0, mark_filled n.1, n.2) m = cc h in
      let x = limit_loop-Accounts f e a r n none_waits looped in
      subst (λ (k : Matched). Accounts a r k) same
        (record { no_stops = x.no_stops; balance = omega (arith, x.balance, marked n.1) })

-- What has become of a limit order: it has traded its whole quantity and is not in the book, or
-- it rests there with what it has not traded, changed in its quantity and status only.
abbrev pub Accounted : Order → Engine × MatchResult → Type 0
Accounted o a =
    ((find_id o.id a.0.book.id_map ≡ none) × (traded a.1.trades ≡ o.quantity))
    ⊎ ((rest : Order) × (find_id o.id a.0.book.id_map ≡ some rest)
        × (rest ≡ record o { quantity = rest.quantity; status = rest.status })
        × (0 < rest.quantity)
        × (rest.quantity + traded a.1.trades ≡ o.quantity))

rested-Accounted :
    (h : Frame) (o : Order) (m : Matched)
    → Valid (h ⊕ one o.id) m.0
    → m.1 ≡ record o { quantity = m.1.quantity; status = m.1.status }
    → m.1.quantity + traded m.2.trades ≡ o.quantity
    → Accounted o (book_if (ltb 0 m.1.quantity) m.0 m.1, m.2)
rested-Accounted h o m v same balance = elim (Bool-cases (ltb 0 m.1.quantity)) [
  | inl more ↦ rw more (
      inr (
        m.1,
        rw
            (
              id_map-insert_order m.0.book m.1,
              find_id-store m.1 o.id m.0.book.id_map,
              ap (λ (x : Order). x.id) same,
              ==_refl o.id,
            )
            refl,
        same,
        ground (arith, more),
        balance,
      ))
  | inr filled ↦ rw filled (inl ((Valid-Unused h o.id v).absent, ground (arith, filled, balance)))
]

limit_runs :
    (f : ℕ) (e : Engine) (o : Order) (m : Matched)
    → o.type ≡ OrderType.limit
    → match_limit (process_new_order f) f e (record o { status = OrderStatus.resting }) no_result
      ≡ ok m
    → process_new_order (suc f) e o ≡ ok (book_if (ltb 0 m.1.quantity) m.0 m.1, m.2)
unfolding process_new_order new_by_type new_limit
limit_runs f e o m limit done =
    subst
      (λ t.
        new_by_type (process_new_order f) t f e (record o { status = OrderStatus.resting })
        ≡ ok (book_if (ltb 0 m.1.quantity) m.0 m.1, m.2))
      (sym limit) (rw done refl)

-- On a valid engine without pending stops and with enough fuel, a limit order whose id is used
-- nowhere is processed to the end, and its quantity is accounted for: either it is traded in full
-- and the order is not in the book, or the order rests there with the part that is not traded,
-- which is more than 0, changed in its quantity and status only.
pub limit_order-Accounted :
    (fuel : ℕ) (h : Frame) (e : Engine) (o : Order)
    → Valid (h ⊕ one o.id) e
    → engine_weight e + load o + 1 < fuel
    → o.type ≡ OrderType.limit
    → e.pending_stops ≡ []
    → (a : Engine × MatchResult) × (process_new_order fuel e o ≡ ok a) × Accounted o a
limit_order-Accounted zero h e o v w limit none_waits = absurd (omega (arith, w))
limit_order-Accounted (suc f) h e o v w limit none_waits =
    let o' : Order = record o { status = OrderStatus.resting } in
    let below = process_new_order-Lands anyone f in
    let room : engine_weight e + weight o' < f =
      omega (arith, w, ap (λ t. load_as t o) limit, weight-le o) in
    let (m, done, x, _) =
      match_limit-Matches anyone f (process_new_order f) below h f e o' no_result v room
        (omega (arith, room)) tt (anyone-Waiting e.pending_stops) in
    let acc = match_limit-Accounts (process_new_order f) f e o' no_result m none_waits done in
    (
      (book_if (ltb 0 m.1.quantity) m.0 m.1, m.2),
      limit_runs f e o m limit done,
      rested-Accounted h o m x.valid x.aggressor (omega (arith, acc.balance)),
    )
