-- ===== src/Engine/Loops.antt =====
-- The matching loops of src/engine/matching_engine.cpp: their ends, and what they keep.
use lob_engine.Prelude.{
  ℕ, zero, suc, ◌+◌, ◌≤◌, ◌<◌, ◌≡◌, refl, sym, ap, subst, ◌∙◌, true, ◌==◌, arith, Bool-cases,
  Option-cases, inl, inr, Run, ok,
}
use lob_engine.Core.{Order, OrderType, OrderStatus}
use lob_engine.Book.{best_level}
use lob_engine.Engine.State.{Engine, MatchResult, push_rejection}
use lob_engine.Engine.Fill.{Matched, opposite}
use lob_engine.Engine.Match.{
  limit_loop, market_loop, match_limit, match_market, beyond_limit, exhausted, mark_filled,
}
use lob_engine.Engine.Weight.{weight, engine_weight}
use lob_engine.Engine.Valid.{Frame, one, ◌⊕◌, Valid}
use lob_engine.Engine.Trace.{
  Traced-still, Traced, Traced-refl, Traced-trans, Rules, Waiting, Trace-Waiting,
}
use lob_engine.Engine.Stops.{LandsBelow}
use lob_engine.Engine.Round.{Rounds, fill_front-Rounds}

-- A loop of rounds: as a round, with the weight not raised and the status free.
pub record Matches (h : Frame) (e : Engine) (a : Order) (m : Matched) : Type 0 where
  pub valid : Valid (h ⊕ one a.id) m.0
  pub aggressor : m.1 ≡ record a { quantity = m.1.quantity; status = m.1.status }
  pub less : m.1.quantity ≤ a.quantity
  pub lighter : engine_weight m.0 + weight m.1 ≤ engine_weight e + weight a

Matches-step :
    (h : Frame) (e : Engine) (a : Order) (m n : Matched)
    → Rounds h e a m
    → Matches h m.0 m.1 n
    → Matches h e a n
Matches-step h e a m n x y = record {
  valid = subst (λ i. Valid (h ⊕ one i) n.0) (ap (λ o. o.id) x.aggressor) y.valid;
  aggressor =
      y.aggressor
      ∙ ap (λ (o : Order). record o { quantity = n.1.quantity; status = n.1.status }) x.aggressor;
  less = omega (arith, x.less, y.less);
  lighter = omega (arith, x.lighter, y.lighter);
}

-- A loop that ends, by a trace of its trades.
abbrev pub Ends : Rules → Frame → Engine → Order → MatchResult → Run Matched → Type 0
Ends rules h e a r run =
    (m : Matched) × (run ≡ ok m) × Matches h e a m × Traced true rules e r m.0 m.2

module _ (rules : Rules) (fuel : ℕ) (new_order : Engine → Order → Run (Engine × MatchResult))
    (below : LandsBelow rules fuel new_order) (h : Frame) where
  round-takes :
      (a b : Order)
      → b ≡ record a { quantity = b.quantity }
      → b.quantity ≤ a.quantity
      → rules.takes a
      → rules.takes b
  round-takes a b same less k =
      subst rules.takes (sym same) (rules.shrink a b.quantity a.status less k)

  limit_loop-Matches :
      (f : ℕ) (e : Engine) (a : Order) (r : MatchResult)
      → Valid (h ⊕ one a.id) e
      → engine_weight e + weight a < f
      → engine_weight e + weight a ≤ fuel
      → rules.takes a
      → Waiting rules e
      → Ends rules h e a r (limit_loop new_order f e a r)
  unfolding limit_loop
  limit_loop-Matches zero e a r v w wf k q = absurd (omega arith)
  limit_loop-Matches (suc f) e a r v w wf k q =
      let stay : Matches h e a (e, a, r) = record {
        valid = v;
        aggressor = refl;
        less = omega arith;
        lighter = omega arith;
      } in
      elim (Bool-cases (a.quantity == 0)) [
        | inl z ↦ ((e, a, r), rw z, stay, Traced-refl e r)
        | inr nz ↦ elim (Option-cases (best_level (opposite a.side) e.book)) [
          | inl none_left ↦ ((e, a, r), rw (nz, none_left), stay, Traced-refl e r)
          | inr ((key, l), best) ↦ elim (Bool-cases (beyond_limit a l.price)) [
            | inl worse ↦ ((e, a, r), rw (nz, best, worse), stay, Traced-refl e r)
            | inr better ↦
                let (m, done, x, t) =
                  fill_front-Rounds rules fuel new_order below h e a key l r v (ground arith) best
                    (inr better) wf k q in
                let (n, done', y, t') =
                  limit_loop-Matches f m.0 m.1 m.2
                    (subst (λ i. Valid (h ⊕ one i) m.0) (sym (ap (λ o. o.id) x.aggressor)) x.valid)
                    (omega (arith, x.lighter, w)) (omega (arith, x.lighter, wf))
                    (round-takes a m.1 x.aggressor x.less k) (Trace-Waiting t.trace q) in
                (
                  n,
                  rw (nz, best, better) (rw done done'),
                  Matches-step h e a m n x y,
                  Traced-trans t t',
                )
          ]
        ]
      ]

  market_loop-Matches :
      (f : ℕ) (e : Engine) (a : Order) (r : MatchResult)
      → a.type ≡ OrderType.market
      → Valid (h ⊕ one a.id) e
      → engine_weight e + weight a < f
      → engine_weight e + weight a ≤ fuel
      → rules.takes a
      → Waiting rules e
      → Ends rules h e a r (market_loop new_order f e a r)
  unfolding market_loop
  market_loop-Matches zero e a r mkt v w wf k q = absurd (omega arith)
  market_loop-Matches (suc f) e a r mkt v w wf k q = elim (Bool-cases (a.quantity == 0)) [
    | inl z ↦ (
      (e, a, r),
      rw z,
      record { valid = v; aggressor = refl; less = omega arith; lighter = omega arith },
      Traced-refl e r,
    )
    | inr nz ↦ elim (Option-cases (best_level (opposite a.side) e.book)) [
      | inl none_left ↦ (
        (e, record a { status = OrderStatus.cancelled }, push_rejection r (exhausted a)),
        rw (nz, none_left),
        record { valid = v; aggressor = refl; less = omega arith; lighter = omega arith },
        Traced-still e r _ refl,
      )
      | inr ((key, l), best) ↦
          let (m, done, x, t) =
            fill_front-Rounds rules fuel new_order below h e a key l r v (ground arith) best
              (inl mkt) wf k q in
          let (n, done', y, t') =
            market_loop-Matches f m.0 m.1 m.2 (ap (λ o. o.type) x.aggressor ∙ mkt)
              (subst (λ i. Valid (h ⊕ one i) m.0) (sym (ap (λ o. o.id) x.aggressor)) x.valid)
              (omega (arith, x.lighter, w)) (omega (arith, x.lighter, wf))
              (round-takes a m.1 x.aggressor x.less k) (Trace-Waiting t.trace q) in
          (n, rw (nz, best) (rw done done'), Matches-step h e a m n x y, Traced-trans t t')
    ]
  ]

  marked-Matches :
      (e : Engine) (a : Order) (m : Matched)
      → Matches h e a m
      → Matches h e a (m.0, mark_filled m.1, m.2)
  marked-Matches e a m x = elim (Bool-cases (m.1.quantity == 0)) [
    | inl z ↦ rw z (record {
      valid = x.valid;
      aggressor = ap (λ (o : Order). record o { status = OrderStatus.filled }) x.aggressor;
      less = x.less;
      lighter = x.lighter;
    })
    | inr nz ↦ rw nz x
  ]

  pub match_limit-Matches :
      (f : ℕ) (e : Engine) (a : Order) (r : MatchResult)
      → Valid (h ⊕ one a.id) e
      → engine_weight e + weight a < f
      → engine_weight e + weight a ≤ fuel
      → rules.takes a
      → Waiting rules e
      → Ends rules h e a r (match_limit new_order f e a r)
  unfolding match_limit
  match_limit-Matches f e a r v w wf k q =
      let (m, done, x, t) = limit_loop-Matches f e a r v w wf k q in
      ((m.0, mark_filled m.1, m.2), rw done, marked-Matches e a m x, t)

  pub match_market-Matches :
      (f : ℕ) (e : Engine) (a : Order) (r : MatchResult)
      → a.type ≡ OrderType.market
      → Valid (h ⊕ one a.id) e
      → engine_weight e + weight a < f
      → engine_weight e + weight a ≤ fuel
      → rules.takes a
      → Waiting rules e
      → Ends rules h e a r (match_market new_order f e a r)
  unfolding match_market
  match_market-Matches f e a r mkt v w wf k q =
      let (m, done, x, t) = market_loop-Matches f e a r mkt v w wf k q in
      ((m.0, mark_filled m.1, m.2), rw done, marked-Matches e a m x, t)
