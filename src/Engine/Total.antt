-- ===== src/Engine/Total.antt =====
-- `process_new_order` of src/engine/matching_engine.cpp as a whole: its end and what it keeps.
use lob_engine.Prelude.{
  ℕ, zero, suc, ◌+◌, ◌*◌, ◌≤◌, ◌<◌, ◌≡◌, refl, sym, ap, subst, Bool, true, false, ◌||◌, [], ◌∷◌,
  arith, Bool-cases, inl, inr, Run, ok, sub64, ltb, All, List,
}
use lob_engine.Core.{Order, OrderType, OrderStatus}
use lob_engine.Book.{insert_order}
use lob_engine.Book.Coherent.{Unused}
use lob_engine.Book.Insert.{id_map-insert_order}
use lob_engine.Engine.State.{Engine, MatchResult, no_result}
use lob_engine.Engine.Fill.{Matched}
use lob_engine.Engine.NewOrder.{
  process_new_order, new_by_type, new_limit, new_market, new_stop, new_iceberg, book_if,
  triggered_now,
}
use lob_engine.Engine.Weight.{
  weight, weights, weights-store, stop_weight, stop_weights-append, load, load_as, engine_weight,
}
use lob_engine.Engine.Valid.{
  Frame, one, ◌⊕◌, Valid, Valid-mono, Valid-insert, Valid-park, Valid-Unused,
}
use lob_engine.Engine.Stops.{
  Lands, LandsBelow, Submits, SubmitsAs, Submits-status, shown_as, process_triggered_stop-Lands,
}
use lob_engine.Engine.Ended.{match_limit-IsFinished}
use lob_engine.Engine.Trace.{
  Trace, Traced, Change, Traced-refl, Traced-trans, Traced-silent, weaken-Traced, is_plain, Rules,
  Waiting, anyone, is_stop,
}
use lob_engine.Engine.Loops.{Matches, match_limit-Matches, match_market-Matches}

pub weight-le : (o : Order) → weight o ≤ 2 * (o.quantity + o.reserve_qty) + 2
weight-le o = ground arith

pub load_as-status :
    (t : OrderType) (o : Order) (s : OrderStatus)
    → load_as t (record o { status = s }) ≡ load_as t o
load_as-status OrderType.limit o s = refl
load_as-status OrderType.market o s = refl
load_as-status OrderType.stop o s = refl
load_as-status OrderType.stop_limit o s = refl
load_as-status OrderType.iceberg o s = refl

module _ (rules : Rules) (fuel : ℕ) (new_order : Engine → Order → Run (Engine × MatchResult))
    (below : LandsBelow rules fuel new_order) (h : Frame) where
  -- What is left of the aggressor rests in the book, or is dropped.
  rest-Lands :
      {plain : Bool} (e : Engine) (a : Order) (m : Matched) (keep : Bool)
      → Matches h e a m
      → Traced true rules e no_result m.0 m.2
      → (keep ≡ true
          → Unused m.1.id m.0.book
          → Change plain rules m.0 (record (m.0) { book = insert_order m.0.book m.1 }))
      → Lands plain rules h e no_result
          (engine_weight e + weight a)
          (ok (book_if keep m.0 m.1, m.2))
  rest-Lands e a m true x t change =
      let v : Valid (h ⊕ one m.1.id) m.0 =
        subst (λ i. Valid (h ⊕ one i) m.0) (sym (ap (λ o. o.id) x.aggressor)) x.valid in
      (
        _,
        refl,
        Valid-insert m.0 m.1 v,
        omega (
          arith,
          x.lighter,
          ap weights (id_map-insert_order m.0.book m.1),
          weights-store m.1 m.0.book.id_map,
        ),
        Traced-trans (weaken-Traced (λ _. refl) t)
            (Traced-silent (change refl (Valid-Unused h m.1.id v)) (Traced-refl _ m.2)),
      )
  rest-Lands e a m false x t change = (
    _,
    refl,
    Valid-mono (λ i. omega arith) x.valid,
    omega (arith, x.lighter),
    weaken-Traced (λ _. refl) t,
  )

  left-takes :
      (e : Engine) (a : Order) (m : Matched) → Matches h e a m → rules.takes a → rules.takes m.1
  left-takes e a m x k =
      subst rules.takes (sym x.aggressor) (rules.shrink a m.1.quantity m.1.status x.less k)

  new_limit-Lands :
      {plain : Bool} (e : Engine) (o : Order)
      → Valid (h ⊕ one o.id) e
      → engine_weight e + weight o < fuel
      → rules.takes o
      → Waiting rules e
      → Lands plain rules h e no_result (engine_weight e + weight o) (new_limit new_order fuel e o)
  unfolding new_limit
  new_limit-Lands e o v w k q =
      let (m, done, x, t) =
        match_limit-Matches rules fuel new_order below h fuel e o no_result v w (omega (arith, w)) k
          q in
      let finished = match_limit-IsFinished new_order fuel e o no_result m done in
      rw done (
        rest-Lands e o m (ltb 0 m.1.quantity) x t (λ kept unused.
          Change.rested m.1 (left-takes e o m x k) finished (ground (arith, kept)) unused refl))

  new_market-Lands :
      {plain : Bool} (e : Engine) (o : Order)
      → o.type ≡ OrderType.market
      → Valid (h ⊕ one o.id) e
      → engine_weight e + weight o < fuel
      → rules.takes o
      → Waiting rules e
      → Lands plain rules h e no_result (engine_weight e + weight o) (new_market new_order fuel e o)
  unfolding new_market
  new_market-Lands e o mkt v w k q =
      let (m, done, x, t) =
        match_market-Matches rules fuel new_order below h fuel e o no_result mkt v w
          (omega (arith, w)) k q in
      rw done (rest-Lands e o m false x t (λ kept _. absurd (cc kept)))

  new_iceberg-Lands :
      (e : Engine) (o : Order)
      → Valid (h ⊕ one o.id) e
      → engine_weight e + load_as OrderType.iceberg o < fuel
      → rules.takes (shown_as OrderType.iceberg o)
      → Waiting rules e
      → Lands false rules h e no_result
          (engine_weight e + load_as OrderType.iceberg o)
          (new_iceberg new_order fuel e o)
  unfolding new_iceberg
  new_iceberg-Lands e o v w k q =
      let shown : Order = record o {
        reserve_qty = sub64 o.quantity o.peak_qty;
        quantity = o.peak_qty;
      } in
      let le : weight shown ≤ load_as OrderType.iceberg o = ground arith in
      let (m, done, x, t) =
        match_limit-Matches rules fuel new_order below h fuel e shown no_result v
          (omega (arith, le, w)) (omega (arith, le, w)) k q in
      let finished = match_limit-IsFinished new_order fuel e shown no_result m done in
      let (n, done', v', w', t') =
        rest-Lands {plain = false} e shown m (ltb 0 m.1.quantity || ltb 0 m.1.reserve_qty) x t
          (λ _ unused. Change.rested_unfilled m.1 (left-takes e shown m x k) refl unused refl) in
      (n, rw done done', v', omega (arith, le, w'), t')

  new_stop-Lands :
      {plain : Bool} (e : Engine) (o : Order)
      → Valid (h ⊕ one o.id) e
      → engine_weight e + stop_weight o < fuel
      → rules.waits o
      → Waiting rules e
      → Lands plain rules h e no_result (engine_weight e + stop_weight o) (new_stop new_order e o)
  unfolding new_stop
  new_stop-Lands e o v w k q = elim (Bool-cases (triggered_now e o)) [
    | inl t ↦
        let (m, done, v', w', t') =
          process_triggered_stop-Lands rules fuel new_order below h e o no_result v w k q in
        rw t (m, done, v', w', weaken-Traced (λ _. refl) t')
    | inr t ↦ rw t (
      _,
      refl,
      Valid-park e o v,
      omega (arith, stop_weights-append e.pending_stops (o ∷ [])),
      Traced-silent (Change.parked o k refl) (Traced-refl _ no_result),
    )
  ]

  new_by_type-Lands :
      (t : OrderType) (e : Engine) (o : Order)
      → o.type ≡ t
      → Valid (h ⊕ one o.id) e
      → engine_weight e + load_as t o < fuel
      → SubmitsAs t rules o
      → Waiting rules e
      → Lands
          (is_plain t)
          rules
          h
          e
          no_result
          (engine_weight e + load_as t o)
          (new_by_type new_order t fuel e o)
  unfolding new_by_type
  new_by_type-Lands OrderType.limit e o same v w k q =
      let (m, done, v', w', t) = new_limit-Lands e o v (omega (arith, weight-le o, w)) k q in
      (m, done, v', omega (arith, weight-le o, w'), t)
  new_by_type-Lands OrderType.market e o same v w k q =
      let (m, done, v', w', t) = new_market-Lands e o same v (omega (arith, weight-le o, w)) k q in
      (m, done, v', omega (arith, weight-le o, w'), t)
  new_by_type-Lands OrderType.stop e o same v w k q = new_stop-Lands e o v w k q
  new_by_type-Lands OrderType.stop_limit e o same v w k q = new_stop-Lands e o v w k q
  new_by_type-Lands OrderType.iceberg e o same v w k q = new_iceberg-Lands e o v w k q

pub process_new_order-Lands :
    (rules : Rules) (fuel : ℕ) → LandsBelow rules fuel (process_new_order fuel)
unfolding process_new_order
process_new_order-Lands rules zero e h o v w k q = absurd (omega arith)
process_new_order-Lands rules (suc fuel) e h o v w k q =
    let same = load_as-status o.type o OrderStatus.resting in
    let (m, done, v', w', t) =
      new_by_type-Lands rules fuel (process_new_order fuel) (process_new_order-Lands rules fuel) h
        o.type e (record o { status = OrderStatus.resting }) refl v (omega (arith, same, w))
        (Submits-status rules o.type o OrderStatus.resting k) q in
    (m, done, v', omega (arith, same, w'), t)

-- Where nothing restricts who takes.
pub anyone-Waiting : (xs : List Order) → All anyone.waits xs
anyone-Waiting [] = tt
anyone-Waiting (x ∷ xs) = (tt, anyone-Waiting xs)

pub anyone-Submits : (o : Order) → Submits anyone o
anyone-Submits o = elim (Bool-cases (is_stop o.type)) [ inl t ↦ rw t tt | inr t ↦ rw t tt ]

-- On a valid engine and with enough fuel, an order whose id is neither in the book, nor pending,
-- nor in flight, nor marked as cancelled in a level is processed to the end: no null order is
-- followed and no empty deque read. The engine that is left is valid, and what its orders can
-- still trade is at most what it was, with the new order's part added.
pub process_new_order_total :
    (fuel : ℕ) (h : Frame) (e : Engine) (o : Order)
    → Valid (h ⊕ one o.id) e
    → engine_weight e + load o + 1 < fuel
    → (a : Engine × MatchResult) × (process_new_order fuel e o ≡ ok a)
      × Valid h a.0
      × (engine_weight a.0 ≤ engine_weight e + load o)
process_new_order_total fuel h e o v w =
    let (a, done, v', w', _) =
      process_new_order-Lands anyone fuel e h o v w (anyone-Submits o)
        (anyone-Waiting e.pending_stops) in
    (a, done, v', w')
