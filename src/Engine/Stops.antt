-- ===== src/Engine/Stops.antt =====
-- The stop triggers of src/engine/matching_engine.cpp, over an inner `process_new_order` that is
-- assumed to behave for orders light enough.
use lob_engine.Prelude.{
  ℕ, ◌+◌, ◌≤◌, ◌<◌, ◌≡◌, refl, sym, sub64, ap, subst, Bool, true, false, All, All-append,
  if◌then◌else◌, List, [], ◌∷◌, ◌++◌, arith, Bool-cases, inl, inr, pos, Run, ok, eqb_ℤ,
}
use lob_engine.Core.{Order, OrderType, OrderStatus, Price}
use lob_engine.Book.{OrderBook}
use lob_engine.Engine.State.{Engine, append_result, MatchResult, no_result}
use lob_engine.Engine.Trace.{
  Traced, Traced-refl, Traced-trans, Traced-silent, is_plain, Change, Rules, Waiting, Trace-Waiting,
  is_stop,
}
use lob_engine.Engine.Fill.{
  converted, is_triggered, process_triggered_stop, trigger_stops, evaluate_stop_triggers,
}
use lob_engine.Engine.Weight.{stop_weight, stop_weights, stop_weights-append, load, engine_weight}
use lob_engine.Engine.Valid.{Frame, one, ◌⊕◌, count_id, Valid, Valid-mono, Valid-park}

-- A run that gives a valid engine of no more than a weight, by a trace from the engine before.
abbrev pub Lands :
    Bool → Rules → Frame → Engine → MatchResult → ℕ → Run (Engine × MatchResult) → Type 0
Lands plain rules h e r w m =
    (a : Engine × MatchResult) × (m ≡ ok a)
    × Valid h a.0
    × (engine_weight a.0 ≤ w)
    × Traced plain rules e r a.0 a.1

-- An iceberg takes with its peak, and its reserve is the rest.
abbrev pub shown_as : OrderType → Order → Order
shown_as OrderType.iceberg o = record o {
  reserve_qty = sub64 o.quantity o.peak_qty;
  quantity = o.peak_qty;
}
shown_as _ o = o

-- A stop that is submitted must be one that may wait, any other order one that may take.
abbrev pub SubmitsAs : OrderType → Rules → Order → Type 0
SubmitsAs t rules o = if is_stop t then rules.waits o else rules.takes (shown_as t o)

abbrev pub Submits : Rules → Order → Type 0
Submits rules o = SubmitsAs o.type rules o

-- What the calls of a level ask of `process_new_order` on the level below.
abbrev pub LandsBelow : Rules → ℕ → (Engine → Order → Run (Engine × MatchResult)) → Type 0
LandsBelow rules fuel new_order =
    (e : Engine) (h : Frame) (o : Order)
    → Valid (h ⊕ one o.id) e
    → engine_weight e + load o + 1 < fuel
    → Submits rules o
    → Waiting rules e
    → Lands (is_plain o.type) rules h e no_result (engine_weight e + load o) (new_order e o)

load-converted : (s : Order) → load (converted s) + 1 ≡ stop_weight s
unfolding converted
load-converted s = ground arith

id-converted : (s : Order) → (converted s).id ≡ s.id
unfolding converted
id-converted s = ground arith

plain-converted : (s : Order) → is_plain (converted s).type ≡ true
unfolding converted
plain-converted s = ground arith

pub Submits-status :
    (rules : Rules) (t : OrderType) (o : Order) (status : OrderStatus)
    → SubmitsAs t rules o
    → SubmitsAs t rules (record o { status = status })
Submits-status rules OrderType.limit o status k = rules.shrink o o.quantity status (omega arith) k
Submits-status rules OrderType.market o status k = rules.shrink o o.quantity status (omega arith) k
Submits-status rules OrderType.stop o status k = rules.keep o status k
Submits-status rules OrderType.stop_limit o status k = rules.keep o status k
Submits-status rules OrderType.iceberg o status k =
    rules.shrink (shown_as OrderType.iceberg o) o.peak_qty status (omega arith) k

no_stop-converted : (s : Order) → is_stop (converted s).type ≡ false
unfolding converted
no_stop-converted s = ground arith

shown-converted : (s : Order) → shown_as (converted s).type (converted s) ≡ converted s
shown-converted s = plain_shown (converted s) (converted s).type (plain-converted s)
  where
    plain_shown : (o : Order) (t : OrderType) → is_plain t ≡ true → shown_as t o ≡ o
    plain_shown o OrderType.limit h = refl
    plain_shown o OrderType.market h = refl
    plain_shown o OrderType.stop h = refl
    plain_shown o OrderType.stop_limit h = refl
    plain_shown o OrderType.iceberg h = absurd (cc h)

Submits-converted : (rules : Rules) (s : Order) → rules.waits s → Submits rules (converted s)
Submits-converted rules s h =
    rw (no_stop-converted s) (subst rules.takes (sym (shown-converted s)) (rules.trigger s h))

-- The trades of a sub-result come behind those of the result.
appended-Traced :
    {rules : Rules} {e e' : Engine} (r : MatchResult) {s : MatchResult}
    → Traced true rules e no_result e' s
    → Traced true rules e r e' (append_result r s)
appended-Traced r x = record {
  trades = x.trades;
  added = ap (λ ts. r.trades ++ ts) x.added;
  trace = x.trace;
}

module _ (rules : Rules) (fuel : ℕ) (new_order : Engine → Order → Run (Engine × MatchResult))
    (below : LandsBelow rules fuel new_order) where
  pub process_triggered_stop-Lands :
      (h : Frame) (e : Engine) (s : Order) (r : MatchResult)
      → Valid (h ⊕ one s.id) e
      → engine_weight e + stop_weight s < fuel
      → rules.waits s
      → Waiting rules e
      → Lands true rules h e r
          (engine_weight e + stop_weight s)
          (process_triggered_stop new_order e s r)
  unfolding process_triggered_stop
  process_triggered_stop-Lands h e s r v w k q =
      let (m, done, v', w', t) =
        below e h (converted s) (rw (id-converted s) v) (omega (arith, load-converted s, w))
          (Submits-converted rules s k) q in
      (
        (m.0, append_result r m.1),
        rw done,
        v',
        omega (arith, load-converted s, w'),
        appended-Traced r (subst (λ b. Traced b rules e no_result m.0 m.1) (plain-converted s) t),
      )

  trigger_stops-Lands :
      (last : Price) (ws : List Order) (h : Frame) (e : Engine) (r : MatchResult)
      → Valid (λ i. h i + count_id i ws) e
      → engine_weight e + stop_weights ws < fuel
      → All rules.waits ws
      → Waiting rules e
      → Lands true rules h e r
          (engine_weight e + stop_weights ws)
          (trigger_stops new_order last ws e r)
  unfolding trigger_stops
  trigger_stops-Lands last [] h e r v w ks q =
      ((e, r), refl, Valid-mono (λ i. omega arith) v, omega arith, Traced-refl e r)
  trigger_stops-Lands last (s ∷ ws) h e r v w (k, ks) q =
      let g : Frame = λ i. h i + count_id i ws in
      let v0 : Valid (g ⊕ one s.id) e = Valid-mono (λ i. omega arith) v in
      elim (Bool-cases (is_triggered last s)) [
        | inl t ↦
            let (m, done, v1, w1, t1) =
              process_triggered_stop-Lands g e s r v0 (omega (arith, w)) k q in
            let (m', done', v2, w2, t2) =
              trigger_stops-Lands last ws h m.0 m.1 v1 (omega (arith, w, w1)) ks
                (Trace-Waiting t1.trace q) in
            (m', rw (t, done) done', v2, omega (arith, w1, w2), Traced-trans t1 t2)
        | inr t ↦
            let e1 : Engine = record e { pending_stops = e.pending_stops ++ s ∷ [] } in
            let w1 = stop_weights-append e.pending_stops (s ∷ []) in
            let (m', done', v2, w2, t2) =
              trigger_stops-Lands last ws h e1 r (Valid-park e s v0) (omega (arith, w, w1)) ks
                (All-append rules.waits e.pending_stops (s ∷ []) q (k, tt)) in
            (m', rw t done', v2, omega (arith, w1, w2), Traced-silent (Change.parked s k refl) t2)
      ]

  evaluate-Lands :
      (b : OrderBook) (n : ℕ) (stops : List Order) (h : Frame) (r : MatchResult)
      → let e : Engine = record { book = b; sequence = n; pending_stops = stops } in
        Valid h e
        → engine_weight e < fuel
        → All rules.waits stops
        → Lands true rules h e r (engine_weight e) (evaluate_stop_triggers new_order e r)
  unfolding evaluate_stop_triggers
  evaluate-Lands b n [] h r v w q = ((_, r), refl, v, omega arith, Traced-refl _ r)
  evaluate-Lands b n (s ∷ ws) h r v w q =
      let e : Engine = record { book = b; sequence = n; pending_stops = s ∷ ws } in
      let e0 : Engine = record { book = b; sequence = n; pending_stops = [] } in
      elim (Bool-cases (eqb_ℤ b.last_trade_price (pos 0))) [
        | inl t ↦ ((e, r), rw t, v, omega arith, Traced-refl e r)
        | inr t ↦
            let v0 : Valid (λ i. h i + count_id i (s ∷ ws)) e0 = record {
              coherent = v.coherent;
              single = λ i. omega (arith, v.single i);
              unused = λ i p. v.unused i (omega (arith, p));
            } in
            let (m, done, v1, w1, t1) =
              trigger_stops-Lands b.last_trade_price (s ∷ ws) h e0 r v0 (omega (arith, w)) q tt in
            (m, rw t done, v1, omega (arith, w1), Traced-silent (Change.swapped_out t refl) t1)
      ]

  -- `evaluate_stop_triggers` runs through, keeps the engine valid and does not raise its weight.
  pub evaluate_stop_triggers-Lands :
      (h : Frame) (e : Engine) (r : MatchResult)
      → Valid h e
      → engine_weight e < fuel
      → Waiting rules e
      → Lands true rules h e r (engine_weight e) (evaluate_stop_triggers new_order e r)
  evaluate_stop_triggers-Lands h e r v w q =
      evaluate-Lands e.book e.sequence e.pending_stops h r v w q
