-- ===== src/Engine/History.antt =====
-- Whole histories of submissions: new orders with ids of their own, cancels and replacements.
use lob_engine.Prelude.{
  ℕ, ◌+◌, ◌≤◌, ◌<◌, ◌≡◌, refl, sym, subst, false, List, [], ◌∷◌, ==_iff, if◌then◌else◌, arith,
  Option-cases, inl, inr, Run, ok, member, add64, Bool, true, ◌++◌, All,
}
use lob_engine.Core.{Order, Trade, OrderId, OrderEvent, CancelOrderEvent, ReplaceOrderEvent}
use lob_engine.Book.{find_id, cancel_order, has_order}
use lob_engine.Book.Coherent.{IsCoherent}
use lob_engine.Engine.State.{Engine, MatchResult, no_result}
use lob_engine.Engine.Submit.{
  take_stop, process_cancel, process_replace, dispatch, submit, submit_all,
}
use lob_engine.Engine.Weight.{load, engine_weight}
use lob_engine.Engine.Valid.{Frame, one, ◌⊕◌, Valid, Valid-mono}
use lob_engine.Engine.Stops.{Lands, Submits}
use lob_engine.Engine.TakeStop.{take_stop-Taken, Taken-count, Taken-weight}
use lob_engine.Engine.Takers.{rules_of, listed-Submits, pending-Waits, every}
use lob_engine.Engine.Total.{process_new_order-Lands}
use lob_engine.Engine.Cancels.{
  cancelled_book-Valid, cancel_resting-Valid, removed-Change, process_cancel-Traced,
}
use lob_engine.Engine.Trace.{
  Trace, Change, Traced, Traced-still, Traced-silent, Trace-append, weaken-Traced, is_plain, Rules,
  Waiting, Trace-Waiting,
}

-- A cancel keeps the engine valid and raises no weight, whatever it finds.
pub process_cancel-Valid :
    {h : Frame} (e : Engine) (c : CancelOrderEvent)
    → Valid h e
    → Valid h (process_cancel e c).0 × (engine_weight (process_cancel e c).0 ≤ engine_weight e)
unfolding process_cancel
process_cancel-Valid e c v = elim (Option-cases (take_stop c.order_id e.pending_stops)) [
  | inl n ↦ rw (n, process_cancel) (cancel_resting-Valid e c v)
  | inr ((s, rest), n) ↦
      let t = take_stop-Taken c.order_id e.pending_stops s rest n in
      rw (n, process_cancel)
        (
          record {
            coherent = v.coherent;
            single = λ i. omega (arith, v.single i, Taken-count t i);
            unused = λ i p. v.unused i (omega (arith, p, Taken-count t i));
          },
          omega (arith, Taken-weight t),
        )
]

-- The ids that no event so far has used.
abbrev pub fresh : List OrderId → Frame
fresh used i = if member i used then 0 else 1

-- Every new or replacing order comes with an id that no event before it used.
abbrev pub IsFresh : List OrderId → List OrderEvent → Type 0
IsFresh used [] = Unit {0}
IsFresh used (OrderEvent.new_order_event o ∷ evs) =
    (member o.id used ≡ false) × IsFresh (o.id ∷ used) evs
IsFresh used (OrderEvent.cancel_order_event c ∷ evs) = IsFresh used evs
IsFresh used (OrderEvent.modify_order_event m ∷ evs) = ⊥
IsFresh used (OrderEvent.replace_order_event x ∷ evs) =
    (member x.new_order.id used ≡ false) × IsFresh (x.new_order.id ∷ used) evs

-- What the orders of a history can trade.
abbrev pub event_load : OrderEvent → ℕ
event_load (OrderEvent.new_order_event o) = load o
event_load (OrderEvent.cancel_order_event c) = 0
event_load (OrderEvent.modify_order_event m) = 0
event_load (OrderEvent.replace_order_event x) = load x.new_order

abbrev pub history_load : List OrderEvent → ℕ
history_load [] = 0
history_load (ev ∷ evs) = event_load ev + history_load evs

fresh_next :
    (used : List OrderId) (id i : OrderId)
    → member id used ≡ false
    → (fresh (id ∷ used) ⊕ one id) i ≤ fresh used i
fresh_next used id i h = ground (arith, ==_iff id i, ==_iff i id)

unfoldable pub counted : Engine → Engine
counted e = record e { sequence = add64 e.sequence 1 }

pub counted-Valid : {h : Frame} (e : Engine) → Valid h e → Valid h (counted e)
unfolding counted
counted-Valid e v = record { coherent = v.coherent; single = v.single; unused = v.unused }

-- The trades of a list of results, in order.
abbrev pub all_trades : List MatchResult → List Trade
all_trades [] = []
all_trades (r ∷ rs) = r.trades ++ all_trades rs

-- No icebergs, if `plain`.
abbrev pub IsWithin : Bool → List OrderEvent → Type 0
IsWithin plain [] = Unit {0}
IsWithin plain (OrderEvent.new_order_event o ∷ evs) =
    (plain ≡ true → is_plain o.type ≡ true) × IsWithin plain evs
IsWithin plain (OrderEvent.cancel_order_event c ∷ evs) = IsWithin plain evs
IsWithin plain (OrderEvent.modify_order_event m ∷ evs) = IsWithin plain evs
IsWithin plain (OrderEvent.replace_order_event x ∷ evs) =
    (plain ≡ true → is_plain x.new_order.type ≡ true) × IsWithin plain evs

IsWithin-false : (evs : List OrderEvent) → IsWithin false evs
IsWithin-false [] = tt
IsWithin-false (OrderEvent.new_order_event o ∷ evs) = (λ h. absurd (cc h), IsWithin-false evs)
IsWithin-false (OrderEvent.cancel_order_event c ∷ evs) = IsWithin-false evs
IsWithin-false (OrderEvent.modify_order_event m ∷ evs) = IsWithin-false evs
IsWithin-false (OrderEvent.replace_order_event x ∷ evs) = (λ h. absurd (cc h), IsWithin-false evs)

-- The orders that the events of a history submit, and the ids that they cancel.
abbrev pub orders_of : List OrderEvent → List Order
orders_of [] = []
orders_of (OrderEvent.new_order_event o ∷ evs) = o ∷ orders_of evs
orders_of (OrderEvent.cancel_order_event c ∷ evs) = orders_of evs
orders_of (OrderEvent.modify_order_event m ∷ evs) = orders_of evs
orders_of (OrderEvent.replace_order_event x ∷ evs) = x.new_order ∷ orders_of evs

abbrev pub cancels_of : List OrderEvent → List OrderId
cancels_of [] = []
cancels_of (OrderEvent.new_order_event o ∷ evs) = cancels_of evs
cancels_of (OrderEvent.cancel_order_event c ∷ evs) = c.order_id ∷ cancels_of evs
cancels_of (OrderEvent.modify_order_event m ∷ evs) = cancels_of evs
cancels_of (OrderEvent.replace_order_event x ∷ evs) = x.old_order_id ∷ cancels_of evs

-- The rules of a history, from the engine that it starts with.
abbrev pub history_rules : Engine → List OrderEvent → Rules
history_rules e evs = rules_of e.pending_stops (orders_of evs) (cancels_of evs)

-- A replacement whose new id is unused runs through.
process_replace-Lands :
    (rules : Rules) (fuel : ℕ) (h : Frame) (e : Engine) (x : ReplaceOrderEvent)
    → Valid (h ⊕ one x.new_order.id) e
    → engine_weight e + load x.new_order + 1 < fuel
    → rules.withdraws x.old_order_id
    → Submits rules x.new_order
    → Waiting rules e
    → Lands
        (is_plain x.new_order.type)
        rules
        h
        e
        no_result
        (engine_weight e + load x.new_order)
        (process_replace fuel e x)
unfolding process_replace has_order
process_replace-Lands rules fuel h e x v w k s q =
    elim (Option-cases (find_id x.old_order_id e.book.id_map)) [
      | inl n ↦
          rw (n, process_replace)
            ((
              _,
              refl,
              Valid-mono (λ i. omega arith) v,
              omega arith,
              Traced-still e no_result _ refl,
            ))
      | inr (o, n) ↦
          let (v1, w1) = cancelled_book-Valid e x.old_order_id o v n in
          let e1 : Engine = record e { book = (cancel_order e.book x.old_order_id).0 } in
          let (m, done, v2, w2, t) =
            process_new_order-Lands rules fuel e1 h x.new_order v1 (omega (arith, w, w1)) s q in
          rw (n, process_replace)
            (rw done (
              (
                _,
                refl,
                v2,
                omega (arith, w1, w2),
                Traced-silent (removed-Change rules e x.old_order_id o k n) t,
              )))
    ]

-- A run of a history: it gives a coherent book by a trace of the trades it returns.
abbrev LandsAll : Bool → Rules → Engine → Run (Engine × List MatchResult) → Type 0
LandsAll plain rules e m =
    (a : Engine × List MatchResult) × (m ≡ ok a)
    × IsCoherent a.0.book
    × Trace plain rules e (all_trades a.1) a.0

-- The trace of one submission, before that of the others.
submitted :
    {plain : Bool} {rules : Rules} (e : Engine) {e1 e2 : Engine} {r : MatchResult} {ts : List Trade}
    → Traced plain rules (counted e) no_result e1 r
    → Trace plain rules e1 ts e2
    → Trace plain rules e (r.trades ++ ts) e2
unfolding counted
submitted e {ts = ts} x y =
    subst (λ us. Trace _ _ e (us ++ ts) _) (sym x.added)
      (Trace-append (Trace.silent (Change.counted refl) x.trace) y)

submit_all-Lands :
    (plain : Bool) (rules : Rules) (fuel : ℕ) (used : List OrderId) (evs : List OrderEvent)
    (e : Engine)
    → Valid (fresh used) e
    → IsFresh used evs
    → IsWithin plain evs
    → engine_weight e + history_load evs + 1 < fuel
    → All (Submits rules) (orders_of evs)
    → All rules.withdraws (cancels_of evs)
    → Waiting rules e
    → LandsAll plain rules e (submit_all fuel e evs)
unfolding submit_all submit dispatch counted
submit_all-Lands plain rules fuel used [] e v f p w os cs q =
    ((e, []), refl, v.coherent, Trace.here)
submit_all-Lands plain rules fuel used (OrderEvent.new_order_event o ∷ evs) e v (n, f) (p0, p) w
      (s, os) cs q =
    let v0 : Valid (fresh (o.id ∷ used) ⊕ one o.id) (counted e) =
      Valid-mono (λ i. fresh_next used o.id i n) (counted-Valid e v) in
    let (m, done, v1, w1, t) =
      process_new_order-Lands rules fuel (counted e) (fresh (o.id ∷ used)) o v0 (omega (arith, w)) s
        q in
    let (a, rest, c, ts) =
      submit_all-Lands plain rules fuel (o.id ∷ used) evs m.0 v1 f p (omega (arith, w, w1)) os cs
        (Trace-Waiting t.trace q) in
    ((a.0, m.1 ∷ a.1), rw done (rw rest), c, submitted e (weaken-Traced p0 t) ts)
submit_all-Lands plain rules fuel used (OrderEvent.cancel_order_event c ∷ evs) e v f p w os (k, cs)
      q =
    let (v1, w1) = process_cancel-Valid (counted e) c (counted-Valid e v) in
    let r = process_cancel (counted e) c in
    let t = process_cancel-Traced {plain = plain} rules (counted e) c k in
    let (a, rest, ok_book, ts) =
      submit_all-Lands plain rules fuel used evs r.0 v1 f p (omega (arith, w, w1)) os cs
        (Trace-Waiting t.trace q) in
    ((a.0, r.1 ∷ a.1), rw rest, ok_book, submitted e t ts)
submit_all-Lands plain rules fuel used (OrderEvent.modify_order_event m ∷ evs) e v f p w os cs q =
    elim f [ ]
submit_all-Lands plain rules fuel used (OrderEvent.replace_order_event x ∷ evs) e v (n, f) (p0, p) w
      (s, os) (k, cs) q =
    let v0 : Valid (fresh (x.new_order.id ∷ used) ⊕ one x.new_order.id) (counted e) =
      Valid-mono (λ i. fresh_next used x.new_order.id i n) (counted-Valid e v) in
    let (m, done, v1, w1, t) =
      process_replace-Lands rules fuel (fresh (x.new_order.id ∷ used)) (counted e) x v0
        (omega (arith, w)) k s q in
    let (a, rest, c, ts) =
      submit_all-Lands plain rules fuel (x.new_order.id ∷ used) evs m.0 v1 f p
        (omega (arith, w, w1)) os cs (Trace-Waiting t.trace q) in
    ((a.0, m.1 ∷ a.1), rw done (rw rest), c, submitted e (weaken-Traced p0 t) ts)

-- On a valid engine, any history of new orders, cancels and replacements, without a modify, whose
-- new ids are all different and not used before, runs through on enough fuel, and its whole run is
-- a trace of the engine that makes exactly the trades of the results, in their order. Each trade
-- takes the order that stands first in the best level of the other side, at that order's price. The
-- taker is an order of the history or a stop that was pending, in all but its status and its
-- quantity, which is at most that of the order, and the price is within its limit unless it is a
-- market order; a stop takes as what it is converted to, and an iceberg with its peak. Only these
-- orders, with at most these quantities, come to rest, only stops among them and the stops that
-- were pending wait, and only ids that the history cancels or replaces are cancelled. When no order
-- of the history is an iceberg, no change of the trace rests an unfilled reserve. The book that is
-- left is coherent.
pub submit_all-refines :
    (plain : Bool) (fuel : ℕ) (used : List OrderId) (evs : List OrderEvent) (e : Engine)
    → Valid (fresh used) e
    → IsFresh used evs
    → IsWithin plain evs
    → engine_weight e + history_load evs + 1 < fuel
    → LandsAll plain (history_rules e evs) e (submit_all fuel e evs)
submit_all-refines plain fuel used evs e v f p w =
    let orders = orders_of evs in
    let cancels = cancels_of evs in
    submit_all-Lands plain (history_rules e evs) fuel used evs e v f p w
      (every (λ s o. s ≡ o) (Submits (history_rules e evs)) orders (λ o. refl)
        (λ o h. listed-Submits e.pending_stops orders cancels o h))
      (every (λ i j. i ≡ j) (history_rules e evs).withdraws cancels (λ i. refl) (λ i h. h))
      (pending-Waits e.pending_stops orders cancels)

-- On a valid engine, any history of new orders, cancels and replacements, whose new ids are all
-- different and not used before, runs through on enough fuel: no null order is followed and no
-- empty deque read, and the book that is left is coherent.
pub submit_all-LandsAll :
    (fuel : ℕ) (used : List OrderId) (evs : List OrderEvent) (e : Engine)
    → Valid (fresh used) e
    → IsFresh used evs
    → engine_weight e + history_load evs + 1 < fuel
    → (a : Engine × List MatchResult) × (submit_all fuel e evs ≡ ok a) × IsCoherent a.0.book
submit_all-LandsAll fuel used evs e v f w =
    let (a, done, c, _) = submit_all-refines false fuel used evs e v f (IsWithin-false evs) w in
    (a, done, c)
