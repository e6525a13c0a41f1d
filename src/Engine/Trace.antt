-- ===== src/Engine/Trace.antt =====
-- The engine as a state machine: the single changes of its state, each with the conditions under
-- which the exchange allows it, and their sequences with the trades that they make.
use lob_engine.Prelude.{
  ◌≡◌, refl, sym, subst, Option-cases, ◌==◌, All, All-append, eqb_ℤ, pos, ap, ◌∙◌, ◌⊎◌, Bool, true,
  false, ◌<◌, ◌≤◌, some, List, [], ◌∷◌, ◌++◌, min, ok, add64, append_assoc, append-nil, sub64,
  Bool-cases, inl, inr,
}
use lob_engine.Core.{OrderId, Quantity, Price, Order, OrderType, OrderStatus, Trade}
use lob_engine.Level.{PriceLevel, drain_cancelled}
use lob_engine.Book.{
  OrderBook, best_level, find_id, insert_order, cancel_order, put_level, adjust_order,
}
use lob_engine.Book.Coherent.{IsCoherent, Unused, Shrinks, view_at}
use lob_engine.Engine.State.{Engine, MatchResult}
use lob_engine.Engine.Fill.{opposite, fill_trade, settle_passive, converted}
use lob_engine.Engine.Match.{beyond_limit}
use lob_engine.Engine.Ended.{IsFinished}
use lob_engine.Engine.Submit.{take_stop}

-- Who may do what in a trace: the orders that may take and rest, the orders that may wait as pending
-- stops, and the ids that may be cancelled. Taking allows what is left of the order, and a stop that
-- waits may take as the order that it is converted to.
pub record Rules : Type 1 where
  pub takes : Order → Type 0
  pub waits : Order → Type 0
  pub withdraws : OrderId → Type 0
  pub shrink :
      (a : Order) (q : Quantity) (status : OrderStatus)
      → q ≤ a.quantity
      → takes a
      → takes (record a { quantity = q; status = status })
  pub trigger : (s : Order) → waits s → takes (converted s)
  pub keep : (s : Order) (status : OrderStatus) → waits s → waits (record s { status = status })

-- Without restriction.
abbrev pub anyone : Rules
anyone = record {
  takes = λ _. Unit;
  waits = λ _. Unit;
  withdraws = λ _. Unit;
  shrink = λ _ _ _ _ _. tt;
  trigger = λ _ _. tt;
  keep = λ _ _ _. tt;
}

-- Every pending stop may wait.
abbrev pub Waiting : Rules → Engine → Type 0
Waiting rules e = All rules.waits e.pending_stops

-- An iceberg is the one type whose trace can rest an order that is not matched to the end.
abbrev pub is_plain : OrderType → Bool
is_plain OrderType.iceberg = false
is_plain _ = true

-- The types that wait for a price.
abbrev pub is_stop : OrderType → Bool
is_stop OrderType.stop = true
is_stop OrderType.stop_limit = true
is_stop _ = false

-- The order's part of a fill.
abbrev pub filled_by : Quantity → Order → Order
filled_by q o = record o { quantity = sub64 o.quantity q }

-- The book after the passive order and the last price are written, before the order is settled.
abbrev pub traded_book : OrderBook → Order → Quantity → OrderBook
traded_book b p q = record b {
  id_map = adjust_order p.id (λ _. filled_by q p) b.id_map;
  last_trade_price = p.price;
}

-- A trade: an order that wants a quantity meets the order that stands first in the best level of
-- the other side, at a price within its limit unless it is a market order.
pub record Fill (rules : Rules) (e : Engine) (t : Trade) (e' : Engine) : Type 0 where
  pub aggressor : Order
  pub taker : rules.takes aggressor
  pub passive : Order
  pub key : Price
  pub level : PriceLevel
  pub behind : List OrderId
  pub wanted : 0 < aggressor.quantity
  pub best : best_level (opposite aggressor.side) e.book ≡ some (key, level)
  pub first : view_at e.book (opposite aggressor.side) key ≡ passive.id ∷ behind
  pub held : find_id passive.id e.book.id_map ≡ some passive
  pub priced : passive.price ≡ key
  pub allowed : (aggressor.type ≡ OrderType.market) ⊎ (beyond_limit aggressor key ≡ false)
  pub made : t ≡ fill_trade aggressor passive (min aggressor.quantity passive.quantity)
  pub settles :
      let q = min aggressor.quantity passive.quantity in
      settle_passive
        (traded_book
          (put_level e.book (opposite aggressor.side) key (drain_cancelled level))
          passive
          q)
        (filled_by q passive)
        q
      ≡ ok e'.book
  pub coherent : IsCoherent e'.book
  pub shrinks : Shrinks e.book e'.book
  pub stops : e'.pending_stops ≡ e.pending_stops

-- A change without a trade. `rested_unfilled` is what an iceberg does when its peak is filled and
-- its reserve is not; `plain` excludes it.
pub data Change (plain : Bool) (rules : Rules) (e : Engine) (e' : Engine) : Type 0 where
  rested :
      (a : Order)
      → rules.takes a
      → IsFinished e a
      → 0 < a.quantity
      → Unused a.id e.book
      → e' ≡ record e { book = insert_order e.book a }
      → Change plain rules e e'
  rested_unfilled :
      (a : Order)
      → rules.takes a
      → plain ≡ false
      → Unused a.id e.book
      → e' ≡ record e { book = insert_order e.book a }
      → Change plain rules e e'
  removed :
      (o : Order)
      → rules.withdraws o.id
      → find_id o.id e.book.id_map ≡ some o
      → e' ≡ record e { book = (cancel_order e.book o.id).0 }
      → Change plain rules e e'
  parked :
      (s : Order)
      → rules.waits s
      → e' ≡ record e { pending_stops = e.pending_stops ++ s ∷ [] }
      → Change plain rules e e'
  swapped_out :
      eqb_ℤ e.book.last_trade_price (pos 0) ≡ false
      → e' ≡ record e { pending_stops = [] }
      → Change plain rules e e'
  stop_cancelled :
      (id : OrderId) (s : Order) (rest : List Order)
      → rules.withdraws id
      → take_stop id e.pending_stops ≡ some (s, rest)
      → e' ≡ record e { pending_stops = rest }
      → Change plain rules e e'
  counted : e' ≡ record e { sequence = add64 e.sequence 1 } → Change plain rules e e'

pub data Trace (plain : Bool) (rules : Rules) : Engine → List Trade → Engine → Type 0 where
  here : {e : Engine} → Trace plain rules e [] e
  silent :
      {e e' e'' : Engine} {ts : List Trade}
      → Change plain rules e e'
      → Trace plain rules e' ts e''
      → Trace plain rules e ts e''
  fill :
      {e e' e'' : Engine} {t : Trade} {ts : List Trade}
      → Fill rules e t e'
      → Trace plain rules e' ts e''
      → Trace plain rules e (t ∷ ts) e''

pub Trace-append :
    {plain : Bool} {rules : Rules} {e e' e'' : Engine} {ts us : List Trade}
    → Trace plain rules e ts e'
    → Trace plain rules e' us e''
    → Trace plain rules e (ts ++ us) e''
Trace-append here y = y
Trace-append (silent c x) y = silent c (Trace-append x y)
Trace-append (fill f x) y = fill f (Trace-append x y)

take_stop-All :
    (P : Order → Type 0) (id : OrderId) (os : List Order) (s : Order) (rest : List Order)
    → take_stop id os ≡ some (s, rest)
    → All P os
    → All P rest
unfolding take_stop
take_stop-All P id [] s rest h all = absurd (cc h)
take_stop-All P id (o ∷ os) s rest h (k, all) = elim (Bool-cases (o.id == id)) [
  | inl t ↦ let same : os ≡ rest = cc (rw t at h) in subst (All P) same all
  | inr t ↦ elim (Option-cases (take_stop id os)) [
    | inl n ↦ absurd (cc (rw (t, n) at h))
    | inr ((s', rest'), n) ↦
        let same : o ∷ rest' ≡ rest = cc (rw (t, n) at h) in
        subst (All P) same (k, take_stop-All P id os s' rest' n all)
  ]
]

weaken-Change :
    {p q : Bool} {rules : Rules} {e e' : Engine}
    → (q ≡ true → p ≡ true)
    → Change p rules e e'
    → Change q rules e e'
weaken-Change g (rested a k f w u x) = rested a k f w u x
weaken-Change {p} {q} g (rested_unfilled a k n u x) = elim (Bool-cases q) [
  | inl t ↦ absurd (cc (g t, n))
  | inr t ↦ rested_unfilled a k t u x
]
weaken-Change g (removed o k h x) = removed o k h x
weaken-Change g (parked s k x) = parked s k x
weaken-Change g (swapped_out k x) = swapped_out k x
weaken-Change g (stop_cancelled id s rest k h x) = stop_cancelled id s rest k h x
weaken-Change g (counted x) = counted x

weaken-Trace :
    {p q : Bool} {rules : Rules} {e e' : Engine} {ts : List Trade}
    → (q ≡ true → p ≡ true)
    → Trace p rules e ts e'
    → Trace q rules e ts e'
weaken-Trace g here = here
weaken-Trace g (silent c x) = silent (weaken-Change g c) (weaken-Trace g x)
weaken-Trace g (fill f x) = fill f (weaken-Trace g x)

-- What waits along a trace may wait.
Change-Waiting :
    {plain : Bool} {rules : Rules} {e e' : Engine}
    → Change plain rules e e'
    → Waiting rules e
    → Waiting rules e'
Change-Waiting {rules} (rested a k f w u x) h = subst (Waiting rules) (sym x) h
Change-Waiting {rules} (rested_unfilled a k n u x) h = subst (Waiting rules) (sym x) h
Change-Waiting {rules} (removed o k g x) h = subst (Waiting rules) (sym x) h
Change-Waiting {rules} {e} (parked s k x) h =
    subst (Waiting rules) (sym x) (All-append rules.waits e.pending_stops (s ∷ []) h (k, tt))
Change-Waiting {rules} (swapped_out k x) h = subst (Waiting rules) (sym x) tt
Change-Waiting {rules} {e} (stop_cancelled id s rest k g x) h =
    subst (Waiting rules) (sym x) (take_stop-All rules.waits id e.pending_stops s rest g h)
Change-Waiting {rules} (counted x) h = subst (Waiting rules) (sym x) h

pub Trace-Waiting :
    {plain : Bool} {rules : Rules} {e e' : Engine} {ts : List Trade}
    → Trace plain rules e ts e'
    → Waiting rules e
    → Waiting rules e'
Trace-Waiting here h = h
Trace-Waiting (silent c x) h = Trace-Waiting x (Change-Waiting c h)
Trace-Waiting {rules} (fill f x) h = Trace-Waiting x (subst (All rules.waits) (sym f.stops) h)

-- The trades that a call adds to a result are those of a trace.
pub record Traced (plain : Bool) (rules : Rules) (e : Engine) (r : MatchResult) (e' : Engine)
    (r' : MatchResult) : Type 0 where
  pub trades : List Trade
  pub added : r'.trades ≡ r.trades ++ trades
  pub trace : Trace plain rules e trades e'

-- A call that leaves the engine and adds no trade.
pub Traced-still :
    {plain : Bool} {rules : Rules} (e : Engine) (r r' : MatchResult)
    → r'.trades ≡ r.trades
    → Traced plain rules e r e r'
Traced-still e r r' h = record { trades = []; added = h ∙ sym (append-nil r.trades); trace = here }

pub Traced-refl :
    {plain : Bool} {rules : Rules} (e : Engine) (r : MatchResult) → Traced plain rules e r e r
Traced-refl e r = Traced-still e r r refl

pub Traced-trans :
    {plain : Bool} {rules : Rules} {e e' e'' : Engine} {r r' r'' : MatchResult}
    → Traced plain rules e r e' r'
    → Traced plain rules e' r' e'' r''
    → Traced plain rules e r e'' r''
Traced-trans {r = r} x y = record {
  trades = x.trades ++ y.trades;
  added = y.added ∙ ap (λ ts. ts ++ y.trades) x.added ∙ append_assoc r.trades x.trades y.trades;
  trace = Trace-append x.trace y.trace;
}

pub Traced-silent :
    {plain : Bool} {rules : Rules} {e e' e'' : Engine} {r r'' : MatchResult}
    → Change plain rules e e'
    → Traced plain rules e' r e'' r''
    → Traced plain rules e r e'' r''
Traced-silent c y = record { trades = y.trades; added = y.added; trace = silent c y.trace }

pub weaken-Traced :
    {p q : Bool} {rules : Rules} {e e' : Engine} {r r' : MatchResult}
    → (q ≡ true → p ≡ true)
    → Traced p rules e r e' r'
    → Traced q rules e r e' r'
weaken-Traced g x = record { trades = x.trades; added = x.added; trace = weaken-Trace g x.trace }
